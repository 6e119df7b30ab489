-- ===== src/Utils/Properties.antt =====
-- The text of properties: independent of the order of the map, and its lines are its entries.
use mathlib.Core.List.{Perm}
use presto_on_k8s_operator.Maps.{StringMap, keys, lookup}
use presto_on_k8s_operator.Maps.Laws.{NodupKeys}
use presto_on_k8s_operator.Maps.Order.{sort_strings-keys, lookup-eq_of_perm}
use presto_on_k8s_operator.Prelude.{
  ℕ, ◌≡◌, refl, ◌∙◌, ap, ◌≢◌, Bool, false, List, [], ◌∷◌, ◌++◌, append_assoc, map, arith, All, ◌==◌,
}
use presto_on_k8s_operator.Sorting.{sort_strings}
use presto_on_k8s_operator.Sorting.Members.{sort_strings-All}
use presto_on_k8s_operator.Strings.{split, split_by, fields, drop_empty, is_space, write_lines}
use presto_on_k8s_operator.Strings.Laws.{Lacks, split_by-Lacks, split_by-append, write_lines-split}
use presto_on_k8s_operator.Text.{Text, codes}
use presto_on_k8s_operator.Utils.{
  property, write_properties, get_properties, get_properties_fields, get_properties_strings,
}

write_properties-same :
    (m n : StringMap) (ks : List Text)
    → ((k : Text) → lookup k m ≡ lookup k n)
    → write_properties m ks ≡ write_properties n ks
unfolding write_properties
write_properties-same m n [] h = refl
write_properties-same m n (k ∷ ks) h = ground (arith, h k, write_properties-same m n ks h)

-- For a map that lists no key twice, the text does not depend on the order in which it is visited.
pub get_properties-eq_of_perm :
    (m n : StringMap) → Perm m n → NodupKeys m → get_properties m ≡ get_properties n
unfolding get_properties
get_properties-eq_of_perm m n p h =
    ap (write_properties m) (sort_strings-keys p)
    ∙ write_properties-same m n _ (λ k. lookup-eq_of_perm k p h)

-- The line of a key.
abbrev pub line : StringMap → Text → Text
line m k = k ++ codes "=" ++ property m k

abbrev pub is_newline : ℕ → Bool
is_newline c = c == b'\n'

split-write_properties :
    (m : StringMap) (ks : List Text)
    → All (λ k. Lacks is_newline (line m k)) ks
    → split (write_properties m ks) b'\n' ≡ map (line m) ks ++ [] ∷ []
unfolding split write_properties
split-write_properties m [] h = unfold split_by in refl
split-write_properties m (k ∷ ks) h = ground (
  arith,
  append_assoc (line m k) (codes "\n") (write_properties m ks),
  split_by-append is_newline (line m k) b'\n' (write_properties m ks) h.0 refl,
  split-write_properties m ks h.1,
)

-- If no entry holds a line feed, the lines of the text are the entries in the order of their keys,
-- each closed by a line feed.
pub split-get_properties :
    (m : StringMap)
    → All (λ k. Lacks is_newline (line m k)) (keys m)
    → split (get_properties m) b'\n' ≡ map (line m) (sort_strings (keys m)) ++ [] ∷ []
unfolding get_properties
split-get_properties m h = split-write_properties m _ (sort_strings-All _ (keys m) h)

-- A text with its lines written again is the same text with one more line feed.
pub get_properties_strings_lem : (s : Text) → get_properties_strings s ≡ s ++ codes "\n"
unfolding get_properties_strings
get_properties_strings_lem s = write_lines-split s

-- A word: not empty, and without spaces.
abbrev pub IsWord : Text → Type 0
IsWord p = (p ≢ []) × Lacks is_space p

drop_empty-IsWord : (ps : List Text) → All (Lacks is_space) ps → All IsWord (drop_empty ps)
unfolding drop_empty
drop_empty-IsWord [] h = tt
drop_empty-IsWord ([] ∷ ps) h = drop_empty-IsWord ps h.1
drop_empty-IsWord ((c ∷ p) ∷ ps) h = ((λ e. cc, h.0), drop_empty-IsWord ps h.1)

drop_empty-cons : (p : Text) (ps : List Text) → p ≢ [] → drop_empty (p ∷ ps) ≡ p ∷ drop_empty ps
unfolding drop_empty
drop_empty-cons [] ps h = absurd (h refl)
drop_empty-cons (c ∷ p) ps h = refl

fields-write_lines : (ps : List Text) → All IsWord ps → fields (write_lines ps) ≡ ps
unfolding fields write_lines
fields-write_lines [] h = unfold split_by in unfold drop_empty in refl
fields-write_lines (p ∷ ps) h = ground (
  arith,
  append_assoc p (codes "\n") (write_lines ps),
  split_by-append is_space p b'\n' (write_lines ps) h.0.1 (unfold is_space in refl),
  drop_empty-cons p (split_by is_space (write_lines ps)) h.0.0,
  fields-write_lines ps h.1,
)

-- What is not white space is not a line feed.
is_newline-false : (c : ℕ) → is_space c ≡ false → is_newline c ≡ false
unfolding is_space
is_newline-false c h = ground (arith, h)

Lacks-is_newline : (p : Text) → Lacks is_space p → Lacks is_newline p
Lacks-is_newline [] h = tt
Lacks-is_newline (c ∷ p) h = (is_newline-false c h.0, Lacks-is_newline p h.1)

split-write_lines : (ps : List Text) → All IsWord ps → split (write_lines ps) b'\n' ≡ ps ++ [] ∷ []
unfolding split write_lines
split-write_lines [] h = unfold split_by in refl
split-write_lines (p ∷ ps) h = ground (
  arith,
  append_assoc p (codes "\n") (write_lines ps),
  split_by-append is_newline p b'\n' (write_lines ps) (Lacks-is_newline p h.0.1) refl,
  split-write_lines ps h.1,
)

-- The lines of the result are the words of the text, in order, and nothing but an empty line after
-- the last of them: each word is followed by a line feed. The words are not empty and hold no white
-- space, and the words of the result are those of the text.
pub fields-get_properties_fields :
    (s : Text)
    → (split (get_properties_fields s) b'\n' ≡ fields s ++ [] ∷ [])
      × (fields (get_properties_fields s) ≡ fields s)
      × All IsWord (fields s)
unfolding get_properties_fields fields
fields-get_properties_fields s =
    let words = drop_empty-IsWord (split_by is_space s) (split_by-Lacks is_space s) in
    (split-write_lines _ words, fields-write_lines _ words, words)
