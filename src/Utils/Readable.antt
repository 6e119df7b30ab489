-- ===== src/Utils/Readable.antt =====
-- The text of properties determines the map it was written from.
use mathlib.Core.List.{Perm}
use mathlib.Core.List.Perm
use presto_on_k8s_operator.Maps.{StringMap, keys, lookup}
use presto_on_k8s_operator.Maps.Assigned.{Agree}
use presto_on_k8s_operator.Maps.Laws.{NodupKeys}
use presto_on_k8s_operator.Maps.Order.{lookup-eq_of_perm}
use presto_on_k8s_operator.Maps.Unordered.{Agree-Perm}
use presto_on_k8s_operator.Prelude.{
  ℕ, ◌≡◌, refl, sym, ◌∙◌, ap, subst, ◌↔◌, ◌≢◌, Bool, none, List, [], ◌∷◌, ◌++◌, map, arith, All,
  ◌==◌, if◌then◌else◌,
}
use presto_on_k8s_operator.Sorting.{sort_strings}
use presto_on_k8s_operator.Sorting.Laws.{sort_strings-perm}
use presto_on_k8s_operator.Sorting.Members.{sort_strings-All}
use presto_on_k8s_operator.Strings.{split, drop_empty}
use presto_on_k8s_operator.Strings.Laws.{Lacks}
use presto_on_k8s_operator.Text.{Text, codes, ==_iff}
use presto_on_k8s_operator.Utils.{property, get_properties}
use presto_on_k8s_operator.Utils.Properties.{
  line, is_newline, split-get_properties, get_properties-eq_of_perm,
}

abbrev pub is_equals : ℕ → Bool
is_equals c = c == b'='

-- The part of a line before its first `=`, and the part after it.
unfoldable key_part : Text → Text
key_part [] = []
key_part (c ∷ s) = let rest = key_part s in if is_equals c then [] else c ∷ rest

unfoldable value_part : Text → Text
value_part [] = []
value_part (c ∷ s) = let rest = value_part s in if is_equals c then s else rest

key_part-append : (k v : Text) → Lacks is_equals k → key_part (k ++ codes "=" ++ v) ≡ k
unfolding key_part
key_part-append [] v h = refl
key_part-append (c ∷ k) v h = ground (arith, key_part-append k v h.1)

value_part-append : (k v : Text) → Lacks is_equals k → value_part (k ++ codes "=" ++ v) ≡ v
unfolding value_part
value_part-append [] v h = refl
value_part-append (c ∷ k) v h = ground (arith, value_part-append k v h.1)

abbrev read_line : Text → Text × Text
read_line l = (key_part l, value_part l)

abbrev entry : StringMap → Text → Text × Text
entry m k = (k, property m k)

read_line-line : (m : StringMap) (k : Text) → Lacks is_equals k → read_line (line m k) ≡ entry m k
read_line-line m k h = cc (key_part-append k (property m k) h, value_part-append k (property m k) h)

abbrev read_properties : Text → StringMap
read_properties s = map read_line (drop_empty (split s b'\n'))

drop_empty-lines :
    (m : StringMap) (ks : List Text) → drop_empty (map (line m) ks ++ [] ∷ []) ≡ map (line m) ks
unfolding drop_empty
drop_empty-lines m [] = refl
drop_empty-lines m ([] ∷ ks) = ap (λ x. line m [] ∷ x) (drop_empty-lines m ks)
drop_empty-lines m ((c ∷ k) ∷ ks) = ap (λ x. line m (c ∷ k) ∷ x) (drop_empty-lines m ks)

map-read_line :
    (m : StringMap) (ks : List Text)
    → All (Lacks is_equals) ks
    → map read_line (map (line m) ks) ≡ map (entry m) ks
map-read_line m [] h = refl
map-read_line m (k ∷ ks) h = cc (read_line-line m k h.0, map-read_line m ks h.1)

-- What the keys of a map must be for its text to be read back: no key holds `=`, and no entry a
-- line feed.
abbrev pub IsReadable : StringMap → Type 0
IsReadable m = All (λ k. Lacks is_equals k × Lacks is_newline (line m k)) (keys m)

All-left : (P Q : Text → Type 0) (ks : List Text) → All (λ k. P k × Q k) ks → All P ks
All-left P Q [] h = tt
All-left P Q (k ∷ ks) h = (h.0.0, All-left P Q ks h.1)

All-right : (P Q : Text → Type 0) (ks : List Text) → All (λ k. P k × Q k) ks → All Q ks
All-right P Q [] h = tt
All-right P Q (k ∷ ks) h = (h.0.1, All-right P Q ks h.1)

read_properties-get_properties :
    (m : StringMap)
    → IsReadable m
    → read_properties (get_properties m) ≡ map (entry m) (sort_strings (keys m))
read_properties-get_properties m h =
    ap (λ ls. map read_line (drop_empty ls)) (split-get_properties m (All-right _ _ _ h))
    ∙ ap (map read_line) (drop_empty-lines m (sort_strings (keys m)))
    ∙ map-read_line m (sort_strings (keys m)) (sort_strings-All _ (keys m) (All-left _ _ _ h))

keys_ne : (k : Text) (m : StringMap) → lookup k m ≡ none → All (λ j. k ≢ j) (keys m)
unfolding lookup
keys_ne k [] h = tt
keys_ne k (e ∷ m) h = (λ p. ground (arith, h, p, ==_iff e.0 k), keys_ne k m (ground (arith, h)))

property_first : (k v : Text) (m : StringMap) → property ((k, v) ∷ m) k ≡ v
unfolding lookup
property_first k v m = ground (arith, ==_iff k k)

property_rest : (k v j : Text) (m : StringMap) → k ≢ j → property ((k, v) ∷ m) j ≡ property m j
unfolding lookup
property_rest k v j m h = ground (arith, h, ==_iff k j)

map-entry_cons :
    (k v : Text) (m : StringMap) (ks : List Text)
    → All (λ j. k ≢ j) ks
    → map (entry ((k, v) ∷ m)) ks ≡ map (entry m) ks
map-entry_cons k v m [] h = refl
map-entry_cons k v m (j ∷ ks) h = cc (property_rest k v j m h.0, map-entry_cons k v m ks h.1)

map-entry-keys : (m : StringMap) → NodupKeys m → map (entry m) (keys m) ≡ m
map-entry-keys [] h = refl
map-entry-keys ((k, v) ∷ m) h =
    cc (property_first k v m, map-entry_cons k v m (keys m) (keys_ne k m h.0), map-entry-keys m h.1)

entries-perm : (m : StringMap) → NodupKeys m → Perm (map (entry m) (sort_strings (keys m))) m
entries-perm m h =
    subst (λ x. Perm (map (entry m) (sort_strings (keys m))) x) (map-entry-keys m h)
      (Perm.map (entry m) (sort_strings-perm (keys m)))

-- Two maps that list no key twice, hold no `=` in a key and no line feed in an entry have the same
-- text exactly if they hold the same under every key.
pub get_properties-Agree :
    (m n : StringMap)
    → NodupKeys m
    → NodupKeys n
    → IsReadable m
    → IsReadable n
    → (get_properties m ≡ get_properties n) ↔ Agree m n
get_properties-Agree m n h g r t = (
  λ e.
      let same : map (entry m) (sort_strings (keys m)) ≡ map (entry n) (sort_strings (keys n)) =
        sym (read_properties-get_properties m r)
        ∙ ap read_properties e
        ∙ read_properties-get_properties n t in
      let perm : Perm m n =
        Perm.trans (Perm.symm (entries-perm m h))
          (subst (λ x. Perm x n) (sym same) (entries-perm n g)) in
      λ k. lookup-eq_of_perm k perm h,
  λ same. get_properties-eq_of_perm m n (Agree-Perm m n h g same) h,
)
