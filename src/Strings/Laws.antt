-- ===== src/Strings/Laws.antt =====
-- Laws of splitting: what the parts are, and that joining them gives the text back.
use presto_on_k8s_operator.Prelude.{
  ℕ, suc, ◌+◌, ◌≡◌, refl, ◌≢◌, Bool, true, false, List, [], ◌∷◌, ◌++◌, arith, inl, inr, Bool-cases,
  All, length, if◌then◌else◌, ◌==◌,
}
use presto_on_k8s_operator.Strings.{cons_first, split_by, split, write_lines}
use presto_on_k8s_operator.Text.{Text, codes}

-- No code point of the text passes the test.
abbrev pub Lacks : (ℕ → Bool) → Text → Type 0
Lacks sep [] = Unit
Lacks sep (c ∷ s) = (sep c ≡ false) × Lacks sep s

-- `strings.Join(parts, sep)`
unfoldable pub join : List Text → ℕ → Text
join [] sep = []
join (p ∷ []) sep = p
join (p ∷ q ∷ ps) sep = p ++ sep ∷ join (q ∷ ps) sep

unfoldable pub count_by : (ℕ → Bool) → Text → ℕ
count_by sep [] = 0
count_by sep (c ∷ s) = (if sep c then 1 else 0) + count_by sep s

cons_first-Lacks :
    (sep : ℕ → Bool) (c : ℕ) (ps : List Text)
    → sep c ≡ false
    → All (Lacks sep) ps
    → All (Lacks sep) (cons_first c ps)
unfolding cons_first
cons_first-Lacks sep c [] e h = ((e, tt), tt)
cons_first-Lacks sep c (p ∷ ps) e h = ((e, h.0), h.1)

pub split_by-ne-nil : (sep : ℕ → Bool) (s : Text) → split_by sep s ≢ []
unfolding split_by cons_first
split_by-ne-nil sep [] = ground arith
split_by-ne-nil sep (c ∷ s) = ground arith

-- No part holds a separator.
pub split_by-Lacks : (sep : ℕ → Bool) (s : Text) → All (Lacks sep) (split_by sep s)
unfolding split_by
split_by-Lacks sep [] = (tt, tt)
split_by-Lacks sep (c ∷ s) = elim (Bool-cases (sep c)) [
  | inl e ↦ rw e (tt, split_by-Lacks sep s)
  | inr e ↦ rw e (cons_first-Lacks sep c (split_by sep s) e (split_by-Lacks sep s))
]

-- There is one part more than there are separators.
pub length-split_by : (sep : ℕ → Bool) (s : Text) → length (split_by sep s) ≡ suc (count_by sep s)
unfolding split_by count_by cons_first
length-split_by sep [] = refl
length-split_by sep (c ∷ s) = ground (arith, length-split_by sep s)

-- A text without separators is its own only part.
pub split_by_lacking : (sep : ℕ → Bool) (s : Text) → Lacks sep s → split_by sep s ≡ s ∷ []
unfolding split_by cons_first
split_by_lacking sep [] h = refl
split_by_lacking sep (c ∷ s) h = ground (arith, split_by_lacking sep s h.1)

pub split_by-append :
    (sep : ℕ → Bool) (p : Text) (c : ℕ) (s : Text)
    → Lacks sep p
    → sep c ≡ true
    → split_by sep (p ++ c ∷ s) ≡ p ∷ split_by sep s
unfolding split_by cons_first
split_by-append sep [] c s h e = ground arith
split_by-append sep (d ∷ p) c s h e = ground (arith, split_by-append sep p c s h.1 e)

join-cons_first : (c sep : ℕ) (ps : List Text) → join (cons_first c ps) sep ≡ c ∷ join ps sep
unfolding join cons_first
join-cons_first c sep [] = refl
join-cons_first c sep (p ∷ []) = refl
join-cons_first c sep (p ∷ q ∷ ps) = refl

join-nil_cons : (sep : ℕ) (ps : List Text) → ps ≢ [] → join ([] ∷ ps) sep ≡ sep ∷ join ps sep
unfolding join
join-nil_cons sep [] h = absurd (h refl)
join-nil_cons sep (p ∷ ps) h = refl

-- Joining the parts gives the text back, for every text.
pub join-split : (text : Text) (sep : ℕ) → join (split text sep) sep ≡ text
unfolding split
join-split [] sep = unfold join in refl
join-split (c ∷ s) sep = ground (
  arith,
  join-split s sep,
  join-nil_cons sep (split s sep) (split_by-ne-nil _ s),
  join-cons_first c sep (split s sep),
)

write_lines-cons_first :
    (c : ℕ) (ps : List Text) → ps ≢ [] → write_lines (cons_first c ps) ≡ c ∷ write_lines ps
unfolding write_lines cons_first
write_lines-cons_first c [] h = absurd (h refl)
write_lines-cons_first c (p ∷ ps) h = refl

-- Writing the parts between line feeds as lines appends one line feed.
pub write_lines-split : (s : Text) → write_lines (split s b'\n') ≡ s ++ codes "\n"
unfolding write_lines split
write_lines-split [] = refl
write_lines-split (c ∷ s) = ground (
  arith,
  write_lines-split s,
  split_by-ne-nil (λ (d : ℕ). d == b'\n') s,
  write_lines-cons_first c (split s b'\n'),
)
