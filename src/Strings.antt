-- ===== src/Strings.antt =====
-- What the operator uses of Go's package strings: `Split` at one code point, `Fields` and a builder.
use presto_on_k8s_operator.Prelude.{
  ℕ, Bool, true, false, ◌||◌, ◌&&◌, not, List, [], ◌∷◌, ◌++◌, if◌then◌else◌, ◌==◌, leb,
}
use presto_on_k8s_operator.Text.{Text, codes}
pub mod Laws

-- One more code point in front of the first part.
unfoldable pub cons_first : ℕ → List Text → List Text
cons_first c [] = (c ∷ []) ∷ []
cons_first c (p ∷ ps) = (c ∷ p) ∷ ps

-- The parts between the separators; there is one part more than there are separators.
unfoldable pub split_by : (ℕ → Bool) → Text → List Text
split_by sep [] = [] ∷ []
split_by sep (c ∷ s) = let rest = split_by sep s in if sep c then [] ∷ rest else cons_first c rest

-- `strings.Split(s, sep)`
unfoldable pub split : Text → ℕ → List Text
unfolding split_by
split s sep = split_by (λ c. c == sep) s

-- `unicode.IsSpace`: the White_Space property.
unfoldable pub is_space : ℕ → Bool
is_space c =
    (leb 0x09 c && leb c 0x0d)
    || (c == 0x20)
    || (c == 0x85)
    || (c == 0xa0)
    || (c == 0x1680)
    || (leb 0x2000 c && leb c 0x200a)
    || (c == 0x2028)
    || (c == 0x2029)
    || (c == 0x202f)
    || (c == 0x205f)
    || (c == 0x3000)

unfoldable pub drop_empty : List Text → List Text
drop_empty [] = []
drop_empty ([] ∷ ps) = drop_empty ps
drop_empty ((c ∷ p) ∷ ps) = (c ∷ p) ∷ drop_empty ps

-- `strings.Fields(s)`: the non-empty parts between spaces.
unfoldable pub fields : Text → List Text
unfolding split_by drop_empty
fields s = drop_empty (split_by is_space s)

-- A builder that writes `fmt.Sprintf("%s\n", line)` for each line.
unfoldable pub write_lines : List Text → Text
write_lines [] = []
write_lines (l ∷ ls) = (l ++ codes "\n") ++ write_lines ls
