-- ===== src/Text/Defs.antt =====
-- Texts, their equality test and their order test.
use Prim.Native.String.{String}
use Prim.Native.Char.{code}
use presto_on_k8s_operator.Prelude.{
  ℕ, ◌≡◌, ◌≢◌, ap, refl, ◌↔◌, Bool, true, false, ◌&&◌, List, [], ◌∷◌, arith, ltb, ◌==◌ as nat_eq,
  if◌then◌else◌,
}

abbrev pub Text : Type 0
Text = List ℕ

-- The code points of a literal.
abbrev pub codes : String → Text
codes String.[] = []
codes (String.◌∷◌ letter letters) = code letter ∷ codes letters

infix 50 ◌==◌
unfoldable pub ◌==◌ : Text → Text → Bool
[] == [] = true
(c ∷ s) == (d ∷ t) = nat_eq c d && (s == t)
_ == _ = false

-- `s <= t` on Go strings, the order that `sort.Strings` sorts by.
unfoldable pub text_leb : Text → Text → Bool
text_leb [] t = true
text_leb (c ∷ s) [] = false
text_leb (c ∷ s) (d ∷ t) = if ltb c d then true else if ltb d c then false else text_leb s t

pub ==_iff : (s t : Text) → ((s == t) ≡ true) ↔ (s ≡ t)
unfolding ◌==◌
==_iff [] [] = ground arith
==_iff [] (d ∷ t) = ground arith
==_iff (c ∷ s) [] = ground arith
==_iff (c ∷ s) (d ∷ t) = ground (arith, ==_iff s t)

pub ==_refl : (s : Text) → (s == s) ≡ true
==_refl s = (==_iff s s).1 refl

first : Text → ℕ
first [] = 0
first (c ∷ s) = c

-- Texts that begin with different code points differ.
pub ne_of_first : (c d : ℕ) (s t : Text) → c ≢ d → ◌≢◌ {A = Text} (c ∷ s) (d ∷ t)
unfolding first
ne_of_first c d s t h e = h (ap first e)
