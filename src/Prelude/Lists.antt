-- ===== src/Prelude/Lists.antt =====
-- A predicate that holds of all members of a list, and the length of a list as a native number.
use Prim.Native.Nat.{ℕ, suc, ◌+◌}
use mathlib.Core.List.{List, [], ◌∷◌, ◌++◌}
use mathlib.Core.Path.{◌≡◌}
use native.Mathlib.Omega.{arith}

abbrev pub All {ℓ κ} : {Item : Type ℓ} → (Item → Type κ) → List Item → Type κ
All Holds [] = Unit
All Holds (item ∷ rest) = Holds item × All Holds rest

pub All-append {ℓ κ} :
    {Item : Type ℓ} (Holds : Item → Type κ) (front back : List Item)
    → All Holds front
    → All Holds back
    → All Holds (front ++ back)
All-append Holds [] back _ there = there
All-append Holds (item ∷ rest) back (here, more) there =
    (here, All-append Holds rest back more there)

abbrev pub length {ℓ} : {Item : Type ℓ} → List Item → ℕ
length [] = 0
length (item ∷ rest) = suc (length rest)

pub length-append {ℓ} :
    {Item : Type ℓ} (front back : List Item) → length (front ++ back) ≡ length front + length back
length-append [] back = omega arith
length-append (item ∷ rest) back = omega (arith, length-append rest back)
