-- ===== src/Maps/Unordered.antt =====
-- A Go map proper: what it holds under each key, without an order of its entries.
use mathlib.Core.HLevel.{hedberg}
use mathlib.Core.List.{Perm}
use mathlib.Core.List.Perm
use mathlib.Core.Quot
use mathlib.Core.Quot.{Quot, Quot-set}
use presto_on_k8s_operator.Maps.{StringMap, lookup}
use presto_on_k8s_operator.Maps.Assigned.{Agree}
use presto_on_k8s_operator.Maps.Laws.{NodupKeys}
use presto_on_k8s_operator.Maps.Order.{option_discrete}
use presto_on_k8s_operator.Prelude.{
  ◌≡◌, sym, ◌∙◌, subst, Option, none, some, [], ◌∷◌, arith, if◌then◌else◌, Bool-cases, inl, inr,
}
use presto_on_k8s_operator.Text.{Text, ◌==◌, ==_iff}

-- The map without a key.
unfoldable without : Text → StringMap → StringMap
without k [] = []
without k (e ∷ m) = let rest = without k m in if e.0 == k then m else e ∷ rest

lookup-without :
    (k j : Text) (m : StringMap)
    → NodupKeys m
    → lookup j (without k m) ≡ (if k == j then none else lookup j m)
unfolding lookup without
lookup-without k j [] h = ground arith
lookup-without k j (e ∷ m) h =
    ground (arith, lookup-without k j m h.1, ==_iff e.0 k, ==_iff e.0 j, ==_iff k j)

without-NodupKeys : (k : Text) (m : StringMap) → NodupKeys m → NodupKeys (without k m)
unfolding lookup without
without-NodupKeys k [] h = tt
without-NodupKeys k (e ∷ m) h =
    ground (arith, without-NodupKeys k m h.1, lookup-without k e.0 m h.1, ==_iff k e.0)

entry_eq :
    (e : Text × Text) (k v : Text) → e.0 ≡ k → some e.1 ≡ some v → ◌≡◌ {A = Text × Text} e (k, v)
entry_eq e k v p q = cc (p, q)

perm_without : (k v : Text) (m : StringMap) → lookup k m ≡ some v → Perm m ((k, v) ∷ without k m)
unfolding lookup without
perm_without k v [] h = ground arith
perm_without k v (e ∷ m) h = elim (Bool-cases (e.0 == k)) [
  | inl hit ↦
      let value : some e.1 ≡ some v = ground (arith, h, hit) in
      rw hit (
        subst (λ x. Perm (e ∷ m) (x ∷ m)) (entry_eq e k v ((==_iff e.0 k).0 hit) value)
          (Perm.refl (e ∷ m)))
  | inr miss ↦
      let deeper : lookup k m ≡ some v = ground (arith, h, miss) in
      rw miss (Perm.trans (Perm.cons e (perm_without k v m deeper)) (Perm.swap (k, v) e _))
]

-- Maps that hold the same, with no key listed twice, have the same entries.
pub Agree-Perm : (m n : StringMap) → NodupKeys m → NodupKeys n → Agree m n → Perm m n
unfolding lookup
Agree-Perm [] [] h g same = Perm.refl []
Agree-Perm [] (e ∷ n) h g same = ground (arith, same e.0, ==_iff e.0 e.0)
Agree-Perm ((k, v) ∷ m) n h g same =
    let found : lookup k n ≡ some v = sym (same k) ∙ ground (arith, ==_iff k k) in
    let rest : Agree m (without k n) =
      λ j. ground (arith, lookup-without k j n g, same j, ==_iff k j, h.0) in
    Perm.trans (Perm.cons (k, v) (Agree-Perm m (without k n) h.1 (without-NodupKeys k n g) rest))
      (Perm.symm (perm_without k v n found))

-- A list of entries that lists no key twice.
abbrev pub UniqueMap : Type 0
UniqueMap = (m : StringMap) × NodupKeys m

-- The maps that hold the same are one.
abbrev pub SameEntries : UniqueMap → UniqueMap → Type 0
SameEntries m n = Agree m.0 n.0

abbrev pub GoMap : Type 0
GoMap = Quot SameEntries

-- `m[k]`
unfoldable pub find : Text → GoMap → Option Text
find k = Quot.lift (hedberg option_discrete) (λ m. lookup k m.0) (λ m n same. same k)

-- Two maps are equal if they hold the same under every key.
pub GoMap-ext : (a b : GoMap) → ((k : Text) → find k a ≡ find k b) → a ≡ b
unfolding find
GoMap-ext =
    Quot.ind (λ a. hlevel (Quot-set))
      (λ m. Quot.ind (λ b. hlevel (Quot-set)) (λ n same. Quot.sound same))
