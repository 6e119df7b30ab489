-- ===== src/Maps/Order.antt =====
-- What does not depend on the order in which a map is visited.
use mathlib.Core.HLevel.{hedberg}
use mathlib.Core.List.{Perm, Permᴰ}
use mathlib.Core.List.Permᴰ
use mathlib.Core.Logic.{∥∥₁_map, ∥∥₁_elim}
use native.Mathlib.Decide.{ℕ_discrete}
use mathlib.Core.Path.{subst₂}
use presto_on_k8s_operator.Maps.{StringMap, keys, lookup}
use presto_on_k8s_operator.Maps.Laws.{NodupKeys}
use presto_on_k8s_operator.Prelude.{◌≡◌, refl, sym, ◌∙◌, Option, ◌∷◌, arith}
use presto_on_k8s_operator.Sorting.{sort_strings}
use presto_on_k8s_operator.Sorting.Laws.{sort_strings-eq_of_perm}
use presto_on_k8s_operator.Text.{Text, ==_iff}

-- The sorted keys.
pub sort_strings-keys : {m n : StringMap} → Perm m n → sort_strings (keys m) ≡ sort_strings (keys n)
sort_strings-keys p = sort_strings-eq_of_perm (∥∥₁_map p (λ q. Permᴰ.map _ q))

lookup_swap :
    (a b : Text × Text) (l : StringMap)
    → NodupKeys (a ∷ b ∷ l)
    → NodupKeys (b ∷ a ∷ l) × ((k : Text) → lookup k (a ∷ b ∷ l) ≡ lookup k (b ∷ a ∷ l))
unfolding lookup
lookup_swap a b l h = (
  (ground (arith, ==_iff a.0 b.0, ==_iff b.0 a.0), (ground (arith, ==_iff b.0 a.0), h.1.1)),
  λ k. ground (arith, ==_iff a.0 b.0, ==_iff b.0 a.0, ==_iff a.0 k, ==_iff b.0 k),
)

pub lookup-permᴰ :
    {m n : StringMap}
    → Permᴰ m n
    → NodupKeys m
    → NodupKeys n × ((k : Text) → lookup k m ≡ lookup k n)
unfolding lookup
lookup-permᴰ Permᴰ.nil h = (tt, λ k. refl)
lookup-permᴰ (Permᴰ.cons {a} e p) h =
    let (unique, same) = lookup-permᴰ p h.1 in
    rw (← e) (((sym (same a.0) ∙ h.0, unique), λ k. rw (same k)))
lookup-permᴰ (Permᴰ.swap {a} {b} {l = l} e f) h =
    subst₂
      (λ x y. NodupKeys (y ∷ x ∷ l) × ((k : Text) → lookup k (a ∷ b ∷ l) ≡ lookup k (y ∷ x ∷ l))) e
      f (lookup_swap a b l h)
lookup-permᴰ (Permᴰ.trans p q) h =
    let (hm, em) = lookup-permᴰ p h in let (hn, en) = lookup-permᴰ q hm in (hn, λ k. em k ∙ en k)

pub option_discrete : Discrete (Option Text)
option_discrete = hlevel ℕ_discrete

-- What is found under a key.
pub lookup-eq_of_perm :
    {m n : StringMap} (k : Text) → Perm m n → NodupKeys m → lookup k m ≡ lookup k n
lookup-eq_of_perm {m} {n} k p h =
    ∥∥₁_elim p (hedberg option_discrete (lookup k m) (lookup k n)) (λ q. (lookup-permᴰ q h).1 k)
