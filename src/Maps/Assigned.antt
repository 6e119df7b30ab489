-- ===== src/Maps/Assigned.antt =====
-- Assignments of the entries of a map do not depend on the order in which the entries are visited.
use mathlib.Core.List.{Perm, Permᴰ}
use mathlib.Core.HLevel.{hedberg}
use mathlib.Core.List.{append_cancel_left}
use mathlib.Core.Logic.{∥∥₁_elim}
use mathlib.Core.Path.{subst₂}
use presto_on_k8s_operator.Maps.{StringMap, lookup, insert, assign_all}
use presto_on_k8s_operator.Maps.Laws.{NodupKeys, lookup-insert}
use presto_on_k8s_operator.Maps.Order.{option_discrete, lookup-permᴰ}
use presto_on_k8s_operator.Prelude.{◌≡◌, refl, ◌∙◌, [], ◌∷◌, ◌++◌, arith, ◌≢◌}
use presto_on_k8s_operator.Text.{Text, ==_iff}

-- Two maps that hold the same under every key.
abbrev pub Agree : StringMap → StringMap → Type 0
Agree m n = (k : Text) → lookup k m ≡ lookup k n

pub insert-Agree : (k v : Text) (m n : StringMap) → Agree m n → Agree (insert k v m) (insert k v n)
insert-Agree k v m n h j = ground (arith, lookup-insert k j v m, lookup-insert k j v n, h j)

-- Assignments under different keys commute.
insert-swap :
    (k v j w : Text) (m : StringMap)
    → k ≢ j
    → Agree (insert j w (insert k v m)) (insert k v (insert j w m))
insert-swap k v j w m differ i = ground (
  arith,
  lookup-insert j i w (insert k v m),
  lookup-insert k i v m,
  lookup-insert k i v (insert j w m),
  lookup-insert j i w m,
  ==_iff j i,
  ==_iff k i,
  differ,
)

pub assign_all-Agree :
    (p : Text) (m out out' : StringMap)
    → Agree out out'
    → Agree (assign_all p m out) (assign_all p m out')
unfolding assign_all
assign_all-Agree p [] out out' h = h
assign_all-Agree p (e ∷ m) out out' h =
    assign_all-Agree p m _ _ (insert-Agree (p ++ e.0) e.1 out out' h)

assign_all_swap :
    (p : Text) (a b : Text × Text) (l out out' : StringMap)
    → NodupKeys (a ∷ b ∷ l)
    → Agree out out'
    → Agree (assign_all p (a ∷ b ∷ l) out) (assign_all p (b ∷ a ∷ l) out')
unfolding assign_all lookup
assign_all_swap p a b l out out' h agree =
    let differ : a.0 ≢ b.0 = λ e. ground (arith, e, h.0, ==_iff b.0 a.0) in
    assign_all-Agree p l _ _ (λ k.
      insert-swap (p ++ a.0) a.1 (p ++ b.0) b.1 out (λ e. differ (append_cancel_left p a.0 b.0 e)) k
      ∙ insert-Agree (p ++ a.0) a.1 _ _ (insert-Agree (p ++ b.0) b.1 out out' agree) k)

assign_all-permᴰ :
    (p : Text) {m n : StringMap}
    → Permᴰ m n
    → NodupKeys m
    → (out out' : StringMap) → Agree out out'
    → Agree (assign_all p m out) (assign_all p n out')
unfolding assign_all
assign_all-permᴰ p Permᴰ.nil h out out' agree = agree
assign_all-permᴰ p (Permᴰ.cons {a} e q) h out out' agree =
    rw (← e) (assign_all-permᴰ p q h.1 _ _ (insert-Agree (p ++ a.0) a.1 out out' agree))
assign_all-permᴰ p (Permᴰ.swap {a} {b} {l = l} e f) h out out' agree =
    subst₂ (λ x y. Agree (assign_all p (a ∷ b ∷ l) out) (assign_all p (y ∷ x ∷ l) out')) e f
      (assign_all_swap p a b l out out' h agree)
assign_all-permᴰ p (Permᴰ.trans q r) h out out' agree = λ k.
    assign_all-permᴰ p q h out out (λ _. refl) k
    ∙ assign_all-permᴰ p r (lookup-permᴰ q h).0 out out' agree k

-- Assigning the entries in another order, to a map that holds the same, gives a map that holds the
-- same.
pub assign_all-Agree_of_perm :
    (p : Text) {m n : StringMap} (out out' : StringMap)
    → Perm m n
    → NodupKeys m
    → Agree out out'
    → Agree (assign_all p m out) (assign_all p n out')
assign_all-Agree_of_perm p {m} {n} out out' q h agree k =
    ∥∥₁_elim q
      (hedberg option_discrete (lookup k (assign_all p m out)) (lookup k (assign_all p n out')))
      (λ r. assign_all-permᴰ p r h out out' agree k)
