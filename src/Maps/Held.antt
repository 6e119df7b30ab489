-- ===== src/Maps/Held.antt =====
-- Which keys a map holds.
use presto_on_k8s_operator.Maps.{StringMap, keys, lookup, insert, assign_all}
use presto_on_k8s_operator.Maps.Laws.{lookup-insert}
use presto_on_k8s_operator.Prelude.{
  refl, ◌≢◌, inl, inr, none, [], ◌∷◌, ◌++◌, arith, All, Bool-cases,
}
use presto_on_k8s_operator.Text.{Text, ◌==◌, ==_iff, ==_refl}

-- The keys of a map are found in it.
pub keys-held :
    (m : StringMap) (P : Text → Type 0) → ((k : Text) → lookup k m ≢ none → P k) → All P (keys m)
unfolding lookup
keys-held [] P h = tt
keys-held ((k, v) ∷ m) P h =
    (h k (ground (arith, ==_refl k)), keys-held m P (λ j held. h j (ground arith)))

pub insert-keeps :
    (k v j : Text) (m : StringMap) → lookup j m ≢ none → lookup j (insert k v m) ≢ none
insert-keeps k v j m h = ground (arith, lookup-insert k j v m)

pub insert-adds : (k v : Text) (m : StringMap) → lookup k (insert k v m) ≢ none
insert-adds k v m = ground (arith, lookup-insert k k v m, ==_refl k)

-- Assignments keep the keys that were there, and add those of the map.
pub assign_all-keeps :
    (p j : Text) (m out : StringMap) → lookup j out ≢ none → lookup j (assign_all p m out) ≢ none
unfolding assign_all
assign_all-keeps p j [] out h = h
assign_all-keeps p j ((k, v) ∷ m) out h =
    assign_all-keeps p j m _ (ground (arith, lookup-insert (p ++ k) j v out))

pub assign_all-adds :
    (p k : Text) (m out : StringMap)
    → lookup k m ≢ none
    → lookup (p ++ k) (assign_all p m out) ≢ none
unfolding assign_all lookup
assign_all-adds p k [] out h = absurd (h refl)
assign_all-adds p k ((i, v) ∷ m) out h = elim (Bool-cases (i == k)) [
  | inl same ↦
      assign_all-keeps p (p ++ k) m _ (
        ground (arith, lookup-insert (p ++ i) (p ++ k) v out, ==_iff i k, ==_iff (p ++ i) (p ++ k)))
  | inr other ↦ assign_all-adds p k m _ (rw other at h)
]
