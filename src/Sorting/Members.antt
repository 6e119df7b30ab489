-- ===== src/Sorting/Members.antt =====
-- What holds of all texts holds of all of them once they are sorted.
use presto_on_k8s_operator.Prelude.{inl, inr, List, [], ◌∷◌, All, Bool-cases}
use presto_on_k8s_operator.Sorting.{insert_sorted, sort_strings}
use presto_on_k8s_operator.Text.{Text, text_leb}

insert_sorted-All :
    (P : Text → Type 0) (x : Text) (ys : List Text) → P x → All P ys → All P (insert_sorted x ys)
unfolding insert_sorted
insert_sorted-All P x [] p h = (p, tt)
insert_sorted-All P x (y ∷ ys) p h = elim (Bool-cases (text_leb x y)) [
  | inl e ↦ rw e (p, h)
  | inr e ↦ rw e (h.0, insert_sorted-All P x ys p h.1)
]

pub sort_strings-All : (P : Text → Type 0) (xs : List Text) → All P xs → All P (sort_strings xs)
unfolding sort_strings
sort_strings-All P [] h = tt
sort_strings-All P (x ∷ xs) h =
    insert_sorted-All P x (sort_strings xs) h.0 (sort_strings-All P xs h.1)
