-- ===== src/Sorting.antt =====
-- `sort.Strings`, as an insertion sort: the texts in increasing order. The order is total and
-- antisymmetric, so a list has one sorted arrangement and the algorithm does not show.
use presto_on_k8s_operator.Prelude.{List, [], ◌∷◌, if◌then◌else◌}
use presto_on_k8s_operator.Text.{Text, text_leb}
pub mod Laws
pub mod Members

unfoldable pub insert_sorted : Text → List Text → List Text
insert_sorted x [] = x ∷ []
insert_sorted x (y ∷ ys) = if text_leb x y then x ∷ y ∷ ys else y ∷ insert_sorted x ys

unfoldable pub sort_strings : List Text → List Text
sort_strings [] = []
sort_strings (x ∷ xs) = insert_sorted x (sort_strings xs)
