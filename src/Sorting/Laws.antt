-- ===== src/Sorting/Laws.antt =====
-- Sorting keeps the members, orders them, and forgets the order it was given.
use mathlib.Core.HLevel.{hedberg}
use mathlib.Core.List.{Perm, Permᴰ}
use mathlib.Core.List.Perm
use mathlib.Core.Logic.{∥∥₁_elim}
use native.Mathlib.Decide.{ℕ_discrete}
use presto_on_k8s_operator.Prelude.{
  ◌≡◌, refl, ◌∙◌, true, false, List, [], ◌∷◌, arith, inl, inr, Bool-cases,
}
use presto_on_k8s_operator.Sorting.{insert_sorted, sort_strings}
use presto_on_k8s_operator.Text.{Text, text_leb}
use presto_on_k8s_operator.Text.Order.{text_leb_total, text_leb_antisymm, text_leb_trans}

insert_sorted_le :
    (x y : Text) (ys : List Text) → text_leb x y ≡ true → insert_sorted x (y ∷ ys) ≡ x ∷ y ∷ ys
unfolding insert_sorted
insert_sorted_le x y ys h = rw h

insert_sorted_gt :
    (x y : Text) (ys : List Text)
    → text_leb x y ≡ false
    → insert_sorted x (y ∷ ys) ≡ y ∷ insert_sorted x ys
unfolding insert_sorted
insert_sorted_gt x y ys h = rw h

insert_sorted-perm : (x : Text) (ys : List Text) → Perm (insert_sorted x ys) (x ∷ ys)
insert_sorted-perm x [] = unfold insert_sorted in Perm.refl _
insert_sorted-perm x (y ∷ ys) = elim (Bool-cases (text_leb x y)) [
  | inl h ↦ rw (insert_sorted_le x y ys h) (Perm.refl _)
  | inr h ↦
      rw (insert_sorted_gt x y ys h)
        (Perm.trans (Perm.cons y (insert_sorted-perm x ys)) (Perm.swap x y ys))
]

-- Sorting lists the same texts, each as often.
pub sort_strings-perm : (xs : List Text) → Perm (sort_strings xs) xs
unfolding sort_strings
sort_strings-perm [] = Perm.refl _
sort_strings-perm (x ∷ xs) =
    Perm.trans (insert_sorted-perm x (sort_strings xs)) (Perm.cons x (sort_strings-perm xs))

insert_sorted_comm :
    (x y : Text) (zs : List Text)
    → insert_sorted x (insert_sorted y zs) ≡ insert_sorted y (insert_sorted x zs)
unfolding insert_sorted
insert_sorted_comm x y [] = ground (arith, text_leb_total x y, text_leb_antisymm x y)
insert_sorted_comm x y (z ∷ zs) = ground (
  arith,
  text_leb_total x y,
  text_leb_antisymm x y,
  text_leb_trans x y z,
  text_leb_trans y x z,
  insert_sorted_comm x y zs,
)

sort_strings-permᴰ : {xs ys : List Text} → Permᴰ xs ys → sort_strings xs ≡ sort_strings ys
unfolding sort_strings
sort_strings-permᴰ Permᴰ.nil = refl
sort_strings-permᴰ (Permᴰ.cons e p) = cc (sort_strings-permᴰ p)
sort_strings-permᴰ (Permᴰ.swap {a} {b} {l = l} e f) =
    rw (← e, ← f) (insert_sorted_comm a b (sort_strings l))
sort_strings-permᴰ (Permᴰ.trans p q) = sort_strings-permᴰ p ∙ sort_strings-permᴰ q

texts_discrete : Discrete (List Text)
texts_discrete = hlevel ℕ_discrete

-- The sorted list does not depend on the order in which the texts were gathered.
pub sort_strings-eq_of_perm : {xs ys : List Text} → Perm xs ys → sort_strings xs ≡ sort_strings ys
sort_strings-eq_of_perm {xs} {ys} p =
    ∥∥₁_elim p (hedberg texts_discrete (sort_strings xs) (sort_strings ys)) sort_strings-permᴰ
