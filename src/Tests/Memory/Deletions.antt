-- ===== src/Tests/Memory/Deletions.antt =====
-- Deletions on the server in memory.
use presto_on_k8s_operator.Kube.Client.{Kind, Object, key}
use presto_on_k8s_operator.Kube.Client.Quiet.{Differ}
use presto_on_k8s_operator.Kube.Meta.{NamespacedName}
use presto_on_k8s_operator.Prelude.{
  ◌≡◌, refl, sym, ◌∙◌, ap, ◌≢◌, inl, inr, List, [], ◌∷◌, none, some, Option-cases, Bool-cases,
}
use presto_on_k8s_operator.Reconciler.Follows.{IsDeleting}
use presto_on_k8s_operator.Tests.Memory.{
  Server, same_key, find, remove, objects, with_objects, shown, view, memory,
}
use presto_on_k8s_operator.Tests.Memory.Laws.{
  memory_quiet, objects-with_objects, same_key_iff, find_miss,
}

module _ (k : Kind) where
  find-remove : (n : NamespacedName) (os : List (Object k)) → find k n (remove k n os) ≡ none
  unfolding find remove
  find-remove n [] = refl
  find-remove n (o ∷ os) = elim (Bool-cases (same_key (key k o) n)) [
    | inl hit ↦ rw (hit, remove) (find-remove n os)
    | inr miss ↦ rw (miss, remove) (rw (miss, find) (find-remove n os))
  ]

  find-remove_other :
      (n m : NamespacedName) (os : List (Object k)) → n ≢ m → find k m (remove k n os) ≡ find k m os
  unfolding find remove
  find-remove_other n m [] h = refl
  find-remove_other n m (o ∷ os) h = elim (Bool-cases (same_key (key k o) n)) [
    | inl hit ↦
        rw (hit, remove) (find-remove_other n m os h)
        ∙ sym (find_miss k m o os (λ e. h (sym ((same_key_iff (key k o) n).0 hit) ∙ e)))
    | inr miss ↦ elim (Bool-cases (same_key (key k o) m)) [
      | inl there ↦ rw (miss, remove) (rw (there, find) refl)
      | inr gone ↦ rw (miss, remove) (rw (gone, find) (find-remove_other n m os h))
    ]
  ]

-- A view of the objects of the kind that was changed.
view-with_objects :
    (k : Kind) (os : List (Object k)) (s : Server) (n : NamespacedName)
    → view (with_objects k os s) k n ≡ shown k (find k n os)
unfolding view
view-with_objects k os s n = ap (λ l. shown k (find k n l)) (objects-with_objects k os s)

view-removed_self :
    (k : Kind) (m n : NamespacedName) (s : Server)
    → m ≢ n
    → view (with_objects k (remove k m (objects s k)) s) k n ≡ view s k n
unfolding view
view-removed_self k m n s h =
    view-with_objects k (remove k m (objects s k)) s n
    ∙ ap (shown k) (find-remove_other k m n (objects s k) h)

view-removed_other :
    (k j : Kind) (m n : NamespacedName) (s : Server)
    → Differ k m j n
    → view (with_objects k (remove k m (objects s k)) s) j n ≡ view s j n
unfolding view
view-removed_other Kind.presto_cluster Kind.presto_cluster m n s (inl h) = absurd (h refl)
view-removed_other Kind.presto_cluster Kind.presto_cluster m n s (inr h) =
    view-removed_self Kind.presto_cluster m n s h
view-removed_other Kind.config_map Kind.config_map m n s (inl h) = absurd (h refl)
view-removed_other Kind.config_map Kind.config_map m n s (inr h) =
    view-removed_self Kind.config_map m n s h
view-removed_other Kind.deployment Kind.deployment m n s (inl h) = absurd (h refl)
view-removed_other Kind.deployment Kind.deployment m n s (inr h) =
    view-removed_self Kind.deployment m n s h
view-removed_other Kind.service Kind.service m n s (inl h) = absurd (h refl)
view-removed_other Kind.service Kind.service m n s (inr h) = view-removed_self Kind.service m n s h
view-removed_other Kind.ingress Kind.ingress m n s (inl h) = absurd (h refl)
view-removed_other Kind.ingress Kind.ingress m n s (inr h) = view-removed_self Kind.ingress m n s h
view-removed_other _ _ m n s h = refl

pub memory_delete_ok :
    (k : Kind) (o old : Object k) (s : Server)
    → view s k (key k o) ≡ some old
    → (memory.delete k o s).0 ≡ none
memory_delete_ok k o old s held = rw (held, memory) refl

pub memory_view_deleted :
    (k : Kind) (o old : Object k) (s : Server)
    → view s k (key k o) ≡ some old
    → view (memory.delete k o s).1 k (key k o) ≡ none
memory_view_deleted k o old s held =
    rw (held, memory)
      (view-with_objects k (remove k (key k o) (objects s k)) s (key k o)
        ∙ ap (shown k) (find-remove k (key k o) (objects s k)))

pub memory_view_delete_other :
    (k : Kind) (o : Object k) (s : Server) (j : Kind) (n : NamespacedName)
    → Differ k (key k o) j n
    → view (memory.delete k o s).1 j n ≡ view s j n
memory_view_delete_other k o s j n h = elim (Option-cases (view s k (key k o))) [
  | inl e ↦ rw (e, memory) refl
  | inr (old, e) ↦ rw (e, memory) (view-removed_other k j (key k o) n s h)
]

abbrev pub memory_deleting : IsDeleting memory memory_quiet
memory_deleting = record {
  delete_ok = memory_delete_ok;
  view_deleted = memory_view_deleted;
  view_delete_other = memory_view_delete_other;
}
