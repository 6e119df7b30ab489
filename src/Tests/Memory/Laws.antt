-- ===== src/Tests/Memory/Laws.antt =====
-- The server in memory behaves as documented while nobody interferes.
use presto_on_k8s_operator.Api.{PrestoCluster}
use presto_on_k8s_operator.Kube.Apps.{Deployment}
use presto_on_k8s_operator.Kube.Client.{Kind, Object, key}
use presto_on_k8s_operator.Kube.Client.Quiet.{IsQuiet, Differ}
use presto_on_k8s_operator.Kube.Meta.{NamespacedName, key_of}
use presto_on_k8s_operator.Prelude.{
  ◌≡◌, refl, ◌∙◌, ◌≢◌, ◌↔◌, inl, inr, true, List, [], ◌∷◌, Option, none, some, arith, subst, ap,
  Option-cases, Bool-cases,
}
use presto_on_k8s_operator.Prelude.Int.{ℤ}
use presto_on_k8s_operator.Text.{Text, ==_iff}
use presto_on_k8s_operator.Tests.Memory.{
  ApiError, Server, same_key, find, objects, with_objects, default_replicas, defaulted, created,
  updated, shown, view, put, memory,
}

pub same_key_iff : (a b : NamespacedName) → (same_key a b ≡ true) ↔ (a ≡ b)
unfolding same_key
same_key_iff a b = ground (arith, ==_iff a.namespace b.namespace, ==_iff a.name b.name)

some_eq {ℓ} : {A : Type ℓ} (a b : A) → some a ≡ some b → a ≡ b
some_eq a b h = cc

none-ne-some {ℓ} : {A : Type ℓ} (a : A) → ◌≢◌ {A = Option A} none (some a)
none-ne-some a h = cc

module _ (k : Kind) where
  find-key :
      (n : NamespacedName) (os : List (Object k)) (o : Object k)
      → find k n os ≡ some o
      → key k o ≡ n
  unfolding find
  find-key n [] o h = ground arith
  find-key n (p ∷ os) o h = elim (Bool-cases (same_key (key k p) n)) [
    | inl hit ↦
        subst (λ x. key k x ≡ n) (some_eq p o (rw (hit, find) at h))
          ((same_key_iff (key k p) n).0 hit)
    | inr miss ↦ find-key n os o (rw (miss, find) at h)
  ]

  find_hit : (o : Object k) (os : List (Object k)) → find k (key k o) (o ∷ os) ≡ some o
  unfolding find
  find_hit o os = rw ((same_key_iff (key k o) (key k o)).1 refl)

  pub find_miss :
      (n : NamespacedName) (o : Object k) (os : List (Object k))
      → key k o ≢ n
      → find k n (o ∷ os) ≡ find k n os
  unfolding find
  find_miss n o os h = elim (Bool-cases (same_key (key k o) n)) [
    | inl hit ↦ absurd (h ((same_key_iff (key k o) n).0 hit))
    | inr miss ↦ rw miss
  ]

key-created : (k : Kind) (o : Object k) → key k (created k o) ≡ key k o
key-created Kind.presto_cluster o = refl
key-created Kind.config_map o = refl
key-created Kind.deployment o = refl
key-created Kind.service o = refl
key-created Kind.ingress o = refl

pub objects-with_objects :
    (k : Kind) (os : List (Object k)) (s : Server) → objects (with_objects k os s) k ≡ os
objects-with_objects Kind.presto_cluster os s = refl
objects-with_objects Kind.config_map os s = refl
objects-with_objects Kind.deployment os s = refl
objects-with_objects Kind.service os s = refl
objects-with_objects Kind.ingress os s = refl

pub view-put_self :
    (k : Kind) (o : Object k) (s : Server) → view (put k o s) k (key k o) ≡ some (defaulted k o)
unfolding view
view-put_self k o s =
    ap (λ os. shown k (find k (key k o) os)) (objects-with_objects k (o ∷ objects s k) s)
    ∙ ap (shown k) (find_hit k o (objects s k))

view-put_miss :
    (k : Kind) (o : Object k) (s : Server) (n : NamespacedName)
    → key k o ≢ n
    → view (put k o s) k n ≡ view s k n
unfolding view
view-put_miss k o s n h =
    ap (λ os. shown k (find k n os)) (objects-with_objects k (o ∷ objects s k) s)
    ∙ ap (shown k) (find_miss k n o (objects s k) h)

pub view-put_other :
    (k j : Kind) (o : Object k) (s : Server) (n : NamespacedName)
    → Differ k (key k o) j n
    → view (put k o s) j n ≡ view s j n
unfolding view
view-put_other Kind.presto_cluster Kind.presto_cluster o s n (inl h) = absurd (h refl)
view-put_other Kind.presto_cluster Kind.presto_cluster o s n (inr h) =
    view-put_miss Kind.presto_cluster o s n h
view-put_other Kind.config_map Kind.config_map o s n (inl h) = absurd (h refl)
view-put_other Kind.config_map Kind.config_map o s n (inr h) = view-put_miss Kind.config_map o s n h
view-put_other Kind.deployment Kind.deployment o s n (inl h) = absurd (h refl)
view-put_other Kind.deployment Kind.deployment o s n (inr h) = view-put_miss Kind.deployment o s n h
view-put_other Kind.service Kind.service o s n (inl h) = absurd (h refl)
view-put_other Kind.service Kind.service o s n (inr h) = view-put_miss Kind.service o s n h
view-put_other Kind.ingress Kind.ingress o s n (inl h) = absurd (h refl)
view-put_other Kind.ingress Kind.ingress o s n (inr h) = view-put_miss Kind.ingress o s n h
view-put_other _ _ o s n h = refl

key-defaulted : (k : Kind) (o : Object k) → key k (defaulted k o) ≡ key k o
key-defaulted Kind.presto_cluster o = refl
key-defaulted Kind.config_map o = refl
key-defaulted Kind.deployment o = refl
key-defaulted Kind.service o = refl
key-defaulted Kind.ingress o = refl

pub view_key :
    (s : Server) (k : Kind) (n : NamespacedName) (o : Object k) → view s k n ≡ some o → key k o ≡ n
unfolding view
view_key s k n o h = elim (Option-cases (find k n (objects s k))) [
  | inl e ↦ absurd (none-ne-some o (rw e at h))
  | inr (p, e) ↦
      subst (λ x. key k x ≡ n) (some_eq (defaulted k p) o (rw e at h))
        (key-defaulted k p ∙ find-key k n (objects s k) p e)
]

key-updated : (k : Kind) (old o : Object k) → key k (updated k old o) ≡ key k o
key-updated Kind.presto_cluster old o = refl
key-updated Kind.config_map old o = refl
key-updated Kind.deployment old o = refl
key-updated Kind.service old o = refl
key-updated Kind.ingress old o = refl

pub kept_replicas :
    (s : Server) (n : NamespacedName) (d : Deployment)
    → view s Kind.deployment n ≡ some d
    → d.spec.replicas ≢ none
unfolding view
kept_replicas s n d h e = elim (Option-cases (find Kind.deployment n s.deployments)) [
  | inl absent ↦ ground arith
  | inr (p, found) ↦ ground arith
]

pub memory_view_created :
    (k : Kind) (o : Object k) (s : Server)
    → view s k (key k o) ≡ none
    → view (memory.create k o s).1 k (key k o) ≡ some (defaulted k (created k o))
memory_view_created k o s h =
    rw (h, memory)
      (subst (λ n. view (put k (created k o) s) k n ≡ some (defaulted k (created k o)))
        (key-created k o) (view-put_self k (created k o) s))

pub memory_view_create_other :
    (k : Kind) (o : Object k) (s : Server) (j : Kind) (n : NamespacedName)
    → Differ k (key k o) j n
    → view (memory.create k o s).1 j n ≡ view s j n
memory_view_create_other k o s j n h = elim (Option-cases (view s k (key k o))) [
  | inl e ↦ rw (e, memory) (view-put_other k j (created k o) s n (rw (key-created k o) h))
  | inr (old, e) ↦ rw (e, memory)
]

pub memory_view_updated :
    (k : Kind) (o old : Object k) (s : Server)
    → view s k (key k o) ≡ some old
    → view (memory.update k o s).1 k (key k o) ≡ some (defaulted k (updated k old o))
memory_view_updated k o old s h =
    rw (h, memory)
      (subst (λ n. view (put k (updated k old o) s) k n ≡ some (defaulted k (updated k old o)))
        (key-updated k old o) (view-put_self k (updated k old o) s))

pub memory_view_update_other :
    (k : Kind) (o : Object k) (s : Server) (j : Kind) (n : NamespacedName)
    → Differ k (key k o) j n
    → view (memory.update k o s).1 j n ≡ view s j n
memory_view_update_other k o s j n h = elim (Option-cases (view s k (key k o))) [
  | inl e ↦ rw (e, memory)
  | inr (old, e) ↦
      rw (e, memory) (view-put_other k j (updated k old o) s n (rw (key-updated k old o) h))
]

pub memory_view_status_updated :
    (c old : PrestoCluster) (s : Server)
    → view s Kind.presto_cluster (key Kind.presto_cluster c) ≡ some old
    → view (memory.update_status c s).1 Kind.presto_cluster (key Kind.presto_cluster c)
      ≡ some (record old { status = c.status })
memory_view_status_updated c old s h =
    let new = record old { status = c.status } in
    rw (h, memory)
      (subst (λ n. view (put Kind.presto_cluster new s) Kind.presto_cluster n ≡ some new)
        (view_key s Kind.presto_cluster (key_of c.metadata) old h)
        (view-put_self Kind.presto_cluster new s))

pub memory_view_status_other :
    (c : PrestoCluster) (s : Server) (j : Kind) (n : NamespacedName)
    → Differ Kind.presto_cluster (key Kind.presto_cluster c) j n
    → view (memory.update_status c s).1 j n ≡ view s j n
memory_view_status_other c s j n h =
    elim (Option-cases (view s Kind.presto_cluster (key_of c.metadata))) [
      | inl e ↦ rw (e, memory)
      | inr (old, e) ↦
          rw (e, memory)
            (view-put_other Kind.presto_cluster j (record old { status = c.status }) s n
              (rw (view_key s Kind.presto_cluster (key_of c.metadata) old e) h))
    ]

pub memory_view_event :
    (s : Server) (m : Text) (j : Kind) (n : NamespacedName)
    → view (record s { events = m ∷ s.events }) j n ≡ view s j n
unfolding view
memory_view_event s m Kind.presto_cluster n = refl
memory_view_event s m _ n = refl

pub default_replicas-some : (o : Option ℤ) (r : ℤ) → o ≡ some r → default_replicas o ≡ some r
default_replicas-some o r e = ap default_replicas e

abbrev pub memory_quiet : IsQuiet memory
memory_quiet = record {
  view = view;
  not_found = ApiError.missing;
  ignore_nil = refl;
  ignore_missing = refl;
  view_key = view_key;
  get_found = λ k n z o s e. rw (e, memory);
  get_missing = λ k n z s e. rw (e, memory);
  stored = λ k o. defaulted k (created k o);
  create_ok = λ k o s e. rw (e, memory);
  view_created = memory_view_created;
  view_create_other = memory_view_create_other;
  merged = λ k old o. defaulted k (updated k old o);
  update_ok = λ k o old s e. rw (e, memory);
  view_updated = memory_view_updated;
  view_update_other = memory_view_update_other;
  stored_replicas = λ d r e. ap default_replicas (default_replicas-some d.spec.replicas r e);
  merged_replicas = λ old d r e. ap default_replicas (default_replicas-some d.spec.replicas r e);
  kept_replicas = kept_replicas;
  update_status_ok = λ c old s e. rw (e, memory);
  view_status_updated = memory_view_status_updated;
  view_status_other = memory_view_status_other;
  view_event = λ c t r m s j n. memory_view_event s m j n;
}
