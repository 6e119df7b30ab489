-- ===== src/Reconciler/Alike.antt =====
-- Steps of the reconciler from two states that hold the same.
use presto_on_k8s_operator.Kube.Apps.{Deployment}
use presto_on_k8s_operator.Kube.Client.{Client, Kind, Object, key}
use presto_on_k8s_operator.Kube.Client.Quiet.{IsQuiet, Differ}
use presto_on_k8s_operator.Kube.Meta.{NamespacedName}
use presto_on_k8s_operator.Prelude.{
  ◌≡◌, refl, sym, ◌∙◌, ap, subst, ◌≢◌, ◌⊎◌, inl, inr, Option, none, some, or_else, if◌then◌else◌,
  arith, Option-cases, Bool-cases, ◌&&◌,
}
use presto_on_k8s_operator.Prelude.Int.{ℤ, ◌==◌}
use presto_on_k8s_operator.Reconciler.Plan.{ensure, scale, view-ensure_other, view-scale_other}
use presto_on_k8s_operator.Text.{◌==◌ as text_eq, ==_iff}

-- Two keys are the same or not, and so are two kinds.
pub same_or_not : (m n : NamespacedName) → (m ≡ n) ⊎ (m ≢ n)
same_or_not m n = elim (Bool-cases (text_eq m.namespace n.namespace && text_eq m.name n.name)) [
  | inl same ↦ inl (ground (arith, ==_iff m.namespace n.namespace, ==_iff m.name n.name))
  | inr other ↦ inr (λ e. ground (arith, e, ==_iff m.namespace n.namespace, ==_iff m.name n.name))
]

same_kind_or_not : (j k : Kind) → (j ≡ k) ⊎ (j ≢ k)
same_kind_or_not Kind.presto_cluster Kind.presto_cluster = inl refl
same_kind_or_not Kind.config_map Kind.config_map = inl refl
same_kind_or_not Kind.deployment Kind.deployment = inl refl
same_kind_or_not Kind.service Kind.service = inl refl
same_kind_or_not Kind.ingress Kind.ingress = inl refl
same_kind_or_not _ _ = inr (λ e. cc)

-- Two references are the same or differ.
pub same_or_apart :
    (j : Kind) (m : NamespacedName) (k : Kind) (n : NamespacedName)
    → ((j ≡ k) × (m ≡ n)) ⊎ Differ j m k n
same_or_apart j m k n = elim (same_kind_or_not j k) [
  | inr other ↦ inr (inl other)
  | inl same ↦ elim (same_or_not m n) [ inr other ↦ inr (inr other) | inl also ↦ inl (same, also) ]
]

module _ (client : Client) (q : IsQuiet client) where
  -- The two states hold the same under a reference.
  abbrev pub Alike : client.State → client.State → Kind → NamespacedName → Type 0
  Alike s t k n = q.view s k n ≡ q.view t k n

  -- A change of one object, which depends on that object alone.
  changed-Alike :
      (change : client.State → client.State) (k : Kind) (n : NamespacedName) (s t : client.State)
      → Alike (change s) (change t) k n
      → ((u : client.State) (j : Kind) (m : NamespacedName)
          → Differ k n j m
          → q.view (change u) j m ≡ q.view u j m)
      → (j : Kind) (m : NamespacedName) → Alike s t j m
      → Alike (change s) (change t) j m
  changed-Alike change k n s t own others j m same = elim (same_or_apart k n j m) [
    | inr differ ↦ others s j m differ ∙ same ∙ sym (others t j m differ)
    | inl (kinds, keys) ↦
        subst (λ i. Alike (change s) (change t) i m) kinds
          (subst (λ l. Alike (change s) (change t) k l) keys own)
  ]

  -- What is held of an object after the step that ensures it.
  ensure_own :
      (k : Kind) (o : Object k) (s : client.State)
      → q.view (ensure client q k o s) k (key k o)
        ≡ or_else (q.view s k (key k o)) (some (q.stored k o))
  unfolding ensure
  ensure_own k o s = elim (Option-cases (q.view s k (key k o))) [
    | inl e ↦ rw (e, ensure) (q.view_created k o s e)
    | inr (old, e) ↦ rw (e, ensure) e
  ]

  ensure_own-Alike :
      (k : Kind) (o : Object k) (s t : client.State)
      → Alike s t k (key k o)
      → Alike (ensure client q k o s) (ensure client q k o t) k (key k o)
  ensure_own-Alike k o s t same =
      ensure_own k o s ∙ ap (λ v. or_else v (some (q.stored k o))) same ∙ sym (ensure_own k o t)

  pub ensure-Alike :
      (k : Kind) (o : Object k) (s t : client.State)
      → Alike s t k (key k o)
      → (j : Kind) (m : NamespacedName) → Alike s t j m
      → Alike (ensure client q k o s) (ensure client q k o t) j m
  ensure-Alike k o s t same =
      changed-Alike (ensure client q k o) k (key k o) s t (ensure_own-Alike k o s t same)
        (λ u j m differ. view-ensure_other client q k o u j m differ)

  -- What is held of a deployment after the step that scales it.
  abbrev scaled : Deployment → ℤ → Option Deployment → Option Deployment
  scaled d r none = some (q.stored Kind.deployment d)
  scaled d r (some old) = elim old.spec.replicas [
    | none ↦ some old
    | some k ↦ if r == k then some old else some (q.merged Kind.deployment old d)
  ]

  scale_own :
      (d : Deployment) (r : ℤ) (s : client.State)
      → q.view (scale client q d r s) Kind.deployment (key Kind.deployment d)
        ≡ scaled d r (q.view s Kind.deployment (key Kind.deployment d))
  unfolding scale
  scale_own d r s = elim (Option-cases (q.view s Kind.deployment (key Kind.deployment d))) [
    | inl e ↦ rw (e, scale) (q.view_created Kind.deployment d s e)
    | inr (old, e) ↦ elim (Option-cases old.spec.replicas) [
      | inl nil ↦ ground (arith, e, nil)
      | inr (k, has) ↦ ground (arith, e, has, q.view_updated Kind.deployment d old s e)
    ]
  ]

  scale_own-Alike :
      (d : Deployment) (r : ℤ) (s t : client.State)
      → Alike s t Kind.deployment (key Kind.deployment d)
      → Alike (scale client q d r s) (scale client q d r t) Kind.deployment (key Kind.deployment d)
  scale_own-Alike d r s t same = scale_own d r s ∙ ap (scaled d r) same ∙ sym (scale_own d r t)

  pub scale-Alike :
      (d : Deployment) (r : ℤ) (s t : client.State)
      → Alike s t Kind.deployment (key Kind.deployment d)
      → (j : Kind) (m : NamespacedName) → Alike s t j m
      → Alike (scale client q d r s) (scale client q d r t) j m
  scale-Alike d r s t same =
      changed-Alike (scale client q d r) Kind.deployment (key Kind.deployment d) s t
        (scale_own-Alike d r s t same) (λ u j m differ. view-scale_other client q d r u j m differ)
