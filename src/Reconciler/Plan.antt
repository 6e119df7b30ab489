-- ===== src/Reconciler/Plan.antt =====
-- What the steps of the reconciler do when nobody interferes, as functions on states.
use presto_on_k8s_operator.Go.{returns}
use presto_on_k8s_operator.Kube.Apps.{ConfigMap, Deployment, Service}
use presto_on_k8s_operator.Kube.Client.{Client, Kind, Object, key}
use presto_on_k8s_operator.Kube.Client.Quiet.{IsQuiet, Differ}
use presto_on_k8s_operator.Kube.Meta.{NamespacedName}
use presto_on_k8s_operator.Prelude.{
  ◌≡◌, ◌≢◌, none, some, inl, inr, Option-cases, Bool-cases, arith, if◌then◌else◌,
}
use presto_on_k8s_operator.Prelude.Int.{ℤ, ◌==◌, ==_iff}
use presto_on_k8s_operator.Reconciler.{
  create_config_map, create_deployment, create_service, update_deployment, reconcile_config_map,
  reconcile_deployment, reconcile_service,
}

module _ (client : Client) (q : IsQuiet client) where
  -- An object that is missing is created.
  unfoldable pub ensure : (k : Kind) → Object k → client.State → client.State
  ensure k o s = elim (q.view s k (key k o)) [ none ↦ (client.create k o s).1 | some _ ↦ s ]

  -- A deployment that runs another count of replicas is updated.
  unfoldable pub scale : Deployment → ℤ → client.State → client.State
  scale d r s = elim (q.view s Kind.deployment (key Kind.deployment d)) [
    | none ↦ (client.create Kind.deployment d s).1
    | some old ↦ elim old.spec.replicas [
      | none ↦ s
      | some r' ↦ if r == r' then s else (client.update Kind.deployment d s).1
    ]
  ]

  pub view-ensure_other :
      (k : Kind) (o : Object k) (s : client.State) (j : Kind) (n : NamespacedName)
      → Differ k (key k o) j n
      → q.view (ensure k o s) j n ≡ q.view s j n
  unfolding ensure
  view-ensure_other k o s j n h = elim (Option-cases (q.view s k (key k o))) [
    | inl e ↦ rw (e, ensure) (q.view_create_other k o s j n h)
    | inr (old, e) ↦ rw (e, ensure)
  ]

  pub view-scale_other :
      (d : Deployment) (r : ℤ) (s : client.State) (j : Kind) (n : NamespacedName)
      → Differ Kind.deployment (key Kind.deployment d) j n
      → q.view (scale d r s) j n ≡ q.view s j n
  unfolding scale
  view-scale_other d r s j n h = ground (
    arith,
    q.view_create_other Kind.deployment d s j n h,
    q.view_update_other Kind.deployment d s j n h,
  )

  -- Afterwards the object is there.
  pub view-ensure :
      (k : Kind) (o : Object k) (s : client.State) → q.view (ensure k o s) k (key k o) ≢ none
  unfolding ensure
  view-ensure k o s = elim (Option-cases (q.view s k (key k o))) [
    | inl e ↦ rw (e, ensure) (rw (q.view_created k o s e) (λ x. cc))
    | inr (old, e) ↦ rw (e, ensure) (rw e (λ x. cc))
  ]

  -- Afterwards the deployment is there, with the count that was asked for.
  pub view-scale :
      (d : Deployment) (r : ℤ) (s : client.State)
      → d.spec.replicas ≡ some r
      → (now : Deployment) × (q.view (scale d r s) Kind.deployment (key Kind.deployment d)
          ≡ some now)
        × (now.spec.replicas ≡ some r)
  unfolding scale
  view-scale d r s h = elim (Option-cases (q.view s Kind.deployment (key Kind.deployment d))) [
    | inl e ↦ (
      q.stored Kind.deployment d,
      rw (e, scale) (q.view_created Kind.deployment d s e),
      q.stored_replicas d r h,
    )
    | inr (old, e) ↦ elim (Option-cases old.spec.replicas) [
      | inl nil ↦ absurd (q.kept_replicas s _ old e nil)
      | inr (r', has) ↦ elim (Bool-cases (r == r')) [
        | inl same ↦ (old, ground arith, ground (arith, ==_iff r r'))
        | inr differs ↦ (
          q.merged Kind.deployment old d,
          ground (arith, q.view_updated Kind.deployment d old s e),
          q.merged_replicas old d r h,
        )
      ]
    ]
  ]

  -- A step that found the object, or missed it, in the state it acts on.
  pub reconcile_config_map-ensure :
      (o : ConfigMap) (s : client.State)
      → reconcile_config_map client (some o) (q.view s Kind.config_map (key Kind.config_map o)) s
        ≡ returns none (ensure Kind.config_map o s)
  unfolding reconcile_config_map create_config_map ensure
  reconcile_config_map-ensure o s = ground (arith, q.create_ok Kind.config_map o s)

  pub reconcile_service-ensure :
      (o : Service) (s : client.State)
      → reconcile_service client (some o) (q.view s Kind.service (key Kind.service o)) s
        ≡ returns none (ensure Kind.service o s)
  unfolding reconcile_service create_service ensure
  reconcile_service-ensure o s = ground (arith, q.create_ok Kind.service o s)

  pub reconcile_deployment-scale :
      (d : Deployment) (r : ℤ) (s : client.State)
      → d.spec.replicas ≡ some r
      → reconcile_deployment client (some d) (q.view s Kind.deployment (key Kind.deployment d)) s
        ≡ returns none (scale d r s)
  unfolding reconcile_deployment create_deployment update_deployment scale
  reconcile_deployment-scale d r s h =
      elim (Option-cases (q.view s Kind.deployment (key Kind.deployment d))) [
        | inl e ↦ ground (arith, q.create_ok Kind.deployment d s e)
        | inr (old, e) ↦ ground (
          arith,
          q.kept_replicas s (key Kind.deployment d) old e,
          q.update_ok Kind.deployment d old s e,
        )
      ]

  -- Once an object is there, the step changes nothing.
  pub ensure_present :
      (k : Kind) (o : Object k) (s : client.State) → q.view s k (key k o) ≢ none → ensure k o s ≡ s
  unfolding ensure
  ensure_present k o s h = elim (Option-cases (q.view s k (key k o))) [
    | inl e ↦ absurd (h e)
    | inr (old, e) ↦ rw (e, ensure)
  ]

  pub scale_scaled :
      (d now : Deployment) (r : ℤ) (s : client.State)
      → q.view s Kind.deployment (key Kind.deployment d) ≡ some now
      → now.spec.replicas ≡ some r
      → scale d r s ≡ s
  unfolding scale
  scale_scaled d now r s e h = ground (arith, ==_iff r r)
