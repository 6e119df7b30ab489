-- ===== src/Controller/Isolated.antt =====
-- Two clusters do not get into each other's way.
use presto_on_k8s_operator.Api.{PrestoCluster}
use presto_on_k8s_operator.Api.DeepCopy.{HasMaps}
use presto_on_k8s_operator.Controller.{reconcile}
use presto_on_k8s_operator.Controller.Converges.{view-reconcile_other}
use presto_on_k8s_operator.Desired.Keys.{
  presto_config_map_key, catalog_config_map_key, coordinator_deployment_key,
  coordinator_service_key, worker_deployment_key,
}
use presto_on_k8s_operator.Go.{returns}
use presto_on_k8s_operator.Kube.Client.{Client, Kind}
use presto_on_k8s_operator.Kube.Client.Quiet.{IsQuiet, Differ}
use presto_on_k8s_operator.Kube.Machinery.{Machinery, IsDocumented}
use presto_on_k8s_operator.Kube.Meta.{NamespacedName}
use presto_on_k8s_operator.Prelude.{◌≡◌, sym, ◌∙◌, ap, subst, ◌≢◌, some, none, inl, inr}
use presto_on_k8s_operator.Prelude.Int.{ℤ}
use presto_on_k8s_operator.Reconciler.{ReconcileResult}
use presto_on_k8s_operator.Text.{Text}
use presto_on_k8s_operator.Utils.{get_coordinator_service_name}
use presto_on_k8s_operator.Utils.Names.{
  presto-ne-catalog, coordinator-ne-worker, child_names_injective,
}

-- What belongs to a cluster: itself and its five children.
pub data BelongsTo (owner : NamespacedName) : Kind → NamespacedName → Type 0 where
  itself : BelongsTo owner Kind.presto_cluster owner
  presto_config : BelongsTo owner Kind.config_map (presto_config_map_key owner)
  catalog_config : BelongsTo owner Kind.config_map (catalog_config_map_key owner)
  coordinator : BelongsTo owner Kind.deployment (coordinator_deployment_key owner)
  service : BelongsTo owner Kind.service (coordinator_service_key owner)
  worker : BelongsTo owner Kind.deployment (worker_deployment_key owner)

-- A key that is that of a child.
pub child-BelongsTo :
    {owner : NamespacedName} (k : Kind) (child : NamespacedName → NamespacedName)
    (m n : NamespacedName)
    → m ≡ child n
    → n ≡ owner
    → BelongsTo owner k (child owner)
    → BelongsTo owner k m
child-BelongsTo {owner} k child m n e own owned =
    subst (BelongsTo owner k) (sym (e ∙ ap child own)) owned

-- Keys that are equal belong to clusters that are equal, if equal names of children do.
same_owner :
    (child : Text → Text)
    → ((a b : Text) → child a ≡ child b → a ≡ b)
    → (m n : NamespacedName)
    → ◌≡◌ {A = NamespacedName}
        (record { namespace = m.namespace; name = child m.name })
        (record { namespace = n.namespace; name = child n.name })
    → m ≡ n
same_owner child injective m n e =
    cc (ap (λ k. k.namespace) e, injective m.name n.name (ap (λ k. k.name) e))

-- What belongs to one cluster differs from what belongs to another.
pub BelongsTo-apart :
    {request owner : NamespacedName} {j k : Kind} {m n : NamespacedName}
    → owner ≢ request
    → BelongsTo request j m
    → BelongsTo owner k n
    → Differ j m k n
unfolding get_coordinator_service_name
BelongsTo-apart differ itself itself = inr (λ e. differ (sym e))
BelongsTo-apart {request} {owner} differ presto_config presto_config =
    inr (λ e. differ (sym (same_owner _ (λ a b. (child_names_injective a b).0) request owner e)))
BelongsTo-apart {request} {owner} differ catalog_config catalog_config =
    inr (λ e. differ (sym (same_owner _ (λ a b. (child_names_injective a b).1) request owner e)))
BelongsTo-apart {request} {owner} differ coordinator coordinator =
    inr (λ e. differ (sym (same_owner _ (λ a b. (child_names_injective a b).2) request owner e)))
BelongsTo-apart {request} {owner} differ worker worker =
    inr (λ e. differ (sym (same_owner _ (λ a b. (child_names_injective a b).3) request owner e)))
BelongsTo-apart {request} {owner} differ service service =
    inr (λ e. differ (sym (same_owner _ (λ a b h. h) request owner e)))
BelongsTo-apart {request} {owner} differ presto_config catalog_config =
    inr (λ e. presto-ne-catalog request.name owner.name (ap (λ k. k.name) e))
BelongsTo-apart {request} {owner} differ catalog_config presto_config =
    inr (λ e. presto-ne-catalog owner.name request.name (ap (λ k. k.name) (sym e)))
BelongsTo-apart {request} {owner} differ coordinator worker =
    inr (λ e. coordinator-ne-worker request.name owner.name (ap (λ k. k.name) e))
BelongsTo-apart {request} {owner} differ worker coordinator =
    inr (λ e. coordinator-ne-worker owner.name request.name (ap (λ k. k.name) (sym e)))
BelongsTo-apart differ _ _ = inl (λ e. cc)

module _ (lib : Machinery) (doc : IsDocumented lib) (client : Client) (q : IsQuiet client)
    (request owner : NamespacedName) (workers : ℤ) (cluster : PrestoCluster) where
  -- For a quiet client, a request that succeeds leaves every other cluster, and the five children
  -- that belong to that cluster, as they are, whatever the clusters are called.
  pub reconcile_isolated :
      (s t : client.State) (result : ReconcileResult) (k : Kind) (n : NamespacedName)
      → owner ≢ request
      → cluster.spec.workers ≡ some workers
      → q.view s Kind.presto_cluster request ≡ some cluster
      → HasMaps cluster
      → reconcile lib client request s ≡ returns (result, none) t
      → BelongsTo owner k n
      → q.view t k n ≡ q.view s k n
  reconcile_isolated s t result k n differ asked found maps ran owned =
      view-reconcile_other lib doc client q request workers cluster asked s t result k n found maps
        ran (BelongsTo-apart differ itself owned) (BelongsTo-apart differ presto_config owned)
        (BelongsTo-apart differ catalog_config owned) (BelongsTo-apart differ coordinator owned)
        (BelongsTo-apart differ service owned) (BelongsTo-apart differ worker owned)
