-- ===== src/Reconciler/Children.antt =====
-- The five steps of the reconciler in a row, when nobody interferes.
use presto_on_k8s_operator.Desired.Keys.{
  presto_config_map_key, catalog_config_map_key, coordinator_deployment_key,
  coordinator_service_key, worker_deployment_key,
}
use presto_on_k8s_operator.Kube.Apps.{ConfigMap, Deployment, Service}
use presto_on_k8s_operator.Kube.Client.{Client, Kind}
use presto_on_k8s_operator.Kube.Client.Quiet.{IsQuiet, Differ}
use presto_on_k8s_operator.Kube.Meta.{NamespacedName, key_of}
use presto_on_k8s_operator.Prelude.{◌≡◌, sym, ◌∙◌, ap, ◌≢◌, some, inl, inr}
use presto_on_k8s_operator.Prelude.Int.{ℤ, pos}
use presto_on_k8s_operator.Reconciler.Plan.{ensure, scale, view-ensure_other, view-scale_other}
use presto_on_k8s_operator.Utils.Names.{presto-ne-catalog, coordinator-ne-worker}

-- The objects that a cluster should have, under the keys of its children.
pub record Children (request : NamespacedName) (workers : ℤ) : Type 0 where
  pub presto : ConfigMap
  pub catalog : ConfigMap
  pub coordinator : Deployment
  pub service : Service
  pub worker : Deployment
  pub presto_key : key_of presto.metadata ≡ presto_config_map_key request
  pub catalog_key : key_of catalog.metadata ≡ catalog_config_map_key request
  pub coordinator_key : key_of coordinator.metadata ≡ coordinator_deployment_key request
  pub service_key : key_of service.metadata ≡ coordinator_service_key request
  pub worker_key : key_of worker.metadata ≡ worker_deployment_key request
  pub coordinator_count : coordinator.spec.replicas ≡ some (pos 1)
  pub worker_count : worker.spec.replicas ≡ some workers

module _ (client : Client) (q : IsQuiet client) (request : NamespacedName) (workers : ℤ)
    (c : Children request workers) where
  -- The states after one, two, three, four and all five steps.
  abbrev pub after_presto : client.State → client.State
  after_presto s = ensure client q Kind.config_map c.presto s

  abbrev pub after_catalog : client.State → client.State
  after_catalog s = ensure client q Kind.config_map c.catalog (after_presto s)

  abbrev pub after_coordinator : client.State → client.State
  after_coordinator s = scale client q c.coordinator (pos 1) (after_catalog s)

  abbrev pub after_service : client.State → client.State
  after_service s = ensure client q Kind.service c.service (after_coordinator s)

  unfoldable pub after_children : client.State → client.State
  after_children s = scale client q c.worker workers (after_service s)

  pub presto_ne_catalog : key_of c.presto.metadata ≢ key_of c.catalog.metadata
  presto_ne_catalog e =
      presto-ne-catalog request.name request.name
        (ap (λ n. n.name) (sym c.presto_key ∙ e ∙ c.catalog_key))

  pub coordinator_ne_worker : key_of c.coordinator.metadata ≢ key_of c.worker.metadata
  coordinator_ne_worker e =
      coordinator-ne-worker request.name request.name
        (ap (λ n. n.name) (sym c.coordinator_key ∙ e ∙ c.worker_key))

  -- An object that is none of the five is left alone.
  pub view-after_children_other :
      (s : client.State) (j : Kind) (n : NamespacedName)
      → Differ Kind.config_map (presto_config_map_key request) j n
      → Differ Kind.config_map (catalog_config_map_key request) j n
      → Differ Kind.deployment (coordinator_deployment_key request) j n
      → Differ Kind.service (coordinator_service_key request) j n
      → Differ Kind.deployment (worker_deployment_key request) j n
      → q.view (after_children s) j n ≡ q.view s j n
  unfolding after_children
  view-after_children_other s j n p k d v w =
      view-scale_other client q c.worker workers _ j n (rw c.worker_key w)
      ∙ view-ensure_other client q Kind.service c.service _ j n (rw c.service_key v)
      ∙ view-scale_other client q c.coordinator (pos 1) _ j n (rw c.coordinator_key d)
      ∙ view-ensure_other client q Kind.config_map c.catalog _ j n (rw c.catalog_key k)
      ∙ view-ensure_other client q Kind.config_map c.presto s j n (rw c.presto_key p)

  -- What each step finds is what the server held at first.
  pub catalog_before :
      (s : client.State)
      → q.view (after_presto s) Kind.config_map (key_of c.catalog.metadata)
        ≡ q.view s Kind.config_map (key_of c.catalog.metadata)
  catalog_before s =
      view-ensure_other client q Kind.config_map c.presto s Kind.config_map _
        (inr presto_ne_catalog)

  pub coordinator_before :
      (s : client.State)
      → q.view (after_catalog s) Kind.deployment (key_of c.coordinator.metadata)
        ≡ q.view s Kind.deployment (key_of c.coordinator.metadata)
  coordinator_before s =
      view-ensure_other client q Kind.config_map c.catalog _ Kind.deployment _ (inl (λ e. cc))
      ∙ view-ensure_other client q Kind.config_map c.presto s Kind.deployment _ (inl (λ e. cc))

  pub service_before :
      (s : client.State)
      → q.view (after_coordinator s) Kind.service (key_of c.service.metadata)
        ≡ q.view s Kind.service (key_of c.service.metadata)
  service_before s =
      view-scale_other client q c.coordinator (pos 1) _ Kind.service _ (inl (λ e. cc))
      ∙ view-ensure_other client q Kind.config_map c.catalog _ Kind.service _ (inl (λ e. cc))
      ∙ view-ensure_other client q Kind.config_map c.presto s Kind.service _ (inl (λ e. cc))

  pub worker_before :
      (s : client.State)
      → q.view (after_service s) Kind.deployment (key_of c.worker.metadata)
        ≡ q.view s Kind.deployment (key_of c.worker.metadata)
  worker_before s =
      view-ensure_other client q Kind.service c.service _ Kind.deployment _ (inl (λ e. cc))
      ∙ view-scale_other client q c.coordinator (pos 1) _ Kind.deployment _
          (inr coordinator_ne_worker)
      ∙ view-ensure_other client q Kind.config_map c.catalog _ Kind.deployment _ (inl (λ e. cc))
      ∙ view-ensure_other client q Kind.config_map c.presto s Kind.deployment _ (inl (λ e. cc))
