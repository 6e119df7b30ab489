-- ===== src/Controller/Writes/Kept.antt =====
-- The parts of a request that write, one by one: their writes are for the cluster.
use presto_on_k8s_operator.Api.{PrestoCluster, PrestoClusterStatus}
use presto_on_k8s_operator.Desired.{DesiredClusterState, get_desired_cluster_state}
use presto_on_k8s_operator.Go.{Outcome, Action, returns, panics, final, call, deref, pure, ◌>>=◌}
use presto_on_k8s_operator.Inspector.{InspectedClusterState}
use presto_on_k8s_operator.Kube.Apps.{ConfigMap, Deployment, Service}
use presto_on_k8s_operator.Kube.Client.{Client, Kind}
use presto_on_k8s_operator.Kube.Machinery.{Machinery}
use presto_on_k8s_operator.Prelude.{
  ◌≡◌, refl, Option, none, some, is_some, List, ◌∷◌, if◌then◌else◌, Bool, true, false,
}
use presto_on_k8s_operator.Prelude.Int.{◌==◌}
use presto_on_k8s_operator.Text.{Text}
use presto_on_k8s_operator.Reconciler.{
  ReconcileResult, no_requeue, Effect, reconcile_children, reconcile_config_map, reconcile_service,
  reconcile_deployment, unless_failed, create_config_map, create_service, create_deployment,
  update_deployment, reconcile_presto_config_map, reconcile_catalog_config_map,
  reconcile_coordinator_deployment, reconcile_coordinator_service, reconcile_worker_deployment,
}
use presto_on_k8s_operator.Status.{
  update_presto_cluster_status, derive_cluster_status, current_deployment, update_cluster_status,
  record_count, requeue_unless_available,
}
use presto_on_k8s_operator.Controller.Writes.{
  Write, creating, updating, recording, IsFor, created_config, created_catalog, created_coordinator,
  created_service, created_worker, updated_coordinator, updated_worker, wrote_status, Recorded,
}

module _ (lib : Machinery) (client : Client) where
  module _ (c : PrestoCluster) where
    -- An action that keeps it so.
    unfoldable pub Keeps : {A : Type 0} → Action (client.State × List Write) A → Type 0
    Keeps m =
        (s : client.State × List Write)
        → Recorded lib client c s
        → Recorded lib client c (final (m s))

    -- The ways in which actions are put together keep it so.
    pub bind-Keeps :
        {A B : Type 0} (m : Action (client.State × List Write) A)
        (f : A → Action (client.State × List Write) B)
        → Keeps m
        → ((a : A) → Keeps (f a))
        → Keeps (m >>= f)
    unfolding Keeps
    bind-Keeps {A} {B} m f h g s r = go (m s) (h s r)
      where
        go :
            (o : Outcome (client.State × List Write) A)
            → Recorded lib client c (final o)
            → Recorded lib client c (final (elim o [ returns a t ↦ f a t | panics t ↦ panics t ]))
        go (returns a t) k = g a t k
        go (panics t) k = k

    pub if-Keeps :
        {A : Type 0} (b : Bool) (x y : Action (client.State × List Write) A)
        → Keeps x
        → Keeps y
        → Keeps (if b then x else y)
    unfolding Keeps
    if-Keeps true x y h k = h
    if-Keeps false x y h k = k

    deref-Keeps : {A : Type 0} (o : Option A) → Keeps {A = A} (deref o)
    unfolding Keeps
    deref-Keeps none s r = r
    deref-Keeps (some a) s r = r

    pub pure-Keeps : {A : Type 0} (a : A) → Keeps (pure a)
    unfolding Keeps
    pure-Keeps a s r = r

    -- A call that records nothing, and one that records a write for the cluster.
    call-Keeps :
        {A : Type 0} (f : client.State × List Write → A × (client.State × List Write))
        → ((s : client.State × List Write) → (f s).1.1 ≡ s.1)
        → Keeps (call f)
    unfolding Keeps
    call-Keeps f same s r = rw (same s) r

    call_recorded-Keeps :
        {A : Type 0} (f : client.State × List Write → A × (client.State × List Write)) (w : Write)
        → IsFor lib client c w
        → ((s : client.State × List Write) → (f s).1.1 ≡ w ∷ s.1)
        → Keeps (call f)
    unfolding Keeps
    call_recorded-Keeps f w h same s r = rw (same s) (h, r)

    reconcile_config_map-Keeps :
        (o : ConfigMap) (i : Option ConfigMap)
        → IsFor lib client c (creating Kind.config_map o)
        → Keeps (reconcile_config_map (recording client) (some o) i)
    unfolding reconcile_config_map create_config_map
    reconcile_config_map-Keeps o none h = call_recorded-Keeps _ _ h (λ s. refl)
    reconcile_config_map-Keeps o (some i) h = pure-Keeps _

    reconcile_service-Keeps :
        (o : Service) (i : Option Service)
        → IsFor lib client c (creating Kind.service o)
        → Keeps (reconcile_service (recording client) (some o) i)
    unfolding reconcile_service create_service
    reconcile_service-Keeps o none h = call_recorded-Keeps _ _ h (λ s. refl)
    reconcile_service-Keeps o (some i) h = pure-Keeps _

    reconcile_deployment-Keeps :
        (o : Deployment) (i : Option Deployment)
        → IsFor lib client c (creating Kind.deployment o)
        → IsFor lib client c (updating Kind.deployment o)
        → Keeps (reconcile_deployment (recording client) (some o) i)
    unfolding reconcile_deployment create_deployment update_deployment
    reconcile_deployment-Keeps o none h u = call_recorded-Keeps _ _ h (λ s. refl)
    reconcile_deployment-Keeps o (some i) h u =
        bind-Keeps _ _ (deref-Keeps o.spec.replicas) (λ want.
          bind-Keeps _ _ (deref-Keeps i.spec.replicas) (λ have.
            if-Keeps (want == have) _ _ (pure-Keeps _) (call_recorded-Keeps _ _ u (λ s. refl))))

    unless_failed-Keeps :
        (i : InspectedClusterState) (w : DesiredClusterState) (step : Effect (recording client))
        (rest : Action (client.State × List Write) (ReconcileResult × Option client.Error))
        → Keeps step
        → Keeps rest
        → Keeps (unless_failed (recording client) i w step rest)
    unfolding unless_failed
    unless_failed-Keeps i w step rest h g =
        bind-Keeps step _ h (λ err. if-Keeps (is_some err) _ _ (pure-Keeps _) g)

    with_cluster-Keeps :
        {A : Type 0} (o : Option PrestoCluster) (x y : Action (client.State × List Write) A)
        → Keeps x
        → Keeps y
        → Keeps (elim o [ none ↦ x | some _ ↦ y ])
    with_cluster-Keeps none x y h k = h
    with_cluster-Keeps (some d) x y h k = k

    pub reconcile_children-Keeps :
        (i : InspectedClusterState)
        → Keeps (reconcile_children (recording client) i (get_desired_cluster_state lib (some c)))
    unfolding reconcile_children reconcile_presto_config_map reconcile_catalog_config_map
        reconcile_coordinator_deployment reconcile_coordinator_service reconcile_worker_deployment
        get_desired_cluster_state
    reconcile_children-Keeps i =
        let w = get_desired_cluster_state lib (some c) in
        with_cluster-Keeps i.cluster _ _ (pure-Keeps _) (
          unless_failed-Keeps i w _ _
            (reconcile_config_map-Keeps _ i.presto_config_map created_config)
            (unless_failed-Keeps i w _ _
              (reconcile_config_map-Keeps _ i.catalog_config_map created_catalog)
              (unless_failed-Keeps i w _ _
                (reconcile_deployment-Keeps _ i.coordinator_deployment created_coordinator
                  updated_coordinator)
                (unless_failed-Keeps i w _ _
                  (reconcile_service-Keeps _ i.coordinator_service created_service)
                  (unless_failed-Keeps i w _ _
                    (reconcile_deployment-Keeps _ i.worker_deployment created_worker updated_worker)
                    (pure-Keeps _))))))

    requeue_unless_available-Keeps :
        (status : PrestoClusterStatus)
        → Keeps (requeue_unless_available lib (recording client) c status)
    unfolding requeue_unless_available
    requeue_unless_available-Keeps status = bind-Keeps _ _ (deref-Keeps c.spec.workers) (λ workers.
        if-Keeps (status.available_workers == workers) _ _ (pure-Keeps _) (pure-Keeps _))

    derive_cluster_status-Keeps :
        (name namespace : Text)
        → Keeps (derive_cluster_status lib (recording client) c name namespace)
    unfolding Keeps derive_cluster_status current_deployment
    derive_cluster_status-Keeps name namespace s r = r

    pub update_presto_cluster_status-Keeps :
        (name namespace : Text)
        → Keeps (update_presto_cluster_status lib (recording client) c name namespace)
    unfolding update_presto_cluster_status derive_cluster_status current_deployment
        update_cluster_status record_count requeue_unless_available
    update_presto_cluster_status-Keeps name namespace =
        bind-Keeps (derive_cluster_status lib (recording client) c name namespace) _
          (derive_cluster_status-Keeps name namespace)
          (λ status.
            if-Keeps (status.available_workers == c.status.available_workers) _ _
              (requeue_unless_available-Keeps status)
              (bind-Keeps (update_cluster_status lib (recording client) c status) _
                (call_recorded-Keeps _ _ (wrote_status status) (λ s. refl))
                (λ err. if-Keeps (is_some err) _ _ (pure-Keeps (no_requeue, err)) (
                  bind-Keeps
                    (record_count lib (recording client) c name c.status.available_workers
                      status.available_workers)
                    _ (call-Keeps _ (λ s. refl)) (λ _. requeue_unless_available-Keeps status)))))
