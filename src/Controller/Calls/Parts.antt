-- ===== src/Controller/Calls/Parts.antt =====
-- The calls of the parts of a request.
use presto_on_k8s_operator.Api.{PrestoCluster, PrestoClusterStatus}
use presto_on_k8s_operator.Controller.Calls.{
  Call, getting, creating, updating, deleting, updating_status, recording_event, tracing,
}
use presto_on_k8s_operator.Controller.Calls.Emits.{
  Emits, pure-Emits, deref_then-Emits, call-Emits, bind-Emits, if-Emits,
}
use presto_on_k8s_operator.Controller.Calls.Permitted.{
  getting-permitted, creating-permitted, updating-permitted, deleting-permitted,
  updating_status-permitted, recording_event-permitted,
}
use presto_on_k8s_operator.Desired.{DesiredClusterState}
use presto_on_k8s_operator.Go.{Action, call, pure, ◌>>=◌}
use presto_on_k8s_operator.Inspector.{
  InspectedClusterState, nothing_inspected, Reading, inspect, inspect_part, inspect_cluster,
  inspect_config_map, inspect_coordiator_deployment, inspect_coordinator_service,
  inspect_worker_deployment, inspect_deployment,
}
use presto_on_k8s_operator.Kube.Apps.{ConfigMap, Deployment, Service, new_deployment}
use presto_on_k8s_operator.Kube.Client.{Client, Kind, Object}
use presto_on_k8s_operator.Kube.Machinery.{Machinery}
use presto_on_k8s_operator.Kube.Meta.{NamespacedName}
use presto_on_k8s_operator.Prelude.{ℕ, ◌+◌, refl, Option, none, some, is_some, List}
use presto_on_k8s_operator.Prelude.Int.{ℤ, ◌==◌}
use presto_on_k8s_operator.Reconciler.{
  ReconcileResult, no_requeue, Effect, reconcile_children, reconcile_config_map, reconcile_service,
  reconcile_deployment, unless_failed, create_config_map, create_service, create_deployment,
  update_deployment, delete_config_map, delete_service, delete_deployment,
  reconcile_presto_config_map, reconcile_catalog_config_map, reconcile_coordinator_deployment,
  reconcile_coordinator_service, reconcile_worker_deployment,
}
use presto_on_k8s_operator.Status.{
  update_presto_cluster_status, derive_cluster_status, current_deployment, update_cluster_status,
  record_count, requeue_unless_available,
}
use presto_on_k8s_operator.Text.{Text}
use presto_on_k8s_operator.Utils.{get_worker_deployment_name}

module _ (client : Client) where
  getting-Emits :
      (k : Kind) (n : NamespacedName) (z : Object k)
      → Emits client.State 1 (call ((tracing client).get k n z))
  getting-Emits k n z = call-Emits client.State _ (getting k) (λ s. refl) (getting-permitted k)

  creating-Emits :
      (k : Kind) (o : Object k) → Emits client.State 1 (call ((tracing client).create k o))
  creating-Emits k o = call-Emits client.State _ (creating k) (λ s. refl) (creating-permitted k)

  updating-Emits :
      (k : Kind) (o : Object k) → Emits client.State 1 (call ((tracing client).update k o))
  updating-Emits k o = call-Emits client.State _ (updating k) (λ s. refl) (updating-permitted k)

  deleting-Emits :
      (k : Kind) (o : Object k) → Emits client.State 1 (call ((tracing client).delete k o))
  deleting-Emits k o = call-Emits client.State _ (deleting k) (λ s. refl) (deleting-permitted k)

  inspect_part-Emits :
      {A : Type 0} (k : ℕ) (reading : Reading (tracing client) A) (keep : A → InspectedClusterState)
      (i : InspectedClusterState)
      (rest : InspectedClusterState → Reading (tracing client) InspectedClusterState)
      → Emits client.State 1 reading
      → ((j : InspectedClusterState) → Emits client.State k (rest j))
      → Emits client.State (1 + k) (inspect_part (tracing client) reading keep i rest)
  unfolding inspect_part
  inspect_part-Emits k reading keep i rest h g =
      bind-Emits client.State 1 k reading _ h (λ (err, found).
        if-Emits client.State k (is_some err) _ _
          (if-Emits client.State k (is_some ((tracing client).ignore_not_found err)) _ _
            (pure-Emits client.State k (err, i)) (g i))
          (g (keep found)))

  pub inspect-Emits :
      (request : NamespacedName)
      → Emits client.State 6 (inspect (tracing client) request nothing_inspected)
  unfolding inspect inspect_cluster inspect_config_map inspect_coordiator_deployment
      inspect_coordinator_service inspect_worker_deployment inspect_deployment
  inspect-Emits request = inspect_part-Emits 5 _ _ _ _ (getting-Emits Kind.presto_cluster _ _) (λ i.
      inspect_part-Emits 4 _ _ _ _ (getting-Emits Kind.config_map _ _) (λ i.
        inspect_part-Emits 3 _ _ _ _ (getting-Emits Kind.config_map _ _) (λ i.
          inspect_part-Emits 2 _ _ _ _ (getting-Emits Kind.deployment _ _) (λ i.
            inspect_part-Emits 1 _ _ _ _ (getting-Emits Kind.service _ _) (λ i.
              inspect_part-Emits 0 _ _ _ _ (getting-Emits Kind.deployment _ _)
                (λ i. pure-Emits client.State 0 (none, i)))))))

  delete-Emits :
      (k : Kind) (o : Object k)
      → Emits client.State 1 (do
        err ← call ((tracing client).delete k o)
        pure ((tracing client).ignore_not_found err))
  delete-Emits k o =
      bind-Emits client.State 1 0 _ _ (deleting-Emits k o)
        (λ err. pure-Emits client.State 0 ((tracing client).ignore_not_found err))

  reconcile_config_map-Emits :
      (d i : Option ConfigMap) → Emits client.State 1 (reconcile_config_map (tracing client) d i)
  unfolding reconcile_config_map create_config_map delete_config_map
  reconcile_config_map-Emits (some d) none = creating-Emits Kind.config_map d
  reconcile_config_map-Emits (some d) (some i) = pure-Emits client.State 1 none
  reconcile_config_map-Emits none (some i) = delete-Emits Kind.config_map i
  reconcile_config_map-Emits none none = pure-Emits client.State 1 none

  reconcile_service-Emits :
      (d i : Option Service) → Emits client.State 1 (reconcile_service (tracing client) d i)
  unfolding reconcile_service create_service delete_service
  reconcile_service-Emits (some d) none = creating-Emits Kind.service d
  reconcile_service-Emits (some d) (some i) = pure-Emits client.State 1 none
  reconcile_service-Emits none (some i) = delete-Emits Kind.service i
  reconcile_service-Emits none none = pure-Emits client.State 1 none

  reconcile_deployment-Emits :
      (d i : Option Deployment) → Emits client.State 1 (reconcile_deployment (tracing client) d i)
  unfolding reconcile_deployment create_deployment update_deployment delete_deployment
  reconcile_deployment-Emits (some d) none = creating-Emits Kind.deployment d
  reconcile_deployment-Emits (some d) (some i) =
      deref_then-Emits client.State 1 d.spec.replicas _ (λ want.
        deref_then-Emits client.State 1 i.spec.replicas _ (λ have.
          if-Emits client.State 1 (want == have) _ _ (pure-Emits client.State 1 none)
            (updating-Emits Kind.deployment d)))
  reconcile_deployment-Emits none (some i) = delete-Emits Kind.deployment i
  reconcile_deployment-Emits none none = pure-Emits client.State 1 none

  pub by_cluster-Emits :
      {A : Type 0} (k : ℕ) (o : Option PrestoCluster) (x : Action (client.State × List Call) A)
      (f : PrestoCluster → Action (client.State × List Call) A)
      → Emits client.State k x
      → ((c : PrestoCluster) → Emits client.State k (f c))
      → Emits client.State k (elim o [ none ↦ x | some c ↦ f c ])
  by_cluster-Emits k none x f h g = h
  by_cluster-Emits k (some c) x f h g = g c

  module _ (i : InspectedClusterState) (w : DesiredClusterState) where
    unless_failed-Emits :
        (k : ℕ) (step : Effect (tracing client))
        (rest : Action (client.State × List Call) (ReconcileResult × Option client.Error))
        → Emits client.State 1 step
        → Emits client.State k rest
        → Emits client.State (1 + k) (unless_failed (tracing client) i w step rest)
    unfolding unless_failed
    unless_failed-Emits k step rest h g = bind-Emits client.State 1 k step _ h (λ err.
        if-Emits client.State k (is_some err) _ _ (pure-Emits client.State k (no_requeue, err)) g)

    pub reconcile_children-Emits : Emits client.State 5 (reconcile_children (tracing client) i w)
    unfolding reconcile_children reconcile_presto_config_map reconcile_catalog_config_map
        reconcile_coordinator_deployment reconcile_coordinator_service reconcile_worker_deployment
    reconcile_children-Emits =
        by_cluster-Emits 5 i.cluster _ _ (pure-Emits client.State 5 (no_requeue, none)) (λ _.
          unless_failed-Emits 4 _ _ (reconcile_config_map-Emits _ _) (
            unless_failed-Emits 3 _ _ (reconcile_config_map-Emits _ _) (
              unless_failed-Emits 2 _ _ (reconcile_deployment-Emits _ _) (
                unless_failed-Emits 1 _ _ (reconcile_service-Emits _ _) (
                  unless_failed-Emits 0 _ _ (reconcile_deployment-Emits _ _)
                    (pure-Emits client.State 0 (no_requeue, none)))))))

  module _ (lib : Machinery) (c : PrestoCluster) where
    requeue_unless_available-Emits :
        (k : ℕ) (status : PrestoClusterStatus)
        → Emits client.State k (requeue_unless_available lib (tracing client) c status)
    unfolding requeue_unless_available
    requeue_unless_available-Emits k status =
        deref_then-Emits client.State k c.spec.workers _ (λ workers.
          if-Emits client.State k (status.available_workers == workers) _ _
            (pure-Emits client.State k _) (pure-Emits client.State k _))

    derive_cluster_status-Emits :
        (name namespace : Text)
        → Emits client.State 1 (derive_cluster_status lib (tracing client) c name namespace)
    unfolding derive_cluster_status current_deployment
    derive_cluster_status-Emits name namespace =
        bind-Emits client.State 1 0 _ _
          (getting-Emits Kind.deployment
            (record { namespace = namespace; name = get_worker_deployment_name name })
            new_deployment)
          (λ r.
            pure-Emits client.State 0
              (record { available_workers = r.1.status.available_replicas }))

    update_cluster_status-Emits :
        (status : PrestoClusterStatus)
        → Emits client.State 1 (update_cluster_status lib (tracing client) c status)
    unfolding update_cluster_status
    update_cluster_status-Emits status =
        call-Emits client.State _ updating_status (λ s. refl) updating_status-permitted

    record_count-Emits :
        (name : Text) (old new : ℤ)
        → Emits client.State 1 (record_count lib (tracing client) c name old new)
    unfolding record_count
    record_count-Emits name old new =
        call-Emits client.State _ recording_event (λ s. refl) recording_event-permitted

    pub update_presto_cluster_status-Emits :
        (name namespace : Text)
        → Emits client.State 3 (update_presto_cluster_status lib (tracing client) c name namespace)
    unfolding update_presto_cluster_status
    update_presto_cluster_status-Emits name namespace =
        bind-Emits client.State 1 2 _ _ (derive_cluster_status-Emits name namespace) (λ status.
          if-Emits client.State 2 (status.available_workers == c.status.available_workers) _ _
            (requeue_unless_available-Emits 2 status)
            (bind-Emits client.State 1 1 _ _ (update_cluster_status-Emits status) (λ err.
              if-Emits client.State 1 (is_some err) _ _
                (pure-Emits client.State 1 (no_requeue, err))
                (bind-Emits client.State 1 0 _ _
                  (record_count-Emits name c.status.available_workers status.available_workers)
                  (λ u. requeue_unless_available-Emits 0 status)))))
