-- ===== src/Controller/Returns/Parts.antt =====
-- The children and the status of a cluster whose counts are there.
use presto_on_k8s_operator.Api.{PrestoCluster, PrestoClusterStatus}
use presto_on_k8s_operator.Controller.Returns.{
  Ends, pure-Ends, call-Ends, deref_then-Ends, bind-Ends, if-Ends,
}
use presto_on_k8s_operator.Controller.Round.{coordinator_replicas, worker_replicas}
use presto_on_k8s_operator.Desired.{DesiredClusterState, get_desired_cluster_state}
use presto_on_k8s_operator.Go.{Action, call, pure, ◌>>=◌}
use presto_on_k8s_operator.Inspector.{InspectedClusterState}
use presto_on_k8s_operator.Kube.Apps.{ConfigMap, Deployment, Service, new_deployment}
use presto_on_k8s_operator.Kube.Client.{Client, Kind, Object}
use presto_on_k8s_operator.Kube.Machinery.{Machinery}
use presto_on_k8s_operator.Prelude.{
  ◌≡◌, refl, ◌∙◌, ◌⊎◌, inl, inr, ◌*◌, true, Option, none, some, is_some,
}
use presto_on_k8s_operator.Prelude.Int.{ℤ, ◌==◌}
use presto_on_k8s_operator.Reconciler.{
  ReconcileResult, no_requeue, second, Effect, reconcile_children, reconcile_config_map,
  reconcile_service, reconcile_deployment, unless_failed, create_config_map, create_service,
  create_deployment, update_deployment, delete_config_map, delete_service, delete_deployment,
  reconcile_presto_config_map, reconcile_catalog_config_map, reconcile_coordinator_deployment,
  reconcile_coordinator_service, reconcile_worker_deployment,
}
use presto_on_k8s_operator.Status.{
  update_presto_cluster_status, derive_cluster_status, current_deployment, update_cluster_status,
  record_count, requeue_unless_available,
}
use presto_on_k8s_operator.Text.{Text}
use presto_on_k8s_operator.Utils.{get_worker_deployment_name}
use presto_on_k8s_operator.Controller.Returns.Inspection.{HasWorkers, HasReplicas, HasCounts}

-- A result without a delay, or one of five seconds without an error.
abbrev pub IsPaced : {E : Type 0} → ReconcileResult × Option E → Type 0
IsPaced (result, err) =
    (result ≡ no_requeue)
    ⊎ ((result ≡ record { requeue = true; requeue_after = 5 * second }) × (err ≡ none))

pub desired-HasReplicas :
    (lib : Machinery) (o : Option PrestoCluster)
    → HasWorkers o
    → HasReplicas (get_desired_cluster_state lib o).coordinator_deployment
      × HasReplicas (get_desired_cluster_state lib o).worker_deployment
unfolding get_desired_cluster_state
desired-HasReplicas lib none h = (tt, tt)
desired-HasReplicas lib (some c) (w, asked) =
    ((_, coordinator_replicas lib c), (w, worker_replicas lib c ∙ asked))

module _ (client : Client) where
  abbrev pub Anything : {A : Type 0} → A → Type 0
  Anything _ = Unit

  pub by_cluster-Ends :
      {A : Type 0} (P : A → Type 0) (o : Option PrestoCluster) (x : Action client.State A)
      (f : PrestoCluster → Action client.State A)
      → HasWorkers o
      → Ends client.State P x
      → ((c : PrestoCluster) → HasWorkers (some c) → Ends client.State P (f c))
      → Ends client.State P (elim o [ none ↦ x | some c ↦ f c ])
  by_cluster-Ends P none x f h e g = e
  by_cluster-Ends P (some c) x f h e g = g c h

  delete-Ends :
      (k : Kind) (o : Object k)
      → Ends client.State Anything
          (do err ← call (client.delete k o); pure (client.ignore_not_found err))
  delete-Ends k o =
      bind-Ends client.State Anything Anything (call (client.delete k o)) _
        (call-Ends client.State (client.delete k o))
        (λ err _. pure-Ends client.State Anything (client.ignore_not_found err) tt)

  config_map-Ends :
      (d i : Option ConfigMap) → Ends client.State Anything (reconcile_config_map client d i)
  unfolding reconcile_config_map create_config_map delete_config_map
  config_map-Ends (some d) none = call-Ends client.State (client.create Kind.config_map d)
  config_map-Ends (some d) (some i) = pure-Ends client.State Anything none tt
  config_map-Ends none (some i) = delete-Ends Kind.config_map i
  config_map-Ends none none = pure-Ends client.State Anything none tt

  service-Ends : (d i : Option Service) → Ends client.State Anything (reconcile_service client d i)
  unfolding reconcile_service create_service delete_service
  service-Ends (some d) none = call-Ends client.State (client.create Kind.service d)
  service-Ends (some d) (some i) = pure-Ends client.State Anything none tt
  service-Ends none (some i) = delete-Ends Kind.service i
  service-Ends none none = pure-Ends client.State Anything none tt

  deployment-Ends :
      (d i : Option Deployment)
      → HasReplicas d
      → HasReplicas i
      → Ends client.State Anything (reconcile_deployment client d i)
  unfolding reconcile_deployment create_deployment update_deployment delete_deployment
  deployment-Ends (some d) none h g = call-Ends client.State (client.create Kind.deployment d)
  deployment-Ends (some d) (some i) (r, asked) (k, there) =
      deref_then-Ends client.State Anything d.spec.replicas _ r asked (
        deref_then-Ends client.State Anything i.spec.replicas _ k there (
          if-Ends client.State Anything (r == k) _ _ (λ _. pure-Ends client.State Anything none tt)
            (λ _. call-Ends client.State (client.update Kind.deployment d))))
  deployment-Ends none (some i) h g = delete-Ends Kind.deployment i
  deployment-Ends none none h g = pure-Ends client.State Anything none tt

  unless_failed-Ends :
      (i : InspectedClusterState) (d : DesiredClusterState) (step : Effect client)
      (rest : Action client.State (ReconcileResult × Option client.Error))
      → Ends client.State Anything step
      → Ends client.State Anything rest
      → Ends client.State Anything (unless_failed client i d step rest)
  unfolding unless_failed
  unless_failed-Ends i d step rest h g = bind-Ends client.State Anything Anything step _ h (λ err _.
      if-Ends client.State Anything (is_some err) _ _
        (λ _. pure-Ends client.State Anything (no_requeue, err) tt) (λ _. g))

  pub children-Ends :
      (i : InspectedClusterState) (d : DesiredClusterState)
      → HasCounts i
      → HasReplicas d.coordinator_deployment
      → HasReplicas d.worker_deployment
      → Ends client.State Anything (reconcile_children client i d)
  unfolding reconcile_children reconcile_presto_config_map reconcile_catalog_config_map
      reconcile_coordinator_deployment reconcile_coordinator_service reconcile_worker_deployment
  children-Ends i d h coordinator worker =
      by_cluster-Ends Anything i.cluster _ _ h.cluster
        (pure-Ends client.State Anything (no_requeue, none) tt)
        (λ _ _. unless_failed-Ends i d _ _ (config_map-Ends _ _) (
          unless_failed-Ends i d _ _ (config_map-Ends _ _) (
            unless_failed-Ends i d _ _ (deployment-Ends _ _ coordinator h.coordinator) (
              unless_failed-Ends i d _ _ (service-Ends _ _) (
                unless_failed-Ends i d _ _ (deployment-Ends _ _ worker h.worker)
                  (pure-Ends client.State Anything (no_requeue, none) tt))))))

  module _ (lib : Machinery) (c : PrestoCluster) (counted : HasWorkers (some c)) where
    requeue_unless_available-Ends :
        (status : PrestoClusterStatus)
        → Ends client.State IsPaced (requeue_unless_available lib client c status)
    unfolding requeue_unless_available
    requeue_unless_available-Ends status =
        deref_then-Ends client.State IsPaced c.spec.workers _ counted.0 counted.1 (
          if-Ends client.State IsPaced (status.available_workers == counted.0) _ _
            (λ _. pure-Ends client.State IsPaced (no_requeue, none) (inl refl))
            (λ _.
              pure-Ends client.State IsPaced
                (record { requeue = true; requeue_after = 5 * second }, none) (inr (refl, refl))))

    derive_cluster_status-Ends :
        (name namespace : Text)
        → Ends client.State Anything (derive_cluster_status lib client c name namespace)
    unfolding derive_cluster_status current_deployment
    derive_cluster_status-Ends name namespace =
        bind-Ends client.State Anything Anything _ _
          (call-Ends client.State (
            client.get Kind.deployment
              (record { namespace = namespace; name = get_worker_deployment_name name })
              new_deployment))
          (λ r _.
            pure-Ends client.State Anything
              (record { available_workers = r.1.status.available_replicas }) tt)

    update_cluster_status-Ends :
        (status : PrestoClusterStatus)
        → Ends client.State Anything (update_cluster_status lib client c status)
    unfolding update_cluster_status
    update_cluster_status-Ends status = call-Ends client.State (client.update_status _)

    record_count-Ends :
        (name : Text) (old new : ℤ)
        → Ends client.State Anything (record_count lib client c name old new)
    unfolding record_count
    record_count-Ends name old new = call-Ends client.State _

    pub status-Ends :
        (name namespace : Text)
        → Ends client.State IsPaced (update_presto_cluster_status lib client c name namespace)
    unfolding update_presto_cluster_status
    status-Ends name namespace =
        bind-Ends client.State Anything IsPaced _ _ (derive_cluster_status-Ends name namespace)
          (λ status _.
            if-Ends client.State IsPaced (status.available_workers == c.status.available_workers) _
              _ (λ _. requeue_unless_available-Ends status)
              (λ _.
                bind-Ends client.State Anything IsPaced _ _ (update_cluster_status-Ends status)
                  (λ err _.
                    if-Ends client.State IsPaced (is_some err) _ _
                      (λ _. pure-Ends client.State IsPaced (no_requeue, err) (inl refl))
                      (λ _.
                        bind-Ends client.State Anything IsPaced _ _
                          (record_count-Ends name c.status.available_workers
                            status.available_workers)
                          (λ u _. requeue_unless_available-Ends status)))))
