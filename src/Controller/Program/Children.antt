-- ===== src/Controller/Program/Children.antt =====
-- The steps of the reconciler laid open as programs.
use presto_on_k8s_operator.Api.{PrestoCluster}
use presto_on_k8s_operator.Controller.Program.Inspection.{IsAsked}
use presto_on_k8s_operator.Controller.Program.{create_object, update_object}
use presto_on_k8s_operator.Controller.Program.Opened.{
  Operations, client_of, Acts, Opened, pure-Opened, bind-Opened, deref_then-Opened, if-Opened,
  call-Opened,
}
use presto_on_k8s_operator.Controller.Isolated.{
  BelongsTo, child-BelongsTo, presto_config, catalog_config, coordinator, service, worker,
}
use presto_on_k8s_operator.Desired.{get_desired_cluster_state}
use presto_on_k8s_operator.Desired.Keys.{
  presto_config_map_key, catalog_config_map_key, coordinator_deployment_key,
  coordinator_service_key, worker_deployment_key, desired_keys,
}
use presto_on_k8s_operator.Go.{call, pure}
use presto_on_k8s_operator.Desired.{DesiredClusterState}
use presto_on_k8s_operator.Inspector.{InspectedClusterState}
use presto_on_k8s_operator.Kube.Apps.{ConfigMap, Deployment, Service}
use presto_on_k8s_operator.Kube.Client.{Client, Kind, Object, key}
use presto_on_k8s_operator.Kube.Machinery.{Machinery, IsDocumented}
use presto_on_k8s_operator.Kube.Meta.{NamespacedName, key_of}
use presto_on_k8s_operator.Prelude.{
  ◌≡◌, sym, subst, Option, none, some, is_some, Option-cases, inl, inr,
}
use presto_on_k8s_operator.Prelude.Int.{◌==◌}
use presto_on_k8s_operator.Reconciler.{
  ReconcileResult, no_requeue, reconcile_children, reconcile_config_map, reconcile_service,
  reconcile_deployment, unless_failed, create_config_map, create_service, create_deployment,
  update_deployment, reconcile_presto_config_map, reconcile_catalog_config_map,
  reconcile_coordinator_deployment, reconcile_coordinator_service, reconcile_worker_deployment,
}

module _ (E : Type 0) (ignore : Option E → Option E) (owner : NamespacedName) where
  abbrev cl : Operations E → Client
  cl = client_of E ignore owner

  -- What is given stays given.
  abbrev pub Opening : {A : Type 0} → Type 0 → Acts E ignore owner A → Type 1
  Opening Given m = Opened E ignore owner Given (λ _. Given) m

  pub returning-Opened : {A : Type 0} (Given : Type 0) (a : A) → Opening Given (λ o. pure a)
  returning-Opened Given a = pure-Opened E ignore owner Given (λ _. Given) a (λ given. given)

  creating-Opened :
      (Given : Type 0) (k : Kind) (o : Object k)
      → (Given → BelongsTo owner k (key k o))
      → Opening Given (λ v. call (v.create k o))
  creating-Opened Given k o owned =
      call-Opened E ignore owner Given (create_object k o) _ owned (λ given a keyed. given)

  reconcile_config_map-Opened :
      (Given : Type 0) (d : ConfigMap) (i : Option ConfigMap)
      → (Given → BelongsTo owner Kind.config_map (key Kind.config_map d))
      → Opening Given (λ o. reconcile_config_map (cl o) (some d) i)
  unfolding reconcile_config_map create_config_map
  reconcile_config_map-Opened Given d none owned = creating-Opened Given Kind.config_map d owned
  reconcile_config_map-Opened Given d (some i) owned = returning-Opened Given none

  reconcile_service-Opened :
      (Given : Type 0) (d : Service) (i : Option Service)
      → (Given → BelongsTo owner Kind.service (key Kind.service d))
      → Opening Given (λ o. reconcile_service (cl o) (some d) i)
  unfolding reconcile_service create_service
  reconcile_service-Opened Given d none owned = creating-Opened Given Kind.service d owned
  reconcile_service-Opened Given d (some i) owned = returning-Opened Given none

  reconcile_deployment-Opened :
      (Given : Type 0) (d : Deployment) (i : Option Deployment)
      → (Given → BelongsTo owner Kind.deployment (key Kind.deployment d))
      → Opening Given (λ o. reconcile_deployment (cl o) (some d) i)
  unfolding reconcile_deployment create_deployment update_deployment
  reconcile_deployment-Opened Given d none owned = creating-Opened Given Kind.deployment d owned
  reconcile_deployment-Opened Given d (some i) owned =
      deref_then-Opened E ignore owner Given _ d.spec.replicas _ (λ want.
        deref_then-Opened E ignore owner Given _ i.spec.replicas _ (λ have.
          if-Opened E ignore owner Given _ (want == have) _ _ (λ _. returning-Opened Given none)
            (λ _.
              call-Opened E ignore owner Given (update_object Kind.deployment d) _ owned
                (λ given a keyed. given))))

  unless_failed-Opened :
      (Given : Type 0) (i : InspectedClusterState) (w : DesiredClusterState)
      (step : Acts E ignore owner (Option E))
      (rest : Acts E ignore owner (ReconcileResult × Option E))
      → Opening Given step
      → Opening Given rest
      → Opening Given (λ o. unless_failed (cl o) i w (step o) (rest o))
  unfolding unless_failed
  unless_failed-Opened Given i w step rest h g =
      bind-Opened E ignore owner Given (λ _. Given) (λ _. Given) _ _ h
        (λ err.
          if-Opened E ignore owner Given _ (is_some err) _ _
            (λ _. returning-Opened Given (no_requeue, err)) (λ _. g))

  -- The desired children belong to the cluster of the request.
  steps-Opened :
      (lib : Machinery) (doc : IsDocumented lib) (i : InspectedClusterState) (c : PrestoCluster)
      → i.cluster ≡ some c
      → Opening
          (key_of c.metadata ≡ owner)
          (λ o. reconcile_children (cl o) i (get_desired_cluster_state lib i.cluster))
  unfolding reconcile_children reconcile_presto_config_map reconcile_catalog_config_map
      reconcile_coordinator_deployment reconcile_coordinator_service reconcile_worker_deployment
      get_desired_cluster_state
  steps-Opened lib doc i c found =
      let keys = desired_keys lib doc c in
      rw found (
        unless_failed-Opened _ _ _ _ _
          (reconcile_config_map-Opened _ _ i.presto_config_map (λ own.
            child-BelongsTo Kind.config_map presto_config_map_key _ _ keys.0 own presto_config))
          (unless_failed-Opened _ _ _ _ _
            (reconcile_config_map-Opened _ _ i.catalog_config_map (λ own.
              child-BelongsTo Kind.config_map catalog_config_map_key _ _ keys.1 own catalog_config))
            (unless_failed-Opened _ _ _ _ _
              (reconcile_deployment-Opened _ _ i.coordinator_deployment (λ own.
                child-BelongsTo Kind.deployment coordinator_deployment_key _ _ keys.2 own
                  coordinator))
              (unless_failed-Opened _ _ _ _ _
                (reconcile_service-Opened _ _ i.coordinator_service (λ own.
                  child-BelongsTo Kind.service coordinator_service_key _ _ keys.3 own service))
                (unless_failed-Opened _ _ _ _ _
                  (reconcile_deployment-Opened _ _ i.worker_deployment (λ own.
                    child-BelongsTo Kind.deployment worker_deployment_key _ _ keys.4 own worker))
                  (returning-Opened _ (no_requeue, none)))))))

  nothing-Opened :
      (lib : Machinery) (i : InspectedClusterState) (Given : Type 0)
      → i.cluster ≡ none
      → Opening Given (λ o. reconcile_children (cl o) i (get_desired_cluster_state lib i.cluster))
  unfolding reconcile_children
  nothing-Opened lib i Given absent = rw absent (returning-Opened Given (no_requeue, none))

  pub reconcile_children-Opened :
      (lib : Machinery) (doc : IsDocumented lib) (i : InspectedClusterState)
      → Opening
          (IsAsked owner i.cluster)
          (λ o. reconcile_children (cl o) i (get_desired_cluster_state lib i.cluster))
  reconcile_children-Opened lib doc i = elim (Option-cases i.cluster) [
    | inl absent ↦ nothing-Opened lib i _ absent
    | inr (c, found) ↦
        subst
          (λ o.
            Opening (IsAsked owner o)
              (λ o. reconcile_children (cl o) i (get_desired_cluster_state lib i.cluster)))
          (sym found) (steps-Opened lib doc i c found)
  ]
