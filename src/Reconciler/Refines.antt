-- ===== src/Reconciler/Refines.antt =====
-- The reconciler does the five steps, and reports no error.
use presto_on_k8s_operator.Desired.{DesiredClusterState}
use presto_on_k8s_operator.Go.{Action, Outcome, returns}
use presto_on_k8s_operator.Inspector.Quiet.{held}
use presto_on_k8s_operator.Inspector.{InspectedClusterState}
use presto_on_k8s_operator.Api.{PrestoCluster}
use presto_on_k8s_operator.Kube.Client.{Client, Kind}
use presto_on_k8s_operator.Kube.Client.Quiet.{IsQuiet}
use presto_on_k8s_operator.Kube.Meta.{NamespacedName}
use presto_on_k8s_operator.Prelude.{◌≡◌, refl, Option, none, some, arith}
use presto_on_k8s_operator.Prelude.Int.{ℤ, pos}
use presto_on_k8s_operator.Reconciler.{
  ReconcileResult, no_requeue, Effect, unless_failed, reconcile_children,
  reconcile_presto_config_map, reconcile_catalog_config_map, reconcile_coordinator_deployment,
  reconcile_coordinator_service, reconcile_worker_deployment,
}
use presto_on_k8s_operator.Reconciler.Children.{
  Children, after_presto, after_catalog, after_coordinator, after_service, after_children,
  catalog_before, coordinator_before, service_before, worker_before,
}
use presto_on_k8s_operator.Reconciler.Plan.{
  reconcile_config_map-ensure, reconcile_service-ensure, reconcile_deployment-scale,
}

module _ (client : Client) (q : IsQuiet client) (request : NamespacedName) (workers : ℤ)
    (c : Children request workers) where
  -- The desired state that holds these objects.
  abbrev pub wanted : DesiredClusterState
  wanted = record {
    coordinator_deployment = some c.coordinator;
    worker_deployment = some c.worker;
    coordinator_service = some c.service;
    presto_config_map = some c.presto;
    catalog_config_map = some c.catalog;
    job = none;
  }

  then_next :
      (i : InspectedClusterState) (step : Effect client)
      (rest : Action client.State (ReconcileResult × Option client.Error)) (s t : client.State)
      {end : Outcome client.State (ReconcileResult × Option client.Error)}
      → step s ≡ returns none t
      → rest t ≡ end
      → unless_failed client i wanted step rest s ≡ end
  unfolding unless_failed
  then_next i step rest s t h next = ground arith

  -- With the server's own objects as the inspected state, the reconciler performs the five steps.
  pub reconcile_children-after :
      (s : client.State) (cluster : PrestoCluster)
      → q.view s Kind.presto_cluster request ≡ some cluster
      → reconcile_children client (held client q request s) wanted s
        ≡ returns (no_requeue, none) (after_children client q request workers c s)
  unfolding reconcile_children reconcile_presto_config_map reconcile_catalog_config_map
      reconcile_coordinator_deployment reconcile_coordinator_service reconcile_worker_deployment
      after_children
  reconcile_children-after s cluster found = rw found (
      then_next _ _ _ s (after_presto client q request workers c s)
        (rw (← c.presto_key) (reconcile_config_map-ensure client q c.presto s))
        (then_next _ _ _ _ (after_catalog client q request workers c s)
          (rw (← c.catalog_key, ← catalog_before client q request workers c s)
            (reconcile_config_map-ensure client q c.catalog _))
          (then_next _ _ _ _ (after_coordinator client q request workers c s)
            (rw (← c.coordinator_key, ← coordinator_before client q request workers c s)
              (reconcile_deployment-scale client q c.coordinator (pos 1) _ c.coordinator_count))
            (then_next _ _ _ _ (after_service client q request workers c s)
              (rw (← c.service_key, ← service_before client q request workers c s)
                (reconcile_service-ensure client q c.service _))
              (then_next _ _ _ _ (after_children client q request workers c s)
                (rw (← c.worker_key, ← worker_before client q request workers c s)
                  (reconcile_deployment-scale client q c.worker workers _ c.worker_count))
                refl)))))
