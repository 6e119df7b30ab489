-- ===== src/Controller/Deletes.antt =====
-- A request deletes nothing: what a client's `Delete` does has no influence on it.
use presto_on_k8s_operator.Api.{PrestoCluster}
use presto_on_k8s_operator.Controller.{reconcile}
use presto_on_k8s_operator.Desired.{DesiredClusterState, get_desired_cluster_state}
use presto_on_k8s_operator.Go.{Outcome-cases, Action}
use presto_on_k8s_operator.Inspector.{
  InspectedClusterState, inspect, nothing_inspected, inspect_part, inspect_cluster,
  inspect_config_map, inspect_coordiator_deployment, inspect_coordinator_service,
  inspect_worker_deployment, inspect_deployment,
}
use presto_on_k8s_operator.Kube.Apps.{ConfigMap, Deployment, Service}
use presto_on_k8s_operator.Kube.Client.{Client, Kind, Object}
use presto_on_k8s_operator.Kube.Machinery.{Machinery}
use presto_on_k8s_operator.Kube.Meta.{NamespacedName}
use presto_on_k8s_operator.Prelude.{◌≡◌, refl, Option, none, some, arith, inl, inr, Option-cases}
use presto_on_k8s_operator.Reconciler.{
  Effect, ReconcileResult, reconcile_children, reconcile_config_map, reconcile_service,
  reconcile_deployment, unless_failed, create_config_map, create_service, create_deployment,
  update_deployment, reconcile_presto_config_map, reconcile_catalog_config_map,
  reconcile_coordinator_deployment, reconcile_coordinator_service, reconcile_worker_deployment,
}
use presto_on_k8s_operator.Status.{
  update_presto_cluster_status, derive_cluster_status, current_deployment, update_cluster_status,
  record_count, requeue_unless_available,
}

module _ (client : Client)
    (d : (k : Kind) → Object k → client.State → Option client.Error × client.State) where
  -- The client with another `Delete`.
  abbrev pub deleting : Client
  deleting = record client { delete = d }

  reconcile_config_map-deleting :
      (o : ConfigMap) (i : Option ConfigMap) (s : client.State)
      → reconcile_config_map deleting (some o) i s ≡ reconcile_config_map client (some o) i s
  unfolding reconcile_config_map create_config_map
  reconcile_config_map-deleting o none s = refl
  reconcile_config_map-deleting o (some i) s = refl

  reconcile_service-deleting :
      (o : Service) (i : Option Service) (s : client.State)
      → reconcile_service deleting (some o) i s ≡ reconcile_service client (some o) i s
  unfolding reconcile_service create_service
  reconcile_service-deleting o none s = refl
  reconcile_service-deleting o (some i) s = refl

  reconcile_deployment-deleting :
      (o : Deployment) (i : Option Deployment) (s : client.State)
      → reconcile_deployment deleting (some o) i s ≡ reconcile_deployment client (some o) i s
  unfolding reconcile_deployment create_deployment update_deployment
  reconcile_deployment-deleting o none s = refl
  reconcile_deployment-deleting o (some i) s = refl

  inspect-deleting :
      (request : NamespacedName) (s : client.State)
      → inspect deleting request nothing_inspected s ≡ inspect client request nothing_inspected s
  unfolding inspect inspect_part inspect_cluster inspect_config_map inspect_coordiator_deployment
      inspect_coordinator_service inspect_worker_deployment inspect_deployment
  inspect-deleting request s = refl

  update_presto_cluster_status-deleting :
      (lib : Machinery) (cluster : PrestoCluster) (request : NamespacedName) (s : client.State)
      → update_presto_cluster_status lib deleting cluster request.name request.namespace s
        ≡ update_presto_cluster_status lib client cluster request.name request.namespace s
  unfolding update_presto_cluster_status derive_cluster_status current_deployment
      update_cluster_status record_count requeue_unless_available
  update_presto_cluster_status-deleting lib cluster request s = refl

  module _ (i : InspectedClusterState) (w : DesiredClusterState) where
    unless_failed-deleting :
        (step step' : Effect client)
        (rest rest' : Action client.State (ReconcileResult × Option client.Error))
        → ((s : client.State) → step s ≡ step' s)
        → ((s : client.State) → rest s ≡ rest' s)
        → (s : client.State)
        → unless_failed deleting i w step rest s ≡ unless_failed client i w step' rest' s
    unfolding unless_failed
    unless_failed-deleting step step' rest rest' h g s = elim (Outcome-cases (step' s)) [
      | inl (e, t, ran) ↦ ground (arith, h s, g t)
      | inr (t, died) ↦ ground (arith, h s)
    ]

  reconcile_children-deleting :
      (lib : Machinery) (i : InspectedClusterState) (s : client.State)
      → reconcile_children deleting i (get_desired_cluster_state lib i.cluster) s
        ≡ reconcile_children client i (get_desired_cluster_state lib i.cluster) s
  unfolding reconcile_children reconcile_presto_config_map reconcile_catalog_config_map
      reconcile_coordinator_deployment reconcile_coordinator_service reconcile_worker_deployment
      get_desired_cluster_state
  reconcile_children-deleting lib i s = elim (Option-cases i.cluster) [
    | inl absent ↦ rw absent
    | inr (c, found) ↦ rw found (
        unless_failed-deleting _ _ _ _ _ _ (reconcile_config_map-deleting _ i.presto_config_map)
          (unless_failed-deleting _ _ _ _ _ _ (reconcile_config_map-deleting _ i.catalog_config_map)
            (unless_failed-deleting _ _ _ _ _ _
              (reconcile_deployment-deleting _ i.coordinator_deployment)
              (unless_failed-deleting _ _ _ _ _ _
                (reconcile_service-deleting _ i.coordinator_service)
                (unless_failed-deleting _ _ _ _ _ _
                  (reconcile_deployment-deleting _ i.worker_deployment) (λ s. refl)))))
          s)
  ]

  -- For every client, a request behaves the same whatever `Delete` does: the operator itself never
  -- deletes a child.
  pub reconcile_deletes_nothing :
      (lib : Machinery) (request : NamespacedName) (s : client.State)
      → reconcile lib deleting request s ≡ reconcile lib client request s
  unfolding reconcile
  reconcile_deletes_nothing lib request s =
      elim (Outcome-cases (inspect client request nothing_inspected s)) [
        | inr (t, died) ↦ ground (arith, inspect-deleting request s)
        | inl ((some e, i), t, read) ↦ ground (arith, inspect-deleting request s)
        | inl ((none, i), t, read) ↦
            elim (Outcome-cases
              (reconcile_children client i (get_desired_cluster_state lib i.cluster) t)) [
                | inr (u, died) ↦
                    ground (arith, inspect-deleting request s, reconcile_children-deleting lib i t)
                | inl (_, u, acted) ↦ elim (Option-cases i.cluster) [
                  | inl absent ↦
                      ground
                        (arith, inspect-deleting request s, reconcile_children-deleting lib i t)
                  | inr (c, found) ↦ ground (
                    arith,
                    inspect-deleting request s,
                    reconcile_children-deleting lib i t,
                    update_presto_cluster_status-deleting lib c request u,
                  )
                ]
              ]
      ]
