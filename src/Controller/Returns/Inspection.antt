-- ===== src/Controller/Returns/Inspection.antt =====
-- Inspection returns, and keeps objects with their counts.
use presto_on_k8s_operator.Api.{PrestoCluster}
use presto_on_k8s_operator.Controller.Returns.{Ends, pure-Ends, if-Ends}
use presto_on_k8s_operator.Go.{call}
use presto_on_k8s_operator.Inspector.{
  InspectedClusterState, nothing_inspected, Reading, inspect, inspect_part, inspect_cluster,
  inspect_config_map, inspect_coordiator_deployment, inspect_coordinator_service,
  inspect_worker_deployment, inspect_deployment,
}
use presto_on_k8s_operator.Kube.Apps.{Deployment}
use presto_on_k8s_operator.Kube.Client.{Client, Kind, Object}
use presto_on_k8s_operator.Kube.Meta.{NamespacedName}
use presto_on_k8s_operator.Prelude.{◌≡◌, Option, none, some, is_some, is_some-none}
use presto_on_k8s_operator.Prelude.Int.{ℤ}

-- A cluster without an error has a count of workers, and a deployment one of replicas: the custom
-- resource definition requires the one, and the server fills in the other.
pub record ReadsCounts (client : Client) : Type 0 where
  pub workers :
      (n : NamespacedName) (z : PrestoCluster) (s : client.State)
      → (client.get Kind.presto_cluster n z s).0.0 ≡ none
      → (w : ℤ) × ((client.get Kind.presto_cluster n z s).0.1.spec.workers ≡ some w)
  pub replicas :
      (n : NamespacedName) (z : Deployment) (s : client.State)
      → (client.get Kind.deployment n z s).0.0 ≡ none
      → (r : ℤ) × ((client.get Kind.deployment n z s).0.1.spec.replicas ≡ some r)

abbrev pub HasWorkers : Option PrestoCluster → Type 0
HasWorkers none = Unit
HasWorkers (some c) = (w : ℤ) × (c.spec.workers ≡ some w)

abbrev pub HasReplicas : Option Deployment → Type 0
HasReplicas none = Unit
HasReplicas (some d) = (r : ℤ) × (d.spec.replicas ≡ some r)

-- What was inspected has its counts.
pub record HasCounts (i : InspectedClusterState) : Type 0 where
  pub cluster : HasWorkers i.cluster
  pub coordinator : HasReplicas i.coordinator_deployment
  pub worker : HasReplicas i.worker_deployment

counts_kept :
    {i : InspectedClusterState}
    → HasWorkers i.cluster
    → HasReplicas i.coordinator_deployment
    → HasReplicas i.worker_deployment
    → HasCounts i
counts_kept c d e = record { cluster = c; coordinator = d; worker = e }

module _ (client : Client) (reads : ReadsCounts client) where
  abbrev pub Inspects : Option client.Error × InspectedClusterState → Type 0
  Inspects (_, i) = HasCounts i

  inspect_part-Ends :
      (k : Kind) (n : NamespacedName) (z : Object k) (keep : Object k → InspectedClusterState)
      (i : InspectedClusterState)
      (rest : InspectedClusterState → Reading client InspectedClusterState)
      → HasCounts i
      → ((s : client.State)
          → (client.get k n z s).0.0 ≡ none
          → HasCounts (keep (client.get k n z s).0.1))
      → ((j : InspectedClusterState) → HasCounts j → Ends client.State Inspects (rest j))
      → Ends client.State Inspects (inspect_part client (call (client.get k n z)) keep i rest)
  unfolding inspect_part Ends
  inspect_part-Ends k n z keep i rest old new next s =
      let ((err, found), t) = client.get k n z s in
      if-Ends client.State Inspects (is_some err) _ _
        (λ failed.
          if-Ends client.State Inspects (is_some (client.ignore_not_found err)) _ _
            (λ serious. pure-Ends client.State Inspects (err, i) old) (λ ignored. next i old))
        (λ ok. next (keep found) (new s (is_some-none err ok))) t

  pub inspect-Ends :
      (request : NamespacedName)
      → Ends client.State Inspects (inspect client request nothing_inspected)
  unfolding inspect inspect_cluster inspect_config_map inspect_coordiator_deployment
      inspect_coordinator_service inspect_worker_deployment inspect_deployment
  inspect-Ends request =
      inspect_part-Ends Kind.presto_cluster _ _ _ _ _ (counts_kept tt tt tt)
        (λ s ok. counts_kept (reads.workers _ _ s ok) tt tt)
        (λ i h.
          inspect_part-Ends Kind.config_map _ _ _ _ _ h
            (λ s ok. counts_kept h.cluster h.coordinator h.worker)
            (λ i h.
              inspect_part-Ends Kind.config_map _ _ _ _ _ h
                (λ s ok. counts_kept h.cluster h.coordinator h.worker)
                (λ i h.
                  inspect_part-Ends Kind.deployment _ _ _ _ _ h
                    (λ s ok. counts_kept h.cluster (reads.replicas _ _ s ok) h.worker)
                    (λ i h.
                      inspect_part-Ends Kind.service _ _ _ _ _ h
                        (λ s ok. counts_kept h.cluster h.coordinator h.worker)
                        (λ i h.
                          inspect_part-Ends Kind.deployment _ _ _ _ _ h
                            (λ s ok. counts_kept h.cluster h.coordinator (reads.replicas _ _ s ok))
                            (λ i h. pure-Ends client.State Inspects (none, i) h))))))
