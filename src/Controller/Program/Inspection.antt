-- ===== src/Controller/Program/Inspection.antt =====
-- The parts of a request laid open as programs.
use presto_on_k8s_operator.Api.{PrestoCluster}
use presto_on_k8s_operator.Controller.Program.{get_object}
use presto_on_k8s_operator.Controller.Program.Opened.{
  Operations, client_of, Acts, Opened, pure-Opened, bind-Opened, if-Opened, given-Opened,
  call-Opened,
}
use presto_on_k8s_operator.Controller.Isolated.{
  BelongsTo, itself, presto_config, catalog_config, coordinator, service, worker,
}
use presto_on_k8s_operator.Desired.Keys.{
  presto_config_map_key, catalog_config_map_key, coordinator_deployment_key,
  coordinator_service_key, worker_deployment_key,
}
use presto_on_k8s_operator.Go.{Action, call}
use presto_on_k8s_operator.Inspector.{
  InspectedClusterState, nothing_inspected, inspect, inspect_part, inspect_cluster,
  inspect_config_map, inspect_coordiator_deployment, inspect_coordinator_service,
  inspect_worker_deployment, inspect_deployment,
}
use presto_on_k8s_operator.Kube.Client.{Client, Kind, Object, key}
use presto_on_k8s_operator.Kube.Meta.{NamespacedName}
use presto_on_k8s_operator.Prelude.{◌≡◌, Option, none, some, is_some, is_some-none}
use presto_on_k8s_operator.Utils.{get_presto_config_map_name, get_catalog_config_map_name}

-- What was inspected of the cluster stands under the key of the request.
abbrev pub IsAsked : NamespacedName → Option PrestoCluster → Type 0
IsAsked owner none = Unit
IsAsked owner (some c) = key Kind.presto_cluster c ≡ owner

module _ (E : Type 0) (ignore : Option E → Option E) (owner : NamespacedName) where
  abbrev cl : Operations E → Client
  cl = client_of E ignore owner

  abbrev pub Inspects : Option E × InspectedClusterState → Type 0
  Inspects (err, i) = IsAsked owner i.cluster

  inspect_part-Opened :
      {A : Type 0} (Given : Type 0) (P : A → Type 0) (reading : Acts E ignore owner (Option E × A))
      (keep : A → InspectedClusterState) (i : InspectedClusterState)
      (rest : (o : Operations E)
        → InspectedClusterState
        → Action o.State (Option E × InspectedClusterState))
      → Opened E ignore owner Given (λ (err, a). Given × ((err ≡ none) → P a)) reading
      → ((a : A) → Given → P a → IsAsked owner (keep a).cluster)
      → (Given → IsAsked owner i.cluster)
      → ((j : InspectedClusterState)
          → Opened E ignore owner (IsAsked owner j.cluster) Inspects (λ o. rest o j))
      → Opened E ignore owner Given Inspects (λ o. inspect_part (cl o) (reading o) keep i (rest o))
  unfolding inspect_part
  inspect_part-Opened Given P reading keep i rest read kept h next =
      bind-Opened E ignore owner Given _ Inspects _ _ read (λ (err, a).
        if-Opened E ignore owner _ Inspects (is_some err) _ _
          (λ _.
            if-Opened E ignore owner _ Inspects (is_some (ignore err)) _ _
              (λ _. pure-Opened E ignore owner _ Inspects (err, i) (λ p. h p.0))
              (λ _. given-Opened E ignore owner _ _ Inspects _ (λ p. h p.0) (next i)))
          (λ ok.
            given-Opened E ignore owner _ _ Inspects _ (λ p. kept a p.0 (p.1 (is_some-none err ok)))
              (next (keep a))))

  getting-Opened :
      (Given : Type 0) (k : Kind) (n : NamespacedName) (z : Object k)
      → BelongsTo owner k n
      → Opened E ignore owner Given
          (λ (err, a). Given × ((err ≡ none) → Unit {0}))
          (λ o. call (o.get k n z))
  getting-Opened Given k n z owned =
      call-Opened E ignore owner Given (get_object k n z) _ (λ _. owned)
        (λ given a keyed. (given, λ _. tt))

  pub inspect-Opened :
      Opened E ignore owner Unit Inspects (λ o. inspect (cl o) owner nothing_inspected)
  unfolding inspect inspect_cluster inspect_config_map inspect_coordiator_deployment
      inspect_coordinator_service inspect_worker_deployment inspect_deployment
      get_presto_config_map_name get_catalog_config_map_name
  inspect-Opened =
      inspect_part-Opened Unit (λ c. key Kind.presto_cluster c ≡ owner) _ _ _ _
        (call-Opened E ignore owner Unit (get_object Kind.presto_cluster owner _) _ (λ _. itself)
          (λ given a keyed. (given, keyed)))
        (λ c _ own. own) (λ _. tt)
        (λ i.
          inspect_part-Opened (IsAsked owner i.cluster) (λ _. Unit) _ _ _ _
            (getting-Opened _ Kind.config_map (catalog_config_map_key owner) _ catalog_config)
            (λ _ h _. h) (λ h. h)
            (λ i.
              inspect_part-Opened (IsAsked owner i.cluster) (λ _. Unit) _ _ _ _
                (getting-Opened _ Kind.config_map (presto_config_map_key owner) _ presto_config)
                (λ _ h _. h) (λ h. h)
                (λ i.
                  inspect_part-Opened (IsAsked owner i.cluster) (λ _. Unit) _ _ _ _
                    (getting-Opened _ Kind.deployment (coordinator_deployment_key owner) _
                      coordinator)
                    (λ _ h _. h) (λ h. h)
                    (λ i.
                      inspect_part-Opened (IsAsked owner i.cluster) (λ _. Unit) _ _ _ _
                        (getting-Opened _ Kind.service (coordinator_service_key owner) _ service)
                        (λ _ h _. h) (λ h. h)
                        (λ i.
                          inspect_part-Opened (IsAsked owner i.cluster) (λ _. Unit) _ _ _ _
                            (getting-Opened _ Kind.deployment (worker_deployment_key owner) _
                              worker)
                            (λ _ h _. h) (λ h. h)
                            (λ i.
                              pure-Opened E ignore owner (IsAsked owner i.cluster) Inspects
                                (none, i) (λ h. h)))))))
