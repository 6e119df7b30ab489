-- ===== src/Inspector/Quiet.antt =====
-- What inspection finds when nobody interferes.
use presto_on_k8s_operator.Desired.Keys.{
  presto_config_map_key, catalog_config_map_key, coordinator_deployment_key,
  coordinator_service_key, worker_deployment_key,
}
use presto_on_k8s_operator.Go.{Outcome, returns, call}
use presto_on_k8s_operator.Inspector.{
  InspectedClusterState, nothing_inspected, Reading, inspect_part, inspect, inspect_cluster,
  inspect_config_map, inspect_coordiator_deployment, inspect_coordinator_service,
  inspect_worker_deployment,
}
use presto_on_k8s_operator.Kube.Client.{Client, Kind, Object}
use presto_on_k8s_operator.Kube.Client.Quiet.{IsQuiet}
use presto_on_k8s_operator.Kube.Meta.{NamespacedName}
use presto_on_k8s_operator.Prelude.{◌≡◌, refl, Option, none, some, inl, inr, Option-cases}
use presto_on_k8s_operator.Utils.{
  get_presto_config_map_name, get_catalog_config_map_name, get_coordinator_deployment_name,
  get_coordinator_service_name, get_worker_deployment_name,
}

module _ (client : Client) (q : IsQuiet client) where
  -- What the server holds of a cluster and its children.
  abbrev pub held : NamespacedName → client.State → InspectedClusterState
  held request s = record {
    cluster = q.view s Kind.presto_cluster request;
    presto_config_map = q.view s Kind.config_map (presto_config_map_key request);
    catalog_config_map = q.view s Kind.config_map (catalog_config_map_key request);
    coordinator_deployment = q.view s Kind.deployment (coordinator_deployment_key request);
    coordinator_service = q.view s Kind.service (coordinator_service_key request);
    worker_deployment = q.view s Kind.deployment (worker_deployment_key request);
  }

  -- A part of the inspection stores what the server holds, and goes on.
  inspect_part-held :
      (k : Kind) (n : NamespacedName) (z : Object k) (keep : Object k → InspectedClusterState)
      (kept : Option (Object k) → InspectedClusterState)
      (rest : InspectedClusterState → Reading client InspectedClusterState) (s : client.State)
      {end : Outcome client.State (Option client.Error × InspectedClusterState)}
      → ((o : Object k) → keep o ≡ kept (some o))
      → rest (kept (q.view s k n)) s ≡ end
      → inspect_part client (call (client.get k n z)) keep (kept none) rest s ≡ end
  unfolding inspect_part
  inspect_part-held k n z keep kept rest s h next = elim (Option-cases (q.view s k n)) [
    | inl e ↦ rw (q.get_missing k n z s e, q.ignore_missing) (rw e at next)
    | inr (o, e) ↦ rw (q.get_found k n z o s e, h o) (rw e at next)
  ]

  -- For a quiet client, inspection returns what the server holds under the six keys, and changes
  -- nothing.
  pub inspect-held :
      (request : NamespacedName) (s : client.State)
      → inspect client request nothing_inspected s ≡ returns (none, held request s) s
  unfolding inspect inspect_cluster inspect_config_map inspect_coordiator_deployment
      inspect_coordinator_service inspect_worker_deployment get_presto_config_map_name
      get_catalog_config_map_name get_coordinator_deployment_name get_coordinator_service_name
      get_worker_deployment_name
  inspect-held request s =
      let all = held request s in
      let r₁ = record nothing_inspected { cluster = all.cluster } in
      let r₂ = record r₁ { catalog_config_map = all.catalog_config_map } in
      let r₃ = record r₂ { presto_config_map = all.presto_config_map } in
      let r₄ = record r₃ { coordinator_deployment = all.coordinator_deployment } in
      let r₅ = record r₄ { coordinator_service = all.coordinator_service } in
      inspect_part-held Kind.presto_cluster _ _ _ (λ v. record nothing_inspected { cluster = v }) _
        s (λ _. refl)
        (inspect_part-held Kind.config_map _ _ _ (λ v. record r₁ { catalog_config_map = v }) _ s
          (λ _. refl)
          (inspect_part-held Kind.config_map _ _ _ (λ v. record r₂ { presto_config_map = v }) _ s
            (λ _. refl)
            (inspect_part-held Kind.deployment _ _ _ (λ v. record r₃ { coordinator_deployment = v })
              _ s (λ _. refl)
              (inspect_part-held Kind.service _ _ _ (λ v. record r₄ { coordinator_service = v }) _ s
                (λ _. refl)
                (inspect_part-held Kind.deployment _ _ _ (λ v. record r₅ { worker_deployment = v })
                  _ s (λ _. refl) refl)))))
