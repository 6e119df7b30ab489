-- ===== src/Inspector/Errors.antt =====
-- Inspection against a client that may fail at any call, as others change the cluster: which errors
-- end it, and what it may change.
use presto_on_k8s_operator.Go.{Outcome, returns, panics, call}
use presto_on_k8s_operator.Inspector.{
  InspectedClusterState, nothing_inspected, Reading, inspect_part, inspect, inspect_cluster,
  inspect_config_map, inspect_coordiator_deployment, inspect_coordinator_service,
  inspect_worker_deployment, inspect_deployment,
}
use presto_on_k8s_operator.Kube.Client.{Client, Kind, Object}
use presto_on_k8s_operator.Kube.Meta.{NamespacedName}
use presto_on_k8s_operator.Prelude.{◌≡◌, refl, ◌⊎◌, true, false, Option, none, is_some, arith}

module _ (client : Client) where
  open client use {State, Error, ignore_not_found, get}

  abbrev Inspection : Type 0
  Inspection = Outcome State (Option Error × InspectedClusterState)

  -- What holds of each block, and at the end, holds of the inspection.
  inspect_induction :
      (P : State → Inspection → Type 0)
      → ((i : InspectedClusterState) (s : State) → P s (returns (none, i) s))
      → ((k : Kind) (n : NamespacedName) (z : Object k) (keep : Object k → InspectedClusterState)
            (i : InspectedClusterState)
            (rest : InspectedClusterState → Reading client InspectedClusterState) (s : State)
          → ((j : InspectedClusterState) (t : State) → P t (rest j t))
          → P s (inspect_part client (call (get k n z)) keep i rest s))
      → (request : NamespacedName) (s : State) → P s (inspect client request nothing_inspected s)
  unfolding inspect inspect_cluster inspect_config_map inspect_coordiator_deployment
      inspect_coordinator_service inspect_worker_deployment inspect_deployment
  inspect_induction P end block request s = block Kind.presto_cluster _ _ _ _ _ s (λ _ s.
      block Kind.config_map _ _ _ _ _ s (λ _ s. block Kind.config_map _ _ _ _ _ s (λ _ s.
        block Kind.deployment _ _ _ _ _ s (λ _ s.
          block Kind.service _ _ _ _ _ s
            (λ _ s. block Kind.deployment _ _ _ _ _ s (λ i s. end i s))))))

  -- It returns, and an error that it returns is not one that is ignored.
  abbrev pub IsSerious : State → Inspection → Type 0
  IsSerious _ (returns r _) = (is_some r.0 ≡ false) ⊎ (is_some (ignore_not_found r.0) ≡ true)
  IsSerious _ (panics _) = ⊥

  -- It returns in the state that it started from.
  abbrev pub IsReading : State → Inspection → Type 0
  IsReading s (returns _ t) = t ≡ s
  IsReading _ (panics _) = ⊥

  -- If reading changes nothing, then inspection changes nothing, whatever it finds or fails at.
  pub inspect-IsReading :
      ((k : Kind) (n : NamespacedName) (z : Object k) (s : State) → (get k n z s).1 ≡ s)
      → (request : NamespacedName) (s : State)
      → IsReading s (inspect client request nothing_inspected s)
  unfolding inspect_part
  inspect-IsReading reads =
      inspect_induction IsReading (λ i s. refl)
        (λ k n z keep i rest s h.
          ground (arith, reads k n z s, h i s, h (keep (get k n z s).0.1) s))
