-- ===== src/Controller/Writes/Request.antt =====
-- A whole request: all of its writes are for the cluster that it read first.
use presto_on_k8s_operator.Api.{PrestoCluster, new_presto_cluster}
use presto_on_k8s_operator.Controller.{reconcile}
use presto_on_k8s_operator.Desired.{get_desired_cluster_state}
use presto_on_k8s_operator.Go.{Outcome, Action, returns, panics, final, call}
use presto_on_k8s_operator.Inspector.{
  InspectedClusterState, nothing_inspected, Reading, inspect, inspect_part, inspect_cluster,
  inspect_config_map, inspect_coordiator_deployment, inspect_coordinator_service,
  inspect_worker_deployment, inspect_deployment,
}
use presto_on_k8s_operator.Kube.Client.{Client, Kind, Object}
use presto_on_k8s_operator.Kube.Machinery.{Machinery}
use presto_on_k8s_operator.Kube.Meta.{NamespacedName}
use presto_on_k8s_operator.Prelude.{
  ◌≡◌, refl, sym, subst, ◌≢◌, ◌⊎◌, inl, inr, Option, none, some, is_some, List, [], Option-cases,
}
use presto_on_k8s_operator.Reconciler.{no_requeue, reconcile_children}
use presto_on_k8s_operator.Controller.Writes.{Write, recording, Recorded}
use presto_on_k8s_operator.Controller.Writes.Kept.{
  Keeps, bind-Keeps, if-Keeps, pure-Keeps, reconcile_children-Keeps,
  update_presto_cluster_status-Keeps,
}

some-ne-none {ℓ} : {A : Type ℓ} (a : A) → some a ≢ none
some-ne-none a h = cc

some_same {ℓ} : {A : Type ℓ} (a b : A) → some a ≡ some b → a ≡ b
some_same a b h = cc

module _ (lib : Machinery) (client : Client) where
  -- Inspection has found no cluster, or the given one.
  abbrev Found : PrestoCluster → InspectedClusterState → Type 0
  Found c i = (i.cluster ≡ none) ⊎ (i.cluster ≡ some c)

  -- Inspection returns, has found that, and has recorded nothing.
  abbrev Seen :
      PrestoCluster
      → List Write
      → Outcome (client.State × List Write) (Option client.Error × InspectedClusterState)
      → Type 0
  Seen c log (returns r t) = (t.1 ≡ log) × Found c r.1
  Seen c log (panics t) = ⊥

  inspect_part-Seen :
      (c : PrestoCluster) (log : List Write) (k : Kind) (n : NamespacedName) (z : Object k)
      (keep : Object k → InspectedClusterState) (i : InspectedClusterState)
      (rest : InspectedClusterState → Reading (recording client) InspectedClusterState)
      (s : client.State)
      → Found c i
      → Found c (keep (client.get k n z s).0.1)
      → ((j : InspectedClusterState) (t : client.State) → Found c j → Seen c log (rest j (t, log)))
      → Seen c log (
          inspect_part
            (recording client)
            (call ((recording client).get k n z))
            keep
            i
            rest
            (s, log))
  unfolding inspect_part
  inspect_part-Seen c log k n z keep i rest s old new next =
      let ((err, found), t) = client.get k n z s in
      elim (Option-cases err) [
        | inl ok ↦ rw ok (next (keep found) t new)
        | inr (e, failed) ↦ rw failed (elim (Option-cases (client.ignore_not_found (some e))) [
          | inl ignored ↦ rw ignored (next i t old)
          | inr (f, serious) ↦ rw serious (refl, old)
        ])
      ]

  inspect-Seen :
      (request : NamespacedName) (s : client.State) (log : List Write)
      → Seen
          (client.get Kind.presto_cluster request new_presto_cluster s).0.1
          log
          (inspect (recording client) request nothing_inspected (s, log))
  unfolding inspect inspect_cluster inspect_config_map inspect_coordiator_deployment
      inspect_coordinator_service inspect_worker_deployment inspect_deployment
  inspect-Seen request s log =
      let c = (client.get Kind.presto_cluster request new_presto_cluster s).0.1 in
      inspect_part-Seen c log Kind.presto_cluster _ _ _ _ _ s (inl refl) (inr refl) (λ j s h.
        inspect_part-Seen c log Kind.config_map _ _ _ _ _ s h h (λ j s h.
          inspect_part-Seen c log Kind.config_map _ _ _ _ _ s h h (λ j s h.
            inspect_part-Seen c log Kind.deployment _ _ _ _ _ s h h (λ j s h.
              inspect_part-Seen c log Kind.service _ _ _ _ _ s h h (λ j s h.
                inspect_part-Seen c log Kind.deployment _ _ _ _ _ s h h (λ j s h. (refl, h)))))))

  reconcile_children-Found :
      (c : PrestoCluster) (i : InspectedClusterState)
      → Found c i
      → Keeps lib client c
          (reconcile_children (recording client) i (get_desired_cluster_state lib i.cluster))
  reconcile_children-Found c i (inl absent) =
      unfold reconcile_children in rw absent (pure-Keeps lib client c _)
  reconcile_children-Found c i (inr found) =
      subst
        (λ o.
          Keeps lib client c
            (reconcile_children (recording client) i (get_desired_cluster_state lib o)))
        (sym found) (reconcile_children-Keeps lib client c i)

  by_cluster-Keeps :
      {A : Type 0} (c : PrestoCluster) (o : Option PrestoCluster)
      (x : Action (client.State × List Write) A)
      (f : PrestoCluster → Action (client.State × List Write) A)
      → (o ≡ none) ⊎ (o ≡ some c)
      → Keeps lib client c x
      → Keeps lib client c (f c)
      → Keeps lib client c (elim o [ none ↦ x | some d ↦ f d ])
  by_cluster-Keeps c none x f h k l = k
  by_cluster-Keeps c (some d) x f (inl absent) k l = absurd (some-ne-none d absent)
  by_cluster-Keeps c (some d) x f (inr same) k l =
      subst (λ e. Keeps lib client c (f e)) (sym (some_same d c same)) l

  Seen-Recorded :
      {B : Type 0} (c : PrestoCluster)
      (o : Outcome (client.State × List Write) (Option client.Error × InspectedClusterState))
      (f : Option client.Error × InspectedClusterState → Action (client.State × List Write) B)
      → Seen c [] o
      → ((r : Option client.Error × InspectedClusterState) → Found c r.1 → Keeps lib client c (f r))
      → Recorded lib client c (final (elim o [ returns r t ↦ f r t | panics t ↦ panics t ]))
  unfolding Keeps
  Seen-Recorded c (returns r t) f h g = g r h.1 t (rw h.0 tt)
  Seen-Recorded c (panics t) f h g = absurd h

  -- For every client, the writes of one request are all for the cluster that its first read
  -- returned: each creates one of the five objects desired for it, updates one of its two
  -- deployments to the desired one, or writes a status to a copy of it.
  pub reconcile_writes :
      (request : NamespacedName) (s : client.State)
      → Recorded lib client
          (client.get Kind.presto_cluster request new_presto_cluster s).0.1
          (final (reconcile lib (recording client) request (s, [])))
  unfolding reconcile
  reconcile_writes request s =
      let c = (client.get Kind.presto_cluster request new_presto_cluster s).0.1 in
      Seen-Recorded c (inspect (recording client) request nothing_inspected (s, [])) _
        (inspect-Seen request s [])
        (λ (err, i) found.
          if-Keeps lib client c (is_some err) _ _ (pure-Keeps lib client c (no_requeue, err)) (
            bind-Keeps lib client c _ _ (reconcile_children-Found c i found) (λ _.
              by_cluster-Keeps c i.cluster _ _ found (pure-Keeps lib client c (no_requeue, none)) (
                bind-Keeps lib client c _ _
                  (update_presto_cluster_status-Keeps lib client c request.name request.namespace)
                  (λ (result, failed).
                    if-Keeps lib client c (is_some failed) _ _
                      (pure-Keeps lib client c (no_requeue, failed))
                      (pure-Keeps lib client c (result, failed)))))))
