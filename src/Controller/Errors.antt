-- ===== src/Controller/Errors.antt =====
-- One request against a client that may fail at any call, and the requests that have nothing to do.
use presto_on_k8s_operator.Api.{PrestoCluster}
use presto_on_k8s_operator.Controller.{reconcile}
use presto_on_k8s_operator.Desired.{get_desired_cluster_state}
use presto_on_k8s_operator.Go.{returns, Outcome-cases}
use presto_on_k8s_operator.Inspector.{InspectedClusterState, inspect, nothing_inspected}
use presto_on_k8s_operator.Inspector.Quiet.{inspect-held}
use presto_on_k8s_operator.Kube.Client.{Client, Kind}
use presto_on_k8s_operator.Kube.Client.Quiet.{IsQuiet}
use presto_on_k8s_operator.Kube.Machinery.{Machinery}
use presto_on_k8s_operator.Kube.Meta.{NamespacedName}
use presto_on_k8s_operator.Prelude.{◌≡◌, ◌≢◌, ◌⊎◌, inl, inr, none, some, arith, Option-cases}
use presto_on_k8s_operator.Reconciler.{ReconcileResult, no_requeue, reconcile_children}
use presto_on_k8s_operator.Status.{update_presto_cluster_status}
use presto_on_k8s_operator.Status.Errors.{
  update_presto_cluster_status_reports, update_presto_cluster_status_nil,
}

module _ (lib : Machinery) (client : Client) (request : NamespacedName) where
  open client use {State, Error}

  -- What an error is of: inspection, or writing the status of a cluster.
  abbrev pub OfInspection : State → Error → Type 0
  OfInspection s e =
      (inspected : InspectedClusterState) × (t : State) × (inspect client request nothing_inspected
          s
        ≡ returns (some e, inspected) t)

  abbrev pub OfStatus : Error → Type 0
  OfStatus e = (c : PrestoCluster) × (t : State) × ((client.update_status c t).0 ≡ some e)

  -- For every client, an error that a request reports is that of inspection or that of writing the status, never that
  -- of creating, updating or deleting a child. It goes with the empty result.
  pub reconcile_reports :
      (result : ReconcileResult) (e : Error) (s u : State)
      → reconcile lib client request s ≡ returns (result, some e) u
      → (result ≡ no_requeue) × (OfInspection s e ⊎ OfStatus e)
  unfolding reconcile
  reconcile_reports result e s u ran =
      elim (Outcome-cases (inspect client request nothing_inspected s)) [
        | inr (t, died) ↦ ground arith
        | inl ((some f, i), t, read) ↦ (ground arith, inl (i, t, ground arith))
        | inl ((none, i), t, read) ↦
            let desired = get_desired_cluster_state lib i.cluster in
            elim (Outcome-cases (reconcile_children client i desired t)) [
              | inr (v, died) ↦ ground arith
              | inl (r, v, acted) ↦ elim (Option-cases i.cluster) [
                | inl absent ↦ ground arith
                | inr (c, found) ↦
                    elim (Outcome-cases (
                      update_presto_cluster_status lib client c request.name request.namespace v)) [
                        | inr (w, died) ↦ ground arith
                        | inl ((r2, none), w, updated) ↦ ground arith
                        | inl ((r2, some f), w, updated) ↦
                            let (_, written) =
                              update_presto_cluster_status_reports lib client c request.name
                                request.namespace r2 f v w updated in
                            (ground arith, inr (written.0, written.1, ground arith))
                      ]
              ]
            ]
      ]

  -- For every client, a request that inspected a cluster whose spec has no count of workers never
  -- succeeds: it reports an error or panics.
  pub reconcile_nil_workers :
      (inspected : InspectedClusterState) (cluster : PrestoCluster) (result : ReconcileResult)
      (s t u : State)
      → inspect client request nothing_inspected s ≡ returns (none, inspected) t
      → inspected.cluster ≡ some cluster
      → cluster.spec.workers ≡ none
      → reconcile lib client request s ≢ returns (result, none) u
  unfolding reconcile
  reconcile_nil_workers inspected cluster result s t u read found nil ran =
      let desired = get_desired_cluster_state lib inspected.cluster in
      elim (Outcome-cases (reconcile_children client inspected desired t)) [
        | inr (v, died) ↦ ground arith
        | inl (r, v, acted) ↦
            elim (Outcome-cases
              (update_presto_cluster_status lib client cluster request.name request.namespace v)) [
                | inr (w, died) ↦ ground arith
                | inl ((r2, some f), w, updated) ↦ ground arith
                | inl ((r2, none), w, updated) ↦
                    update_presto_cluster_status_nil lib client cluster request.name
                      request.namespace r2 v w nil updated
              ]
      ]

  -- For a quiet client, a request for a cluster that is gone succeeds and changes nothing: its
  -- children are left to the garbage collector.
  pub reconcile_absent :
      (q : IsQuiet client) (s : State)
      → q.view s Kind.presto_cluster request ≡ none
      → reconcile lib client request s ≡ returns (no_requeue, none) s
  unfolding reconcile reconcile_children
  reconcile_absent q s gone = ground (arith, inspect-held client q request s)
