-- ===== src/Status/Quiet.antt =====
-- The status update when nobody interferes: what is written, and when the request comes back.
use presto_on_k8s_operator.Api.{PrestoCluster}
use presto_on_k8s_operator.Api.DeepCopy.{HasMaps, presto_cluster_deep_copy_lem}
use presto_on_k8s_operator.Desired.Keys.{worker_deployment_key}
use presto_on_k8s_operator.Go.{returns}
use presto_on_k8s_operator.Kube.Apps.{new_deployment}
use presto_on_k8s_operator.Kube.Client.{Client, Kind}
use presto_on_k8s_operator.Kube.Client.Quiet.{IsQuiet, Differ}
use presto_on_k8s_operator.Kube.Machinery.{Machinery, IsDocumented}
use presto_on_k8s_operator.Kube.Meta.{NamespacedName}
use presto_on_k8s_operator.Prelude.{
  ◌≡◌, ◌∙◌, none, some, inl, inr, true, arith, Option-cases, Bool-cases, ◌*◌, if◌then◌else◌,
}
use presto_on_k8s_operator.Prelude.Int.{ℤ, pos, ◌==◌, ==_iff}
use presto_on_k8s_operator.Reconciler.{ReconcileResult, no_requeue, second}
use presto_on_k8s_operator.Status.{
  update_presto_cluster_status, derive_cluster_status, current_deployment, update_cluster_status,
  record_count, requeue_unless_available, count_message,
}
use presto_on_k8s_operator.Text.{codes}

-- A full fleet ends the work; else the request comes back after five seconds.
abbrev pub result_for : ℤ → ℤ → ReconcileResult
result_for available workers =
    if available == workers
    then no_requeue
    else record { requeue = true; requeue_after = 5 * second }

-- The cluster with another count in its status.
abbrev pub with_status : PrestoCluster → ℤ → PrestoCluster
with_status cluster n = record cluster { status = record { available_workers = n } }

module _ (client : Client) (q : IsQuiet client) (request : NamespacedName) where
  -- The available workers that the server reports, 0 without a deployment of workers.
  unfoldable pub available : client.State → ℤ
  available s = elim (q.view s Kind.deployment (worker_deployment_key request)) [
    | none ↦ pos 0
    | some d ↦ d.status.available_replicas
  ]

  module _ (cluster : PrestoCluster) where
    -- A changed count is written to the status, and an event is recorded.
    unfoldable pub after_status : client.State → client.State
    after_status s =
        if available s == cluster.status.available_workers
        then s
        else client.event cluster (codes "Normal") (codes "workers counts update")
            (count_message request.name cluster.status.available_workers (available s))
            (client.update_status (with_status cluster (available s)) s).1

    -- The derived status has the server's count.
    pub derive_cluster_status-available :
        (lib : Machinery) (s : client.State)
        → derive_cluster_status lib client cluster request.name request.namespace s
          ≡ returns (record { available_workers = available s }) s
    unfolding derive_cluster_status current_deployment available
    derive_cluster_status-available lib s =
        elim (Option-cases (q.view s Kind.deployment (worker_deployment_key request))) [
          | inl e ↦ rw (q.get_missing Kind.deployment _ new_deployment s e, e, available)
          | inr (d, e) ↦ rw (q.get_found Kind.deployment _ new_deployment d s e, e, available)
        ]

    -- For documented libraries and a quiet client that holds the cluster, with a complete spec, the
    -- status update succeeds: the server's count is written, with an event, exactly if it changed,
    -- and the result says whether all workers are available.
    pub update_presto_cluster_status-after :
        (lib : Machinery) (doc : IsDocumented lib) (workers : ℤ) (s : client.State)
        → HasMaps cluster
        → cluster.spec.workers ≡ some workers
        → q.view s Kind.presto_cluster request ≡ some cluster
        → update_presto_cluster_status lib client cluster request.name request.namespace s
          ≡ returns (result_for (available s) workers, none) (after_status s)
    unfolding update_presto_cluster_status update_cluster_status record_count
        requeue_unless_available after_status
    update_presto_cluster_status-after lib doc workers s maps asked found = ground (
      arith,
      derive_cluster_status-available lib s,
      presto_cluster_deep_copy_lem lib cluster doc maps,
      q.update_status_ok (with_status cluster (available s)) cluster s
          (rw (q.view_key s Kind.presto_cluster request cluster found) found),
    )

    -- Afterwards the cluster that the server holds differs in its status alone, which has the count.
    pub view-after_status :
        (s : client.State)
        → q.view s Kind.presto_cluster request ≡ some cluster
        → q.view (after_status s) Kind.presto_cluster request
          ≡ some (with_status cluster (available s))
    unfolding after_status
    view-after_status s found =
        let own = q.view_key s Kind.presto_cluster request cluster found in
        elim (Bool-cases (available s == cluster.status.available_workers)) [
          | inl same ↦
              rw (same, after_status)
                (found ∙ ground (arith, ==_iff (available s) cluster.status.available_workers))
          | inr differs ↦
              rw (differs, after_status)
                (q.view_event cluster _ _ _ _ Kind.presto_cluster request
                  ∙ (rw own at (
                      q.view_status_updated (with_status cluster (available s)) cluster s
                        (rw own found))))
        ]

    -- No other object changes.
    pub view-after_status_other :
        (s : client.State) (j : Kind) (n : NamespacedName)
        → q.view s Kind.presto_cluster request ≡ some cluster
        → Differ Kind.presto_cluster request j n
        → q.view (after_status s) j n ≡ q.view s j n
    unfolding after_status
    view-after_status_other s j n found h =
        let own = q.view_key s Kind.presto_cluster request cluster found in
        elim (Bool-cases (available s == cluster.status.available_workers)) [
          | inl same ↦ rw (same, after_status)
          | inr differs ↦
              rw (differs, after_status)
                (q.view_event cluster _ _ _ _ j n
                  ∙ q.view_status_other (with_status cluster (available s)) s j n (rw own h))
        ]
