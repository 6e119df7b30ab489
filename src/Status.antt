-- ===== src/Status.antt =====
-- controllers/status.go: keeping the count of available workers in the status of the cluster.
pub mod Quiet
pub mod Errors
pub mod Message
use presto_on_k8s_operator.Api.{PrestoCluster, PrestoClusterStatus}
use presto_on_k8s_operator.Api.DeepCopy.{presto_cluster_deep_copy}
use presto_on_k8s_operator.Decimal.{format_int}
use presto_on_k8s_operator.Go.{Action, pure, call, deref, ◌>>=◌, ◌>>◌}
use presto_on_k8s_operator.Kube.Apps.{Deployment, new_deployment}
use presto_on_k8s_operator.Kube.Client.{Client, Kind}
use presto_on_k8s_operator.Kube.Machinery.{Machinery}
use presto_on_k8s_operator.Prelude.{◌*◌, true, Option, none, ◌++◌, is_some, if◌then◌else◌}
use presto_on_k8s_operator.Prelude.Int.{ℤ, ◌==◌}
use presto_on_k8s_operator.Reconciler.{ReconcileResult, no_requeue, second}
use presto_on_k8s_operator.Text.{Text, codes}
use presto_on_k8s_operator.Utils.{get_worker_deployment_name}

-- The message of the event.
unfoldable pub count_message : Text → ℤ → ℤ → Text
count_message name old new =
    name ++ codes " workers counts changed: " ++ format_int old ++ codes " -> " ++ format_int new

module _ (lib : Machinery) (client : Client) (cluster : PrestoCluster) where
  open client use {State, Error, get, update_status, event}

  unfoldable pub update_cluster_status : PrestoClusterStatus → Action State (Option Error)
  update_cluster_status status =
      call (update_status (record (presto_cluster_deep_copy lib cluster) { status = status }))

  unfoldable pub current_deployment :
      Text → Text → Deployment → Action State (Option Error × Deployment)
  current_deployment namespace name current_worker_deployment = call (
      get Kind.deployment (record { namespace = namespace; name = name }) current_worker_deployment)

  -- The error of the `Get` is not looked at.
  unfoldable pub derive_cluster_status : Text → Text → Action State PrestoClusterStatus
  unfolding current_deployment
  derive_cluster_status name namespace = do
    (_, deployment) ← current_deployment namespace (get_worker_deployment_name name) new_deployment
    pure (record { available_workers = deployment.status.available_replicas })

  -- `recorder.Event` returns nothing.
  unfoldable pub record_count : Text → ℤ → ℤ → Action State (Unit {0})
  record_count name old new = call (λ s. (
    tt,
    event cluster (codes "Normal") (codes "workers counts update") (count_message name old new) s,
  ))

  -- The comparison with the count that was asked for.
  unfoldable pub requeue_unless_available :
      PrestoClusterStatus → Action State (ReconcileResult × Option Error)
  requeue_unless_available new_status = do
    workers ← deref cluster.spec.workers
    if new_status.available_workers == workers
        then pure (no_requeue, none)
        else pure (record { requeue = true; requeue_after = 5 * second }, none)

  unfoldable pub update_presto_cluster_status :
      Text → Text → Action State (ReconcileResult × Option Error)
  update_presto_cluster_status name namespace = do
    new_status ← derive_cluster_status name namespace
    if new_status.available_workers == cluster.status.available_workers
        then requeue_unless_available new_status
        else do
          err ← update_cluster_status new_status
          if is_some err
              then pure (no_requeue, err)
              else (record_count name cluster.status.available_workers new_status.available_workers
                  >> requeue_unless_available new_status)
