-- ===== src/Controller.antt =====
-- controllers/controller.go: one reconcile request, from inspection to the status. Log lines are
-- left out.
pub mod Round
pub mod Converges
pub mod Errors
pub mod Isolated
pub mod Alike
pub mod Order
pub mod Deletes
pub mod Runs
pub mod Returns
pub mod Rollout
pub mod Requeues
pub mod Writes
pub mod Calls
pub mod Among
pub mod Program
pub mod Concurrent
use presto_on_k8s_operator.Desired.{get_desired_cluster_state}
use presto_on_k8s_operator.Go.{Action, pure, ◌>>=◌}
use presto_on_k8s_operator.Inspector.{inspect, nothing_inspected}
use presto_on_k8s_operator.Kube.Client.{Client}
use presto_on_k8s_operator.Kube.Machinery.{Machinery}
use presto_on_k8s_operator.Kube.Meta.{NamespacedName}
use presto_on_k8s_operator.Prelude.{Option, none, some, is_some, if◌then◌else◌}
use presto_on_k8s_operator.Reconciler.{ReconcileResult, no_requeue, reconcile_children}
use presto_on_k8s_operator.Status.{update_presto_cluster_status}

module _ (lib : Machinery) (client : Client) where
  open client use {State, Error}

  -- `PrestoClusterController.reconcile`, which `PrestoClusterReconciler.Reconcile` calls. The error
  -- of the reconciler is logged, and then overwritten by that of the status update.
  unfoldable pub reconcile : NamespacedName → Action State (ReconcileResult × Option Error)
  reconcile request = do
    (err, inspected) ← inspect client request nothing_inspected
    if is_some err then pure (no_requeue, err) else do
      (_, _) ← reconcile_children client inspected (get_desired_cluster_state lib inspected.cluster)
      elim inspected.cluster [
        | none ↦ pure (no_requeue, none)
        | some cluster ↦ do
          (result, err) ←
              update_presto_cluster_status lib client cluster request.name request.namespace
          if is_some err then pure (no_requeue, err) else pure (result, err)
      ]
