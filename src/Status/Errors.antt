-- ===== src/Status/Errors.antt =====
-- The status update against a client that may fail at any call.
use presto_on_k8s_operator.Api.{PrestoCluster, PrestoClusterStatus}
use presto_on_k8s_operator.Api.DeepCopy.{
  HasMaps, presto_cluster_deep_copy, presto_cluster_deep_copy_lem,
}
use presto_on_k8s_operator.Go.{returns}
use presto_on_k8s_operator.Kube.Apps.{new_deployment}
use presto_on_k8s_operator.Kube.Client.{Client, Kind}
use presto_on_k8s_operator.Kube.Machinery.{Machinery, IsDocumented}
use presto_on_k8s_operator.Prelude.{◌≡◌, ◌≢◌, none, some, arith}
use presto_on_k8s_operator.Prelude.Int.{ℤ, pos, ==_iff}
use presto_on_k8s_operator.Reconciler.{ReconcileResult, no_requeue}
use presto_on_k8s_operator.Status.{
  update_presto_cluster_status, derive_cluster_status, current_deployment, update_cluster_status,
  record_count, requeue_unless_available, count_message,
}
use presto_on_k8s_operator.Status.Quiet.{result_for, with_status}
use presto_on_k8s_operator.Text.{Text, codes}
use presto_on_k8s_operator.Utils.{get_worker_deployment_name}

module _ (lib : Machinery) (client : Client) (cluster : PrestoCluster) (name namespace : Text) where
  open client use {State, Error, get}

  -- For a cluster with a count of workers, a status update that reports no error asks for another
  -- round exactly when the count that it read is not the count asked for, however the client behaves.
  pub update_presto_cluster_status_result :
      (workers : ℤ) (result : ReconcileResult) (status : PrestoClusterStatus) (s t u : State)
      → cluster.spec.workers ≡ some workers
      → derive_cluster_status lib client cluster name namespace s ≡ returns status t
      → update_presto_cluster_status lib client cluster name namespace s ≡ returns (result, none) u
      → result ≡ result_for status.available_workers workers
  unfolding update_presto_cluster_status update_cluster_status record_count requeue_unless_available
  update_presto_cluster_status_result workers result status s t u asked derived ran = ground arith

  -- Let the libraries be documented and the cluster's spec complete. When the read of the workers'
  -- deployment fails, for whatever reason, and leaves the pointer's target alone, the update takes the
  -- available workers to be 0: 0 is written over another count in the status, an event says so, and
  -- if that write succeeds then no error is reported.
  pub update_presto_cluster_status_zeroed :
      (doc : IsDocumented lib) (workers : ℤ) (e : Error) (s t : State)
      → HasMaps cluster
      → cluster.spec.workers ≡ some workers
      → cluster.status.available_workers ≢ pos 0
      → get Kind.deployment
          (record { namespace = namespace; name = get_worker_deployment_name name })
          new_deployment
          s
        ≡ ((some e, new_deployment), t)
      → (client.update_status (with_status cluster (pos 0)) t).0 ≡ none
      → update_presto_cluster_status lib client cluster name namespace s
        ≡ returns
            (result_for (pos 0) workers, none)
            (client.event cluster
              (codes "Normal")
              (codes "workers counts update")
              (count_message name cluster.status.available_workers (pos 0))
              (client.update_status (with_status cluster (pos 0)) t).1)
  unfolding update_presto_cluster_status derive_cluster_status current_deployment
      update_cluster_status record_count requeue_unless_available
  update_presto_cluster_status_zeroed doc workers e s t maps asked shown failed written = ground (
    arith,
    presto_cluster_deep_copy_lem lib cluster doc maps,
    ==_iff (pos 0) cluster.status.available_workers,
  )

  -- Without a count of workers in the spec a status update never succeeds: it reports an error or
  -- panics.
  pub update_presto_cluster_status_nil :
      (result : ReconcileResult) (s t : State)
      → cluster.spec.workers ≡ none
      → update_presto_cluster_status lib client cluster name namespace s ≢ returns (result, none) t
  unfolding update_presto_cluster_status update_cluster_status record_count requeue_unless_available
  update_presto_cluster_status_nil result s t nil ran = ground arith

  -- An error that the status update reports is that of writing the status, and goes with the empty
  -- result.
  pub update_presto_cluster_status_reports :
      (result : ReconcileResult) (e : Error) (s u : State)
      → update_presto_cluster_status lib client cluster name namespace s
        ≡ returns (result, some e) u
      → (result ≡ no_requeue)
        × ((c : PrestoCluster) × (t : State) × ((client.update_status c t).0 ≡ some e))
  unfolding update_presto_cluster_status update_cluster_status record_count requeue_unless_available
      derive_cluster_status current_deployment
  update_presto_cluster_status_reports result e s u ran =
      let ((_, deployment), t) =
        get Kind.deployment
          (record { namespace = namespace; name = get_worker_deployment_name name }) new_deployment
          s in
      let status : PrestoClusterStatus = record {
        available_workers = deployment.status.available_replicas;
      } in
      let c = record (presto_cluster_deep_copy lib cluster) { status = status } in
      (ground arith, (c, t, ground arith))
