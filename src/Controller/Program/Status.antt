-- ===== src/Controller/Program/Status.antt =====
-- The status update laid open as a program.
use presto_on_k8s_operator.Api.{PrestoCluster, PrestoClusterStatus}
use presto_on_k8s_operator.Api.DeepCopy.{presto_cluster_deep_copy}
use presto_on_k8s_operator.Controller.Program.{get_object, write_status, record_event}
use presto_on_k8s_operator.Controller.Program.Opened.{
  Operations, client_of, bind-Opened, deref_then-Opened, if-Opened, call-Opened,
}
use presto_on_k8s_operator.Controller.Isolated.{itself, worker}
use presto_on_k8s_operator.Desired.Keys.{worker_deployment_key}
use presto_on_k8s_operator.Controller.Program.Children.{Opening, returning-Opened}
use presto_on_k8s_operator.Kube.Apps.{new_deployment}
use presto_on_k8s_operator.Kube.Client.{Client, Kind, key}
use presto_on_k8s_operator.Kube.Machinery.{Machinery, IsDocumented}
use presto_on_k8s_operator.Kube.Meta.{NamespacedName}
use presto_on_k8s_operator.Prelude.{◌≡◌, Option, is_some}
use presto_on_k8s_operator.Prelude.Int.{ℤ, ◌==◌}
use presto_on_k8s_operator.Reconciler.{no_requeue}
use presto_on_k8s_operator.Status.{
  update_presto_cluster_status, derive_cluster_status, current_deployment, update_cluster_status,
  record_count, requeue_unless_available, count_message,
}
use presto_on_k8s_operator.Text.{Text, codes}

module _ (E : Type 0) (ignore : Option E → Option E) (owner : NamespacedName) (lib : Machinery)
    (doc : IsDocumented lib) (c : PrestoCluster) where
  abbrev cl : Operations E → Client
  cl = client_of E ignore owner

  -- The cluster is that of the request.
  abbrev Own : Type 0
  Own = key Kind.presto_cluster c ≡ owner

  requeue_unless_available-Opened :
      (status : PrestoClusterStatus)
      → Opening E ignore owner Own (λ o. requeue_unless_available lib (cl o) c status)
  unfolding requeue_unless_available
  requeue_unless_available-Opened status =
      deref_then-Opened E ignore owner Own _ c.spec.workers _ (λ workers.
        if-Opened E ignore owner Own _ (status.available_workers == workers) _ _
          (λ _. returning-Opened E ignore owner Own _) (λ _. returning-Opened E ignore owner Own _))

  derive_cluster_status-Opened :
      Opening E ignore owner Own
        (λ o. derive_cluster_status lib (cl o) c owner.name owner.namespace)
  unfolding derive_cluster_status current_deployment
  derive_cluster_status-Opened =
      bind-Opened E ignore owner Own (λ _. Own) (λ _. Own) _ _
        (call-Opened E ignore owner Own
          (get_object Kind.deployment (worker_deployment_key owner) new_deployment) _ (λ _. worker)
          (λ own a keyed. own))
        (λ r.
          returning-Opened E ignore owner Own
            (record { available_workers = r.1.status.available_replicas }))

  update_cluster_status-Opened :
      (status : PrestoClusterStatus)
      → Opening E ignore owner Own (λ o. update_cluster_status lib (cl o) c status)
  unfolding update_cluster_status presto_cluster_deep_copy
  update_cluster_status-Opened status =
      call-Opened E ignore owner Own (write_status _) _
        (λ own. rw (doc.meta_copied c.metadata, own) itself) (λ own a keyed. own)

  record_count-Opened :
      (name : Text) (old new : ℤ)
      → Opening E ignore owner Own (λ o. record_count lib (cl o) c name old new)
  unfolding record_count
  record_count-Opened name old new =
      call-Opened E ignore owner Own
        (record_event c (codes "Normal") (codes "workers counts update")
          (count_message name old new))
        _ (λ _. tt) (λ own a keyed. own)

  pub update_presto_cluster_status-Opened :
      Opening E ignore owner Own
        (λ o. update_presto_cluster_status lib (cl o) c owner.name owner.namespace)
  unfolding update_presto_cluster_status
  update_presto_cluster_status-Opened =
      bind-Opened E ignore owner Own (λ _. Own) (λ _. Own) _ _ derive_cluster_status-Opened
        (λ status.
          if-Opened E ignore owner Own _ (status.available_workers == c.status.available_workers) _
            _ (λ _. requeue_unless_available-Opened status)
            (λ _.
              bind-Opened E ignore owner Own (λ _. Own) (λ _. Own) _ _
                (update_cluster_status-Opened status)
                (λ err.
                  if-Opened E ignore owner Own _ (is_some err) _ _
                    (λ _. returning-Opened E ignore owner Own (no_requeue, err))
                    (λ _.
                      bind-Opened E ignore owner Own (λ _. Own) (λ _. Own) _ _
                        (record_count-Opened owner.name c.status.available_workers
                          status.available_workers)
                        (λ u. requeue_unless_available-Opened status)))))
