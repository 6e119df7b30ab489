-- ===== src/Controller/Calls/Request.antt =====
-- The calls of a whole request.
use presto_on_k8s_operator.Controller.{reconcile}
use presto_on_k8s_operator.Controller.Calls.{tracing}
use presto_on_k8s_operator.Controller.Calls.Emits.{Between, Emits, pure-Emits, bind-Emits, if-Emits}
use presto_on_k8s_operator.Controller.Calls.Parts.{
  inspect-Emits, reconcile_children-Emits, by_cluster-Emits, update_presto_cluster_status-Emits,
}
use presto_on_k8s_operator.Desired.{get_desired_cluster_state}
use presto_on_k8s_operator.Go.{final}
use presto_on_k8s_operator.Kube.Client.{Client}
use presto_on_k8s_operator.Kube.Machinery.{Machinery}
use presto_on_k8s_operator.Kube.Meta.{NamespacedName}
use presto_on_k8s_operator.Prelude.{none, is_some, []}
use presto_on_k8s_operator.Reconciler.{no_requeue}

reconcile-Emits :
    (lib : Machinery) (client : Client) (request : NamespacedName)
    → Emits client.State 14 (reconcile lib (tracing client) request)
unfolding reconcile
reconcile-Emits lib client request =
    bind-Emits client.State 6 8 _ _ (inspect-Emits client request) (λ (err, i).
      if-Emits client.State 8 (is_some err) _ _ (pure-Emits client.State 8 (no_requeue, err)) (
        bind-Emits client.State 5 3 _ _
          (reconcile_children-Emits client i (get_desired_cluster_state lib i.cluster))
          (λ _.
            by_cluster-Emits client 3 i.cluster _ _ (pure-Emits client.State 3 (no_requeue, none))
              (λ c.
                bind-Emits client.State 3 0 _ _
                  (update_presto_cluster_status-Emits client lib c request.name request.namespace)
                  (λ (result, failed).
                    if-Emits client.State 0 (is_some failed) _ _
                      (pure-Emits client.State 0 (no_requeue, failed))
                      (pure-Emits client.State 0 (result, failed)))))))

-- For every client, a request ends after at most fourteen calls of the API server and of the event
-- recorder, with a result or with a nil dereference, and the RBAC markers give the operator each of
-- them.
pub reconcile_calls :
    (lib : Machinery) (client : Client) (request : NamespacedName) (s : client.State)
    → Between 14 [] (final (reconcile lib (tracing client) request (s, []))).1
unfolding Emits
reconcile_calls lib client request s = reconcile-Emits lib client request (s, [])
