-- ===== src/Controller/Returns/Request.antt =====
-- A whole request returns if the counts that it reads are there.
use presto_on_k8s_operator.Controller.{reconcile}
use presto_on_k8s_operator.Controller.Returns.{ReturnsWith, Ends, pure-Ends, bind-Ends, if-Ends}
use presto_on_k8s_operator.Desired.{get_desired_cluster_state}
use presto_on_k8s_operator.Go.{Outcome, returns, panics}
use presto_on_k8s_operator.Kube.Client.{Client}
use presto_on_k8s_operator.Kube.Machinery.{Machinery}
use presto_on_k8s_operator.Kube.Meta.{NamespacedName}
use presto_on_k8s_operator.Prelude.{◌≡◌, refl, inl, Option, none, is_some}
use presto_on_k8s_operator.Reconciler.{ReconcileResult, no_requeue}
use presto_on_k8s_operator.Controller.Returns.Inspection.{ReadsCounts, Inspects, inspect-Ends}
use presto_on_k8s_operator.Controller.Returns.Parts.{
  IsPaced, desired-HasReplicas, Anything, by_cluster-Ends, children-Ends, status-Ends,
}

reconcile-Ends :
    (lib : Machinery) (client : Client) (reads : ReadsCounts client) (request : NamespacedName)
    → Ends client.State IsPaced (reconcile lib client request)
unfolding reconcile
reconcile-Ends lib client reads request =
    bind-Ends client.State (Inspects client reads) IsPaced _ _ (inspect-Ends client reads request)
      (λ (err, i) h.
        let (coordinator, worker) = desired-HasReplicas lib i.cluster h.cluster in
        if-Ends client.State IsPaced (is_some err) _ _
          (λ _. pure-Ends client.State IsPaced (no_requeue, err) (inl refl))
          (λ _.
            bind-Ends client.State (Anything client) IsPaced _ _
              (children-Ends client i (get_desired_cluster_state lib i.cluster) h coordinator
                worker)
              (λ _ _.
                by_cluster-Ends client IsPaced i.cluster _ _ h.cluster
                  (pure-Ends client.State IsPaced (no_requeue, none) (inl refl))
                  (λ c counted.
                    bind-Ends client.State IsPaced IsPaced _ _
                      (status-Ends client lib c counted request.name request.namespace)
                      (λ (result, failed) paced.
                        if-Ends client.State IsPaced (is_some failed) _ _
                          (λ _. pure-Ends client.State IsPaced (no_requeue, failed) (inl refl))
                          (λ _. pure-Ends client.State IsPaced (result, failed) paced))))))

returned :
    {S A : Type 0} (P : A → Type 0) (o : Outcome S A)
    → ReturnsWith S P o
    → (a : A) × (t : S) × (o ≡ returns a t) × P a
returned P (returns a t) h = (a, t, refl, h)
returned P (panics t) h = absurd h

-- For every client whose successful reads of clusters and deployments have their counts, and which
-- may fail at any call, a request never panics. It returns, with no delay or with one of five
-- seconds, and never with both a delay and an error.
pub reconcile_returns :
    (lib : Machinery) (client : Client) (reads : ReadsCounts client) (request : NamespacedName)
    (s : client.State)
    → (r : ReconcileResult × Option client.Error) × (t : client.State) × (reconcile lib client
          request s
        ≡ returns r t)
      × IsPaced r
unfolding Ends
reconcile_returns lib client reads request s =
    returned IsPaced (reconcile lib client request s) (reconcile-Ends lib client reads request s)
