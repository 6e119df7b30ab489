-- ===== src/Controller/Program/Request.antt =====
-- A request laid open as a program.
use presto_on_k8s_operator.Api.{PrestoCluster}
use presto_on_k8s_operator.Controller.{reconcile}
use presto_on_k8s_operator.Controller.Program.Inspection.{IsAsked}
use presto_on_k8s_operator.Controller.Program.Children.{reconcile_children-Opened}
use presto_on_k8s_operator.Controller.Program.Inspection.{Inspects, inspect-Opened}
use presto_on_k8s_operator.Controller.Program.Opened.{
  Operations, client_of, Acts, Opened, pure-Opened, bind-Opened, if-Opened,
}
use presto_on_k8s_operator.Controller.Program.Status.{update_presto_cluster_status-Opened}
use presto_on_k8s_operator.Go.{Action}
use presto_on_k8s_operator.Kube.Client.{Client, Kind, key}
use presto_on_k8s_operator.Kube.Machinery.{Machinery, IsDocumented}
use presto_on_k8s_operator.Kube.Meta.{NamespacedName}
use presto_on_k8s_operator.Prelude.{◌≡◌, Option, none, some, is_some}
use presto_on_k8s_operator.Reconciler.{no_requeue}

module _ (lib : Machinery) (doc : IsDocumented lib) (E : Type 0) (ignore : Option E → Option E)
    (owner : NamespacedName) where
  abbrev cl : Operations E → Client
  cl = client_of E ignore owner

  by_cluster-Opened :
      {A : Type 0} (o : Option PrestoCluster) (x : Acts E ignore owner A)
      (f : (v : Operations E) → PrestoCluster → Action v.State A)
      → Opened E ignore owner Unit (λ _. Unit) x
      → ((c : PrestoCluster)
          → Opened E ignore owner (key Kind.presto_cluster c ≡ owner) (λ _. Unit) (λ v. f v c))
      → Opened E ignore owner
          (IsAsked owner o)
          (λ _. Unit)
          (λ v. elim o [ none ↦ x v | some c ↦ f v c ])
  by_cluster-Opened none x f h g = h
  by_cluster-Opened (some c) x f h g = g c

  pub reconcile-Opened : Opened E ignore owner Unit (λ _. Unit) (λ o. reconcile lib (cl o) owner)
  unfolding reconcile
  reconcile-Opened =
      bind-Opened E ignore owner Unit (Inspects E ignore owner) (λ _. Unit) _ _
        (inspect-Opened E ignore owner)
        (λ (err, i).
          if-Opened E ignore owner _ _ (is_some err) _ _
            (λ _. pure-Opened E ignore owner _ _ (no_requeue, err) (λ _. tt))
            (λ _.
              bind-Opened E ignore owner (IsAsked owner i.cluster) (λ _. IsAsked owner i.cluster)
                (λ _. Unit) _ _ (reconcile_children-Opened E ignore owner lib doc i)
                (λ _.
                  by_cluster-Opened i.cluster _ _
                    (pure-Opened E ignore owner Unit _ (no_requeue, none) (λ _. tt))
                    (λ c.
                      bind-Opened E ignore owner (key Kind.presto_cluster c ≡ owner) _ (λ _. Unit) _
                        _ (update_presto_cluster_status-Opened E ignore owner lib doc c)
                        (λ (result, failed).
                          if-Opened E ignore owner _ _ (is_some failed) _ _
                            (λ _. pure-Opened E ignore owner _ _ (no_requeue, failed) (λ _. tt))
                            (λ _. pure-Opened E ignore owner _ _ (result, failed) (λ _. tt)))))))
