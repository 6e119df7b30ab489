-- ===== src/Controller/Converges.antt =====
-- One request, and a second one, when nobody interferes.
use presto_on_k8s_operator.Api.{PrestoCluster}
use presto_on_k8s_operator.Api.DeepCopy.{HasMaps}
use presto_on_k8s_operator.Controller.{reconcile}
use presto_on_k8s_operator.Desired.Keys.{
  presto_config_map_key, catalog_config_map_key, coordinator_deployment_key,
  coordinator_service_key, worker_deployment_key,
}
use presto_on_k8s_operator.Go.{returns, final}
use presto_on_k8s_operator.Kube.Client.{Client, Kind}
use presto_on_k8s_operator.Kube.Client.Quiet.{IsQuiet, Differ}
use presto_on_k8s_operator.Kube.Machinery.{Machinery, IsDocumented}
use presto_on_k8s_operator.Kube.Meta.{NamespacedName}
use presto_on_k8s_operator.Prelude.{◌≡◌, refl, sym, ◌∙◌, ap, none, some, arith}
use presto_on_k8s_operator.Prelude.Int.{ℤ, ==_iff}
use presto_on_k8s_operator.Reconciler.{ReconcileResult}
use presto_on_k8s_operator.Reconciler.Children.{view-after_children_other}
use presto_on_k8s_operator.Reconciler.Settled.{
  IsSettled, after_children-IsSettled, after_children_settled,
}
use presto_on_k8s_operator.Status.Quiet.{
  result_for, available, with_status, after_status, view-after_status, view-after_status_other,
}
use presto_on_k8s_operator.Controller.Round.{
  desired_children, after_round, cluster-after_round, reconcile-after, after_reconcile,
  available-after_status, IsSettled-after_status,
}

module _ (lib : Machinery) (doc : IsDocumented lib) (client : Client) (q : IsQuiet client)
    (request : NamespacedName) where
  module _ (workers : ℤ) (cluster : PrestoCluster)
      (asked : cluster.spec.workers ≡ some workers) where
    -- For documented libraries and a quiet client, one request succeeds from any state that holds
    -- the cluster with a count of workers. Afterwards all five children are there, the workers with
    -- the count asked for and one coordinator; the status of the cluster, and nothing else of it,
    -- has the count of available workers; and the request comes back after five seconds exactly if
    -- that is not the count asked for.
    pub reconcile_converges :
        (s : client.State)
        → q.view s Kind.presto_cluster request ≡ some cluster
        → HasMaps cluster
        → (t : client.State) × (reconcile lib client request s
            ≡ returns (result_for (available client q request t) workers, none) t)
          × IsSettled client q request workers t
          × (q.view t Kind.presto_cluster request
              ≡ some (with_status cluster (available client q request t)))
    unfolding after_reconcile
    reconcile_converges s found maps =
        let round = after_round lib doc client q request workers cluster asked s found in
        let kept = cluster-after_round lib doc client q request workers cluster asked s found in
        (
          after_reconcile lib doc client q request workers cluster asked s found,
          rw (available-after_status lib doc client q request workers cluster asked round kept)
              (reconcile-after lib doc client q request workers cluster asked s found maps),
          IsSettled-after_status lib doc client q request workers cluster asked round kept
              (unfold after_round in after_children-IsSettled client q request workers _ s),
          rw (available-after_status lib doc client q request workers cluster asked round kept)
              (view-after_status client q request cluster round kept),
        )

    -- A request leaves alone all that is neither the cluster nor one of its five children.
    pub view-reconcile_other :
        (s t : client.State) (result : ReconcileResult) (j : Kind) (n : NamespacedName)
        → q.view s Kind.presto_cluster request ≡ some cluster
        → HasMaps cluster
        → reconcile lib client request s ≡ returns (result, none) t
        → Differ Kind.presto_cluster request j n
        → Differ Kind.config_map (presto_config_map_key request) j n
        → Differ Kind.config_map (catalog_config_map_key request) j n
        → Differ Kind.deployment (coordinator_deployment_key request) j n
        → Differ Kind.service (coordinator_service_key request) j n
        → Differ Kind.deployment (worker_deployment_key request) j n
        → q.view t j n ≡ q.view s j n
    unfolding after_round
    view-reconcile_other s t result j n found maps ran c p k d v w =
        ap (λ o. q.view (final o) j n)
          (sym ran ∙ reconcile-after lib doc client q request workers cluster asked s found maps)
        ∙ view-after_status_other client q request cluster _ j n
            (cluster-after_round lib doc client q request workers cluster asked s found) c
        ∙ view-after_children_other client q request workers _ s j n p k d v w

    -- For documented libraries and a quiet client, a request for a cluster with a complete spec
    -- changes nothing in a state where the children are there with the counts asked for and the
    -- status is up to date.
    pub reconcile_settled :
        (s : client.State)
        → q.view s Kind.presto_cluster request ≡ some cluster
        → HasMaps cluster
        → IsSettled client q request workers s
        → cluster.status.available_workers ≡ available client q request s
        → reconcile lib client request s
          ≡ returns (result_for (available client q request s) workers, none) s
    unfolding after_round after_status
    reconcile_settled s found maps settled current =
        let own = q.view_key s Kind.presto_cluster request cluster found in
        let quiet =
          after_children_settled client q request workers
            (desired_children lib doc cluster own asked) s settled in
        rw quiet at (reconcile-after lib doc client q request workers cluster asked s found maps)
        ∙ ground (arith, ==_iff (available client q request s) cluster.status.available_workers)

  -- For documented libraries and a quiet client, a second request for a cluster with a complete
  -- spec, right after one that succeeded, has the same result and changes nothing.
  pub reconcile_twice :
      (workers : ℤ) (cluster : PrestoCluster) (s t : client.State) (result : ReconcileResult)
      → cluster.spec.workers ≡ some workers
      → q.view s Kind.presto_cluster request ≡ some cluster
      → HasMaps cluster
      → reconcile lib client request s ≡ returns (result, none) t
      → reconcile lib client request t ≡ returns (result, none) t
  reconcile_twice workers cluster s t result asked found maps ran =
      let (t', ran', settled, kept) = reconcile_converges workers cluster asked s found maps in
      let current = with_status cluster (available client q request t') in
      let maps' : HasMaps current = record {
        coordinator_etc = maps.coordinator_etc;
        worker_etc = maps.worker_etc;
        catalog = maps.catalog;
        core_site = maps.core_site;
      } in
      cc (ran, ran', reconcile_settled workers current asked t' kept maps' settled refl)
