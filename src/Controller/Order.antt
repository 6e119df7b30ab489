-- ===== src/Controller/Order.antt =====
-- Two requests for different clusters, in either order.
use presto_on_k8s_operator.Api.{PrestoCluster}
use presto_on_k8s_operator.Controller.{reconcile}
use presto_on_k8s_operator.Controller.Alike.{
  AlikeFor, available-AlikeFor, after_children-AlikeFor, after_status-AlikeFor, IsReady,
  IsReady-after,
}
use presto_on_k8s_operator.Controller.Converges.{reconcile_converges}
use presto_on_k8s_operator.Controller.Isolated.{itself, reconcile_isolated}
use presto_on_k8s_operator.Controller.Round.{
  desired_children, after_round, cluster-after_round, reconcile-after,
}
use presto_on_k8s_operator.Go.{Outcome, returns, panics, final}
use presto_on_k8s_operator.Kube.Client.{Client, Kind}
use presto_on_k8s_operator.Kube.Client.Quiet.{IsQuiet}
use presto_on_k8s_operator.Kube.Machinery.{Machinery, IsDocumented}
use presto_on_k8s_operator.Kube.Meta.{NamespacedName}
use presto_on_k8s_operator.Prelude.{◌≡◌, sym, ◌∙◌, ap, ◌≢◌, Option, none, some}
use presto_on_k8s_operator.Prelude.Int.{ℤ}
use presto_on_k8s_operator.Reconciler.{ReconcileResult, no_requeue}
use presto_on_k8s_operator.Reconciler.Children.{after_children}
use presto_on_k8s_operator.Status.Quiet.{result_for}

-- The result that a request returned, if it did.
abbrev result_of : {S E : Type 0} → Outcome S (ReconcileResult × Option E) → ReconcileResult
result_of (returns r s) = r.0
result_of (panics s) = no_requeue

module _ (lib : Machinery) (doc : IsDocumented lib) (client : Client) (q : IsQuiet client) where
  after_round-AlikeFor :
      (owner : NamespacedName) (workers : ℤ) (cluster : PrestoCluster)
      (asked : cluster.spec.workers ≡ some workers) (s t : client.State)
      (found_s : q.view s Kind.presto_cluster owner ≡ some cluster)
      (found_t : q.view t Kind.presto_cluster owner ≡ some cluster)
      → AlikeFor client q owner s t
      → AlikeFor client q owner
          (after_round lib doc client q owner workers cluster asked s found_s)
          (after_round lib doc client q owner workers cluster asked t found_t)
  unfolding after_round after_children
  after_round-AlikeFor owner workers cluster asked s t found_s found_t same =
      after_children-AlikeFor client q owner workers
        (desired_children lib doc cluster (q.view_key s Kind.presto_cluster owner cluster found_s)
          asked)
        s t same

  -- A request from two states that hold the same of its cluster has the same result, and leaves
  -- states that hold the same of it.
  reconcile-AlikeFor :
      (owner : NamespacedName) (r r' : ReconcileResult) (s s' t t' : client.State)
      → IsReady client q s owner
      → AlikeFor client q owner s t
      → reconcile lib client owner s ≡ returns (r, none) s'
      → reconcile lib client owner t ≡ returns (r', none) t'
      → AlikeFor client q owner s' t' × (r ≡ r')
  reconcile-AlikeFor owner r r' s s' t t' ready same ran_s ran_t =
      let found_t = sym (same _ _ itself) ∙ ready.found in
      let round_s =
        after_round lib doc client q owner ready.workers ready.cluster ready.asked s ready.found in
      let round_t =
        after_round lib doc client q owner ready.workers ready.cluster ready.asked t found_t in
      let rounds =
        after_round-AlikeFor owner ready.workers ready.cluster ready.asked s t ready.found found_t
          same in
      let after_s =
        reconcile-after lib doc client q owner ready.workers ready.cluster ready.asked s ready.found
          ready.maps in
      let after_t =
        reconcile-after lib doc client q owner ready.workers ready.cluster ready.asked t found_t
          ready.maps in
      let statuses =
        after_status-AlikeFor client q owner ready.cluster round_s round_t
          (cluster-after_round lib doc client q owner ready.workers ready.cluster ready.asked s
            ready.found)
          (cluster-after_round lib doc client q owner ready.workers ready.cluster ready.asked t
            found_t)
          rounds in
      (
        λ k n owned.
            ap (λ o. q.view (final o) k n) (sym ran_s ∙ after_s)
            ∙ statuses k n owned
            ∙ ap (λ o. q.view (final o) k n) (sym after_t ∙ ran_t),
        ap result_of (sym ran_s ∙ after_s)
            ∙ ap (λ a. result_for a ready.workers)
                (available-AlikeFor client q owner round_s round_t rounds)
            ∙ ap result_of (sym after_t ∙ ran_t),
      )

  -- Another cluster's request leaves all that belongs to a cluster.
  reconcile_other-AlikeFor :
      (owner request : NamespacedName) (r : ReconcileResult) (s t : client.State)
      → owner ≢ request
      → IsReady client q s request
      → reconcile lib client request s ≡ returns (r, none) t
      → AlikeFor client q owner t s
  reconcile_other-AlikeFor owner request r s t differ ready ran k n owned =
      reconcile_isolated lib doc client q request owner ready.workers ready.cluster s t r k n differ
        ready.asked ready.found ready.maps ran owned

  -- Two requests that succeed in either order have the same results, and leave states that hold the
  -- same of both clusters.
  served_in_both_orders :
      (a b : NamespacedName) (ra rb ra' rb' : ReconcileResult) (s sa sab sb sba : client.State)
      → a ≢ b
      → IsReady client q s a
      → IsReady client q s b
      → reconcile lib client a s ≡ returns (ra, none) sa
      → reconcile lib client b sa ≡ returns (rb, none) sab
      → reconcile lib client b s ≡ returns (rb', none) sb
      → reconcile lib client a sb ≡ returns (ra', none) sba
      → AlikeFor client q a sab sba × AlikeFor client q b sab sba × (ra ≡ ra') × (rb ≡ rb')
  served_in_both_orders a b ra rb ra' rb' s sa sab sb sba differ ready_a ready_b run_a run_b run_b'
        run_a' =
      let a_kept = reconcile_other-AlikeFor a b rb' s sb differ ready_b run_b' in
      let b_kept = reconcile_other-AlikeFor b a ra s sa (λ e. differ (sym e)) ready_a run_a in
      let (first, same_a) =
        reconcile-AlikeFor a ra ra' s sa sb sba ready_a (λ k n owned. sym (a_kept k n owned)) run_a
          run_a' in
      let (second, same_b) =
        reconcile-AlikeFor b rb' rb s sb sa sab ready_b (λ k n owned. sym (b_kept k n owned)) run_b'
          run_b in
      (
        λ k n owned.
            reconcile_other-AlikeFor a b rb sa sab differ
              (IsReady-after client q b s sa ready_b b_kept) run_b k n owned
            ∙ first k n owned,
        λ k n owned.
            sym (second k n owned)
            ∙ sym (
                reconcile_other-AlikeFor b a ra' sb sba (λ e. differ (sym e))
                  (IsReady-after client q a s sb ready_a a_kept) run_a' k n owned),
        same_a,
        sym same_b,
      )

  -- What holds after two requests that are served one after the other, whichever is the first.
  pub record SameInBothOrders (a b : NamespacedName) (s : client.State) : Type 0 where
    pub result_a : ReconcileResult
    pub result_b : ReconcileResult
    pub after_a : client.State
    pub after_a_b : client.State
    pub after_b : client.State
    pub after_b_a : client.State
    pub a_first : reconcile lib client a s ≡ returns (result_a, none) after_a
    pub b_second : reconcile lib client b after_a ≡ returns (result_b, none) after_a_b
    pub b_first : reconcile lib client b s ≡ returns (result_b, none) after_b
    pub a_second : reconcile lib client a after_b ≡ returns (result_a, none) after_b_a
    pub same_of_a : AlikeFor client q a after_a_b after_b_a
    pub same_of_b : AlikeFor client q b after_a_b after_b_a

  -- What a request for a ready cluster returns, and the state that it leaves.
  abbrev Succeeds : NamespacedName → client.State → Type 0
  Succeeds owner s =
      (r : ReconcileResult) × (t : client.State) × (reconcile lib client owner s
        ≡ returns (r, none) t)

  ready-Succeeds :
      (owner : NamespacedName) (s : client.State) → IsReady client q s owner → Succeeds owner s
  ready-Succeeds owner s h =
      let (t, ran, _, _) =
        reconcile_converges lib doc client q owner h.workers h.cluster h.asked s h.found h.maps in
      (_, t, ran)

  -- A cluster is ready after another cluster's request.
  IsReady-after_other :
      (owner request : NamespacedName) (r : ReconcileResult) (s t : client.State)
      → owner ≢ request
      → IsReady client q s owner
      → IsReady client q s request
      → reconcile lib client request s ≡ returns (r, none) t
      → IsReady client q t owner
  IsReady-after_other owner request r s t differ ready other ran =
      IsReady-after client q owner s t ready
        (reconcile_other-AlikeFor owner request r s t differ other ran)

  -- For documented libraries and a quiet client, two requests for different clusters with complete
  -- specs succeed in either order: each has the same result in both, and afterwards the server
  -- holds the same of both clusters and of all that belongs to them.
  pub reconcile_order :
      (a b : NamespacedName) (s : client.State)
      → a ≢ b
      → IsReady client q s a
      → IsReady client q s b
      → SameInBothOrders a b s
  reconcile_order a b s differ ready_a ready_b =
      let apart : b ≢ a = λ e. differ (sym e) in
      let (ra, sa, run_a) = ready-Succeeds a s ready_a in
      let (rb', sb, run_b') = ready-Succeeds b s ready_b in
      let (rb, sab, run_b) =
        ready-Succeeds b sa (IsReady-after_other b a ra s sa apart ready_b ready_a run_a) in
      let (ra', sba, run_a') =
        ready-Succeeds a sb (IsReady-after_other a b rb' s sb differ ready_a ready_b run_b') in
      let (same_a, same_b, result_a, result_b) =
        served_in_both_orders a b ra rb ra' rb' s sa sab sb sba differ ready_a ready_b run_a run_b
          run_b' run_a' in
      record {
        result_a = ra;
        result_b = rb;
        after_a = sa;
        after_a_b = sab;
        after_b = sb;
        after_b_a = sba;
        a_first = run_a;
        b_second = run_b;
        b_first = run_b' ∙ ap (λ r. returns (r, none) sb) (sym result_b);
        a_second = run_a' ∙ ap (λ r. returns (r, none) sba) (sym result_a);
        same_of_a = same_a;
        same_of_b = same_b;
      }
