-- ===== src/Controller/Concurrent/Finishes.antt =====
-- Requests that are served at the same time can all be brought to their ends.
use presto_on_k8s_operator.Controller.Alike.{IsReady, available-AlikeFor, IsSettled-AlikeFor}
use presto_on_k8s_operator.Controller.Program.{perform, done, faults, asks, run}
use presto_on_k8s_operator.Api.{PrestoCluster}
use presto_on_k8s_operator.Api.DeepCopy.{HasMaps}
use presto_on_k8s_operator.Controller.Concurrent.Alone.{Serial, first, returned, died}
use presto_on_k8s_operator.Controller.Concurrent.Results.{concurrent-AsAlone, set_same}
use presto_on_k8s_operator.Controller.Concurrent.System.{
  set, System, Remaining, IsOver, Reach, Reach-trans, OwnCalls, stays, goes_on, OwnCalls-Reach,
  beginning,
}
use presto_on_k8s_operator.Controller.Converges.{reconcile_converges}
use presto_on_k8s_operator.Go.{Outcome, returns, panics, final}
use presto_on_k8s_operator.Controller.Isolated.{BelongsTo, itself}
use presto_on_k8s_operator.Kube.Client.{Client, Kind}
use presto_on_k8s_operator.Kube.Client.Local.{View, IsLocal}
use presto_on_k8s_operator.Kube.Client.Quiet.{IsQuiet}
use presto_on_k8s_operator.Kube.Machinery.{Machinery, IsDocumented}
use presto_on_k8s_operator.Kube.Meta.{NamespacedName}
use presto_on_k8s_operator.Prelude.{ℕ, ◌≡◌, refl, sym, ◌∙◌, ap, subst, ◌≢◌, inl, inr, none, some}
use presto_on_k8s_operator.Prelude.Int.{ℤ}
use presto_on_k8s_operator.Reconciler.Settled.{IsSettled}
use presto_on_k8s_operator.Status.Quiet.{result_for, available, with_status}

module _ (client : Client) (lib : Machinery) (doc : IsDocumented lib) (view : View client)
    (requests : ℕ → NamespacedName) where
  -- The calls of one request, one after the other, bring it to its end.
  finishes :
      (i : ℕ) (p : Remaining client) (s : System client)
      → s.workers i ≡ p
      → (u : System client) × OwnCalls client lib doc view requests i s u
        × IsOver client (u.workers i)
  finishes i (done r) s e = (s, stays, inl (r, e))
  finishes i faults s e = (s, stays, inr e)
  finishes i (asks c rest) s e =
      let (answer, t) = perform client c s.state in
      let next : System client = record { state = t; workers = set s.workers i (rest answer) } in
      let (u, run, over) = finishes i (rest answer) next (set_same s.workers i (rest answer)) in
      (u, goes_on c rest e run, over)

returned_result :
    {S A : Type 0} (r r' : A) (s s' : S)
    → ◌≡◌ {A = Outcome S A} (returns r s) (returns r' s')
    → (r ≡ r') × (s ≡ s')
returned_result r r' s s' e = (cc, cc)

panics-ne-returns :
    {S A : Type 0} (r : A) (s s' : S) → ◌≢◌ {A = Outcome S A} (panics s) (returns r s')
panics-ne-returns r s s' e = cc

module _ (lib : Machinery) (doc : IsDocumented lib) (client : Client) (q : IsQuiet client) where
  with_status-HasMaps :
      (cluster : PrestoCluster) (n : ℤ) → HasMaps cluster → HasMaps (with_status cluster n)
  with_status-HasMaps cluster n maps = record {
    coordinator_etc = maps.coordinator_etc;
    worker_etc = maps.worker_etc;
    catalog = maps.catalog;
    core_site = maps.core_site;
  }

  -- Requests for a ready cluster that are served alone write nothing but its status.
  Serial-ready :
      (owner : NamespacedName) (s v : client.State) (ready : IsReady client q s owner)
      → Serial lib client owner s v
      → (n : ℤ) × (q.view v Kind.presto_cluster owner ≡ some (with_status ready.cluster n))
  Serial-ready owner s v ready first = (ready.cluster.status.available_workers, ready.found)
  Serial-ready owner s w ready (returned {t = v} r before ran) =
      let (n, found) = Serial-ready owner s v ready before in
      let (u, alone, _, kept) =
        reconcile_converges lib doc client q owner ready.workers (with_status ready.cluster n)
          ready.asked v found (with_status-HasMaps ready.cluster n ready.maps) in
      (_, rw (ap final (sym alone ∙ ran)) at kept)
  Serial-ready owner s w ready (died {t = v} before ran) =
      let (n, found) = Serial-ready owner s v ready before in
      let (u, alone, _, kept) =
        reconcile_converges lib doc client q owner ready.workers (with_status ready.cluster n)
          ready.asked v found (with_status-HasMaps ready.cluster n ready.maps) in
      absurd (panics-ne-returns _ _ _ (sym ran ∙ alone))

module _ (lib : Machinery) (doc : IsDocumented lib) (client : Client) (q : IsQuiet client)
    (loc : IsLocal client q.view) (requests : ℕ → NamespacedName)
    (distinct : (i j : ℕ) → i ≢ j → requests i ≢ requests j) where
  -- For documented libraries and a client that is quiet but for what is said here, and whose calls
  -- each concern one object, let different clusters be served at the same time, each by one request
  -- after the other, and one call of one of them at a time in any order, while others write to what
  -- belongs to none of them. A request for a cluster whose spec was complete at the beginning never
  -- gets stuck: from wherever they are, the calls that it has left, and no other steps, bring it to
  -- its end, and it returns without an error. Then its five children are there with the counts asked
  -- for, the status of the cluster has the count of available workers, and the request comes back
  -- after five seconds exactly if that is not the count asked for.
  pub concurrent_converges :
      (s0 : client.State) (s : System client) (i : ℕ) (ready : IsReady client q s0 (requests i))
      → Reach client lib doc q.view requests (beginning client lib doc q.view requests s0) s
      → (u : System client) × OwnCalls client lib doc q.view requests i s u
        × (u.workers i
            ≡ done (result_for (available client q (requests i) u.state) ready.workers, none))
        × IsSettled client q (requests i) ready.workers u.state
        × (q.view u.state Kind.presto_cluster (requests i)
            ≡ some (with_status ready.cluster (available client q (requests i) u.state)))
  unfolding run
  concurrent_converges s0 s i ready reached =
      let (u, more, over) = finishes client lib doc q.view requests i (s.workers i) s refl in
      let (from, before, (t, same, ends)) =
        concurrent-AsAlone lib doc client q.view loc requests distinct s0 u i (
          Reach-trans client lib doc q.view requests reached
            (OwnCalls-Reach client lib doc q.view requests more)) in
      let (n, found) = Serial-ready lib doc client q (requests i) s0 from ready before in
      let (v, alone, settled, kept) =
        reconcile_converges lib doc client q (requests i) ready.workers
          (with_status ready.cluster n) ready.asked from found
          (with_status-HasMaps lib doc client q ready.cluster n ready.maps) in
      elim over [
        | inr fault ↦ absurd (panics-ne-returns _ _ _ (rw fault at (ends ∙ alone)))
        | inl (r, over) ↦
            let (result, state) = returned_result r _ t v (rw over at (ends ∙ alone)) in
            let same_v =
              subst
                (λ x.
                  (k : Kind) (n : NamespacedName)
                  → BelongsTo (requests i) k n
                  → q.view u.state k n ≡ q.view x k n)
                state same in
            let count = sym (available-AlikeFor client q (requests i) u.state v same_v) in
            (
              u,
              more,
              over ∙ ap done result ∙ ap (λ a. done (result_for a ready.workers, none)) count,
              IsSettled-AlikeFor client q (requests i) ready.workers v u.state same_v settled,
              same_v _ _ itself ∙ kept ∙ ap (λ a. some (with_status ready.cluster a)) count,
            )
      ]
