-- ===== src/Controller/Among/Results.antt =====
-- What a request among others comes to.
use presto_on_k8s_operator.Api.{PrestoCluster}
use presto_on_k8s_operator.Api.DeepCopy.{HasMaps}
use presto_on_k8s_operator.Controller.{reconcile}
use presto_on_k8s_operator.Controller.Alike.{available-AlikeFor, IsSettled-AlikeFor}
use presto_on_k8s_operator.Controller.Among.{IsElsewhere, Others, Elsewhere, among}
use presto_on_k8s_operator.Controller.Among.Agrees.{
  Matches, Matches-Holds, Matches-returns, run-Matches,
}
use presto_on_k8s_operator.Controller.Program.{run}
use presto_on_k8s_operator.Controller.Program.Opened.{operations_of}
use presto_on_k8s_operator.Controller.Program.Request.{reconcile-Opened}
use presto_on_k8s_operator.Controller.Converges.{reconcile_converges}
use presto_on_k8s_operator.Controller.Isolated.{BelongsTo, BelongsTo-apart, itself}
use presto_on_k8s_operator.Go.{returns, final}
use presto_on_k8s_operator.Kube.Client.{Client, Kind}
use presto_on_k8s_operator.Kube.Client.Local.{View, IsLocal}
use presto_on_k8s_operator.Kube.Client.Quiet.{IsQuiet}
use presto_on_k8s_operator.Kube.Machinery.{Machinery, IsDocumented}
use presto_on_k8s_operator.Kube.Meta.{NamespacedName}
use presto_on_k8s_operator.Prelude.{ℕ, ◌≡◌, refl, sym, ◌∙◌, ap, subst, ◌≢◌, none, some}
use presto_on_k8s_operator.Prelude.Int.{ℤ}
use presto_on_k8s_operator.Reconciler.Settled.{IsSettled}
use presto_on_k8s_operator.Status.Quiet.{result_for, available, with_status}

module _ (lib : Machinery) (doc : IsDocumented lib) (client : Client) (view : View client)
    (loc : IsLocal client view) where
  -- For documented libraries and a client whose calls each concern one object, and which may fail,
  -- let others do what they like before each call, except to the cluster of a request and to its
  -- five children. Then the request ends as it does alone: with the same result, the same error or
  -- a nil dereference, and the same of the cluster and the children. What others keep of the rest,
  -- the request keeps as well.
  pub reconcile-among :
      (owner : NamespacedName) (others : Others client view owner)
      (e : Elsewhere client view owner others) (s : client.State)
      → e.Holds s
      → Matches client view owner others e
          (reconcile lib (among client others.act) owner (s, 0))
          (reconcile lib client owner s)
  reconcile-among owner others e s h =
      let opened = reconcile-Opened lib doc client.Error client.ignore_not_found owner in
      subst (λ x. Matches client view owner others e x (reconcile lib client owner s))
        (opened.runs (operations_of (among client others.act)) (s, 0))
        (subst
          (Matches client view owner others e (run (among client others.act) opened.program (s, 0)))
          (opened.runs (operations_of client) s)
          (run-Matches client view loc owner others e _ opened.program (s, 0) s (opened.keeps tt)
            (record { same = λ k n owned. refl; holds = h; holds_alone = h })))

  -- Nobody does anything.
  abbrev nobody : (owner : NamespacedName) → Others client view owner
  nobody owner = record { act = λ i s. s; owner_kept = λ i s k n owned. refl }

  -- One object elsewhere is as it was.
  abbrev unchanged :
      (owner : NamespacedName) (s : client.State) (k : Kind) (n : NamespacedName)
      → IsElsewhere client view owner k n
      → Elsewhere client view owner (nobody owner)
  unchanged owner s k n away = record {
    Holds = λ t. view t k n ≡ view s k n;
    is_elsewhere = λ t u same h. sym (same k n away) ∙ h;
    kept = λ i t h. h;
  }

  -- For documented libraries and a client whose calls each concern one object, and which may fail,
  -- a request leaves every other cluster, and the five children that belong to that cluster, as
  -- they are, however it ends.
  pub reconcile_leaves_others :
      (request owner : NamespacedName) (s : client.State) (k : Kind) (n : NamespacedName)
      → owner ≢ request
      → BelongsTo owner k n
      → view (final (reconcile lib client request s)) k n ≡ view s k n
  reconcile_leaves_others request owner s k n differ owned =
      let rest = unchanged request s k n (λ j m own. BelongsTo-apart differ own owned) in
      Matches-Holds client view request (nobody request) rest _ _
        (reconcile-among request (nobody request) rest s refl)

  -- Whole requests for other clusters are served before each call.
  abbrev pub serving :
      (owner : NamespacedName) (requests : ℕ → NamespacedName)
      → ((i : ℕ) → requests i ≢ owner)
      → Others client view owner
  serving owner requests differ = record {
    act = λ i s. final (reconcile lib client (requests i) s);
    owner_kept = λ i s k n owned.
        reconcile_leaves_others (requests i) owner s k n (λ e. differ i (sym e)) owned;
  }

module _ (lib : Machinery) (doc : IsDocumented lib) (client : Client) (q : IsQuiet client)
    (loc : IsLocal client q.view) (request : NamespacedName) (workers : ℤ) (cluster : PrestoCluster)
    (others : Others client q.view request) where
  -- Nothing is asked of the rest.
  abbrev no_matter : Elsewhere client q.view request others
  no_matter = record { Holds = λ t. Unit; is_elsewhere = λ t u same h. tt; kept = λ i t h. tt }

  -- A request converges among others as well: for documented libraries and a client that is quiet
  -- but for what they do, and whose calls each concern one object, let them do what they like
  -- before each call, except to the cluster and to its five children. Then one request succeeds
  -- from any state that holds the cluster with a count of workers. Afterwards all five children are
  -- there, the workers with the count asked for and one coordinator; the status of the cluster, and
  -- nothing else of it, has the count of available workers; and the request comes back after five
  -- seconds exactly if that is not the count asked for.
  pub reconcile_converges_among :
      (s : client.State)
      → cluster.spec.workers ≡ some workers
      → q.view s Kind.presto_cluster request ≡ some cluster
      → HasMaps cluster
      → (t : client.State × ℕ) × (reconcile lib (among client others.act) request (s, 0)
          ≡ returns (result_for (available client q request t.0) workers, none) t)
        × IsSettled client q request workers t.0
        × (q.view t.0 Kind.presto_cluster request
            ≡ some (with_status cluster (available client q request t.0)))
  reconcile_converges_among s asked found maps =
      let (u, alone, settled, kept) =
        reconcile_converges lib doc client q request workers cluster asked s found maps in
      let (t, ran, r) = Matches-returns client q.view request others no_matter _ _ u (
        subst (Matches client q.view request others no_matter _) alone
          (reconcile-among lib doc client q.view loc request others no_matter s tt)) in
      let same = available-AlikeFor client q request t.0 u r.same in
      (
        t,
        ran ∙ ap (λ a. returns (result_for a workers, none) t) (sym same),
        IsSettled-AlikeFor client q request workers u t.0 r.same settled,
        r.same _ _ itself ∙ kept ∙ ap (λ a. some (with_status cluster a)) (sym same),
      )
