-- ===== src/Controller/Runs.antt =====
-- Many requests in a row, for any clusters in any order.
use presto_on_k8s_operator.Api.{PrestoCluster, PrestoClusterSpec}
use presto_on_k8s_operator.Api.DeepCopy.{HasMaps}
use presto_on_k8s_operator.Controller.{reconcile}
use presto_on_k8s_operator.Controller.Alike.{IsSettled-AlikeFor}
use presto_on_k8s_operator.Controller.Converges.{reconcile_converges}
use presto_on_k8s_operator.Controller.Among.Results.{reconcile_leaves_others}
use presto_on_k8s_operator.Controller.Isolated.{BelongsTo, itself}
use presto_on_k8s_operator.Kube.Client.Local.{IsLocal}
use presto_on_k8s_operator.Go.{final}
use presto_on_k8s_operator.Kube.Client.{Client, Kind}
use presto_on_k8s_operator.Kube.Client.Quiet.{IsQuiet}
use presto_on_k8s_operator.Kube.Machinery.{Machinery, IsDocumented}
use presto_on_k8s_operator.Kube.Meta.{NamespacedName}
use presto_on_k8s_operator.Prelude.{◌≡◌, refl, sym, ◌∙◌, ap, subst, inl, inr, some}
use presto_on_k8s_operator.Prelude.Int.{ℤ}
use presto_on_k8s_operator.Reconciler.Alike.{same_or_not}
use presto_on_k8s_operator.Reconciler.Settled.{IsSettled}
use presto_on_k8s_operator.Status.Quiet.{with_status, available}

module _ (lib : Machinery) (doc : IsDocumented lib) (client : Client) (q : IsQuiet client)
    (loc : IsLocal client q.view) where
  -- Requests that are served one after the other, each by a whole reconciliation, however it ends.
  pub data Runs (s : client.State) : client.State → Type 0 where
    idle : Runs s s
    serve :
        {t : client.State}
        → Runs s t
        → (request : NamespacedName) → Runs s (final (reconcile lib client request t))

  module _ (owner : NamespacedName) (workers : ℤ) (spec : PrestoClusterSpec) where
    -- The cluster is there with its spec, and settled.
    pub record IsKept (s : client.State) : Type 0 where
      pub cluster : PrestoCluster
      pub found : q.view s Kind.presto_cluster owner ≡ some cluster
      pub same_spec : cluster.spec ≡ spec
      pub asked : cluster.spec.workers ≡ some workers
      pub maps : HasMaps cluster
      pub settled : IsSettled client q owner workers s

    -- A request for the cluster itself settles it.
    IsKept-own :
        (s : client.State) (cluster : PrestoCluster)
        → q.view s Kind.presto_cluster owner ≡ some cluster
        → cluster.spec ≡ spec
        → cluster.spec.workers ≡ some workers
        → HasMaps cluster
        → IsKept (final (reconcile lib client owner s))
    IsKept-own s cluster found same asked maps =
        let (t, ran, settled, kept) =
          reconcile_converges lib doc client q owner workers cluster asked s found maps in
        subst IsKept (ap final (sym ran)) (record {
          cluster = with_status cluster (available client q owner t);
          found = kept;
          same_spec = same;
          asked = asked;
          maps = record {
            coordinator_etc = maps.coordinator_etc;
            worker_etc = maps.worker_etc;
            catalog = maps.catalog;
            core_site = maps.core_site;
          };
          settled = settled;
        })

    -- What the cluster owns being as it was, it stays settled.
    IsKept-unchanged :
        (s t : client.State)
        → ((k : Kind) (n : NamespacedName) → BelongsTo owner k n → q.view t k n ≡ q.view s k n)
        → IsKept s
        → IsKept t
    IsKept-unchanged s t same h = record {
      cluster = h.cluster;
      found = same _ _ itself ∙ h.found;
      same_spec = h.same_spec;
      asked = h.asked;
      maps = h.maps;
      settled = IsSettled-AlikeFor client q owner workers s t same h.settled;
    }

    IsKept-reconcile :
        (s : client.State) (request : NamespacedName)
        → IsKept s
        → IsKept (final (reconcile lib client request s))
    IsKept-reconcile s request before = elim (same_or_not owner request) [
      | inl same ↦
          subst (λ r. IsKept (final (reconcile lib client r s))) same
            (IsKept-own s before.cluster before.found before.same_spec before.asked before.maps)
      | inr other ↦
          IsKept-unchanged s (final (reconcile lib client request s))
            (λ k n owned.
              reconcile_leaves_others lib doc client q.view loc request owner s k n other owned)
            before
    ]

    Runs-IsKept : (s t : client.State) → Runs s t → IsKept s → IsKept t
    Runs-IsKept s t idle h = h
    Runs-IsKept s u (serve {t} run request) h = IsKept-reconcile t request (Runs-IsKept s t run h)

  -- For documented libraries and a quiet client whose calls each concern one object, once a request
  -- for a cluster with a complete spec has been served, the cluster is settled for good: requests in
  -- any number and order, for any clusters, there or not, with complete specs or not, and however
  -- they end, keep its children there with the counts asked for, and its spec as it is.
  pub reconcile-Runs-IsKept :
      (owner : NamespacedName) (workers : ℤ) (cluster : PrestoCluster) (s u : client.State)
      → q.view s Kind.presto_cluster owner ≡ some cluster
      → cluster.spec.workers ≡ some workers
      → HasMaps cluster
      → Runs (final (reconcile lib client owner s)) u
      → IsKept owner workers cluster.spec u
  reconcile-Runs-IsKept owner workers cluster s u found asked maps run =
      Runs-IsKept owner workers cluster.spec (final (reconcile lib client owner s)) u run
        (IsKept-own owner workers cluster.spec s cluster found refl asked maps)
