-- ===== src/Controller/Alike.antt =====
-- States that hold the same of a cluster, and what the steps of a request make of them.
use presto_on_k8s_operator.Api.{PrestoCluster}
use presto_on_k8s_operator.Api.DeepCopy.{HasMaps}
use presto_on_k8s_operator.Controller.Isolated.{
  BelongsTo, itself, presto_config, catalog_config, coordinator, service, worker,
}
use presto_on_k8s_operator.Kube.Client.{Client, Kind}
use presto_on_k8s_operator.Kube.Client.Quiet.{IsQuiet}
use presto_on_k8s_operator.Kube.Meta.{NamespacedName}
use presto_on_k8s_operator.Prelude.{◌≡◌, sym, ◌∙◌, ap, inl, none, some}
use presto_on_k8s_operator.Prelude.Int.{ℤ, pos}
use presto_on_k8s_operator.Reconciler.Alike.{Alike, ensure-Alike, scale-Alike}
use presto_on_k8s_operator.Reconciler.Children.{
  Children, after_children, after_presto, after_catalog, after_coordinator, after_service,
}
use presto_on_k8s_operator.Reconciler.Settled.{IsSettled}
use presto_on_k8s_operator.Status.Quiet.{
  available, after_status, with_status, view-after_status, view-after_status_other,
}

module _ (client : Client) (q : IsQuiet client) (owner : NamespacedName) where
  -- The two states hold the same of a cluster and of what belongs to it.
  abbrev pub AlikeFor : client.State → client.State → Type 0
  AlikeFor s t = (k : Kind) (n : NamespacedName) → BelongsTo owner k n → Alike client q s t k n

  pub available-AlikeFor :
      (s t : client.State) → AlikeFor s t → available client q owner s ≡ available client q owner t
  unfolding available
  available-AlikeFor s t same =
      ap (λ v. elim v [ none ↦ pos 0 | some d ↦ d.status.available_replicas ])
        (same Kind.deployment _ worker)

  pub after_children-AlikeFor :
      (workers : ℤ) (c : Children owner workers) (s t : client.State)
      → AlikeFor s t
      → AlikeFor
          (after_children client q owner workers c s)
          (after_children client q owner workers c t)
  unfolding after_children
  after_children-AlikeFor workers c s t same0 =
      let same1 : AlikeFor (after_presto client q owner workers c s)
          (after_presto client q owner workers c t) =
        λ k n owned.
          ensure-Alike client q Kind.config_map c.presto s t
            (rw c.presto_key (same0 _ _ presto_config)) k n (same0 k n owned) in
      let same2 : AlikeFor (after_catalog client q owner workers c s)
          (after_catalog client q owner workers c t) =
        λ k n owned.
          ensure-Alike client q Kind.config_map c.catalog _ _
            (rw c.catalog_key (same1 _ _ catalog_config)) k n (same1 k n owned) in
      let same3 : AlikeFor (after_coordinator client q owner workers c s)
          (after_coordinator client q owner workers c t) =
        λ k n owned.
          scale-Alike client q c.coordinator (pos 1) _ _
            (rw c.coordinator_key (same2 _ _ coordinator)) k n (same2 k n owned) in
      let same4 : AlikeFor (after_service client q owner workers c s)
          (after_service client q owner workers c t) =
        λ k n owned.
          ensure-Alike client q Kind.service c.service _ _ (rw c.service_key (same3 _ _ service)) k
            n (same3 k n owned) in
      λ k n owned.
        scale-Alike client q c.worker workers _ _ (rw c.worker_key (same4 _ _ worker)) k n
          (same4 k n owned)

  pub after_status-AlikeFor :
      (cluster : PrestoCluster) (s t : client.State)
      → q.view s Kind.presto_cluster owner ≡ some cluster
      → q.view t Kind.presto_cluster owner ≡ some cluster
      → AlikeFor s t
      → AlikeFor (after_status client q owner cluster s) (after_status client q owner cluster t)
  after_status-AlikeFor cluster s t found_s found_t same k n itself =
      view-after_status client q owner cluster s found_s
      ∙ ap (λ a. some (with_status cluster a)) (available-AlikeFor s t same)
      ∙ sym (view-after_status client q owner cluster t found_t)
  after_status-AlikeFor cluster s t found_s found_t same k n owned =
      let differ = inl (λ e. cc) in
      view-after_status_other client q owner cluster s k n found_s differ
      ∙ same k n owned
      ∙ sym (view-after_status_other client q owner cluster t k n found_t differ)

module _ (client : Client) (q : IsQuiet client) (owner : NamespacedName) where
  -- What the cluster owns being as it was, it stays settled.
  pub IsSettled-AlikeFor :
      (workers : ℤ) (s t : client.State)
      → AlikeFor client q owner t s
      → IsSettled client q owner workers s
      → IsSettled client q owner workers t
  IsSettled-AlikeFor workers s t same h =
      let (d, d_held, d_count) = h.coordinator_runs in
      let (e, e_held, e_count) = h.worker_runs in
      record {
        presto_held = rw (same _ _ presto_config) h.presto_held;
        catalog_held = rw (same _ _ catalog_config) h.catalog_held;
        coordinator_runs = (d, same _ _ coordinator ∙ d_held, d_count);
        service_held = rw (same _ _ service) h.service_held;
        worker_runs = (e, same _ _ worker ∙ e_held, e_count);
      }

module _ (client : Client) (q : IsQuiet client) where
  -- A cluster of which a state holds a complete spec.
  pub record IsReady (s : client.State) (owner : NamespacedName) : Type 0 where
    pub cluster : PrestoCluster
    pub workers : ℤ
    pub found : q.view s Kind.presto_cluster owner ≡ some cluster
    pub asked : cluster.spec.workers ≡ some workers
    pub maps : HasMaps cluster

  pub IsReady-after :
      (owner : NamespacedName) (s t : client.State)
      → IsReady s owner
      → AlikeFor client q owner t s
      → IsReady t owner
  IsReady-after owner s t ready kept = record {
    cluster = ready.cluster;
    workers = ready.workers;
    found = kept _ _ itself ∙ ready.found;
    asked = ready.asked;
    maps = ready.maps;
  }
