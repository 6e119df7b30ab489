-- ===== src/Controller/Requeues.antt =====
-- controllers/controller.go with the requeued requests of its results: while a result asks for it,
-- the request is served again, after others have had their turn.
use presto_on_k8s_operator.Api.{PrestoCluster}
use presto_on_k8s_operator.Api.DeepCopy.{HasMaps}
use presto_on_k8s_operator.Controller.{reconcile}
use presto_on_k8s_operator.Controller.Converges.{reconcile_converges}
use presto_on_k8s_operator.Controller.Rollout.{IsRollout, rollout-IsSettled}
use presto_on_k8s_operator.Controller.Round.{
  desired_children, after_round, cluster-after_round, reconcile-after, available-after_status,
}
use presto_on_k8s_operator.Go.{returns, final}
use presto_on_k8s_operator.Kube.Client.{Client, Kind}
use presto_on_k8s_operator.Kube.Client.Quiet.{IsQuiet}
use presto_on_k8s_operator.Kube.Machinery.{Machinery, IsDocumented}
use presto_on_k8s_operator.Kube.Meta.{NamespacedName}
use presto_on_k8s_operator.Prelude.{
  ℕ, zero, suc, ◌≤◌, ◌<◌, ◌≡◌, refl, sym, ◌∙◌, ap, ◌≢◌, inl, inr, none, some, true, false, arith,
  Bool-cases,
}
use presto_on_k8s_operator.Prelude.Distance.{distance, distance-zero}
use presto_on_k8s_operator.Prelude.Int.{ℤ, ◌==◌, ==_iff}
use presto_on_k8s_operator.Reconciler.{ReconcileResult, no_requeue}
use presto_on_k8s_operator.Reconciler.Settled.{IsSettled, after_children_settled}
use presto_on_k8s_operator.Status.Quiet.{available, with_status, result_for}

true-ne-false : true ≢ false
true-ne-false e = cc

module _ (lib : Machinery) (doc : IsDocumented lib) (client : Client) (q : IsQuiet client)
    (request : NamespacedName) (rollout : client.State → client.State)
    (rolls : IsRollout client q request rollout) where
  -- A request that succeeded and was served again `n` times, as each result but the last asked.
  pub data Served : client.State → ℕ → client.State → Type 0 where
    finished :
        {s t : client.State}
        → reconcile lib client request s ≡ returns (no_requeue, none) t
        → Served s 0 t
    requeued :
        {n : ℕ} {s t u : client.State} (result : ReconcileResult)
        → reconcile lib client request s ≡ returns (result, none) t
        → result.requeue ≡ true
        → 0 < result.requeue_after
        → Served (rollout t) n u
        → Served s (suc n) u

  module _ (workers : ℤ) (cluster : PrestoCluster) (asked : cluster.spec.workers ≡ some workers)
      (maps : HasMaps cluster) where
    -- The work is done: the children run as asked for, and the status says so.
    abbrev pub IsDone : client.State → Type 0
    IsDone t =
        IsSettled client q request workers t
        × (available client q request t ≡ workers)
        × (q.view t Kind.presto_cluster request ≡ some (with_status cluster workers))

    -- The cluster, with a count in its status.
    abbrev Holds : client.State → Type 0
    Holds s = (n : ℤ) × (q.view s Kind.presto_cluster request ≡ some (with_status cluster n))

    status_maps : (n : ℤ) → HasMaps (with_status cluster n)
    status_maps n = record {
      coordinator_etc = maps.coordinator_etc;
      worker_etc = maps.worker_etc;
      catalog = maps.catalog;
      core_site = maps.core_site;
    }

    result_for_short :
        (a : ℤ)
        → a ≢ workers
        → ((result_for a workers).requeue ≡ true) × (0 < (result_for a workers).requeue_after)
    result_for_short a short = elim (Bool-cases (a == workers)) [
      | inl same ↦ absurd (short ((==_iff a workers).0 same))
      | inr other ↦ rw other (refl, omega arith)
    ]

    result_for_full : result_for workers workers ≡ no_requeue
    result_for_full = rw ((==_iff workers workers).1 refl) refl

    -- A request in a settled state.
    next_request :
        (s : client.State)
        → Holds s
        → IsSettled client q request workers s
        → (t : client.State) × (reconcile lib client request s
            ≡ returns (result_for (available client q request t) workers, none) t)
          × IsSettled client q request workers t
          × (q.view t Kind.presto_cluster request
              ≡ some (with_status cluster (available client q request t)))
          × (available client q request t ≡ available client q request s)
    unfolding after_round
    next_request s (n, found) h =
        let c = with_status cluster n in
        let (t, ran, settled, kept) =
          reconcile_converges lib doc client q request workers c asked s found (status_maps n) in
        let after =
          reconcile-after lib doc client q request workers c asked s found (status_maps n) in
        let own = q.view_key s Kind.presto_cluster request c found in
        (
          t,
          ran,
          settled,
          kept,
          ap (λ o. available client q request (final o)) (sym ran ∙ after)
              ∙ available-after_status lib doc client q request workers c asked _
                  (cluster-after_round lib doc client q request workers c asked s found)
              ∙ ap (available client q request) (
                  after_children_settled client q request workers
                    (desired_children lib doc c own asked) s h),
        )

    finish :
        (m : ℕ) (s t : client.State)
        → reconcile lib client request s
          ≡ returns (result_for (available client q request t) workers, none) t
        → IsSettled client q request workers t
        → q.view t Kind.presto_cluster request
          ≡ some (with_status cluster (available client q request t))
        → available client q request t ≡ workers
        → (n : ℕ) × (u : client.State) × (n ≤ m) × Served s n u × IsDone u
    finish m s t ran settled kept full = (
      0,
      t,
      omega arith,
      finished (
          ran
          ∙ ap (λ r. returns (r, none) t) (ap (λ a. result_for a workers) full ∙ result_for_full)),
      (settled, full, kept ∙ ap (λ a. some (with_status cluster a)) full),
    )

    -- What is left to do after a request that leaves the state `t`.
    after-Served :
        (m : ℕ) (s t : client.State)
        → reconcile lib client request s
          ≡ returns (result_for (available client q request t) workers, none) t
        → IsSettled client q request workers t
        → q.view t Kind.presto_cluster request
          ≡ some (with_status cluster (available client q request t))
        → distance (available client q request t) workers ≤ m
        → (n : ℕ) × (u : client.State) × (n ≤ m) × Served s n u × IsDone u
    after-Served zero s t ran settled kept near =
        finish zero s t ran settled kept (distance-zero _ _ (omega (arith, near)))
    after-Served (suc m) s t ran settled kept near =
        elim (Bool-cases (available client q request t == workers)) [
          | inl full ↦ finish (suc m) s t ran settled kept ((==_iff _ workers).0 full)
          | inr other ↦
              let short = λ (same : available client q request t ≡ workers).
                true-ne-false (sym ((==_iff _ workers).1 same) ∙ other) in
              let (settled', less) =
                rollout-IsSettled client q request rollout rolls workers t settled short in
              let found = rolls.others t Kind.presto_cluster request (inl (λ e. cc)) ∙ kept in
              let (t', ran', settled'', kept', same) =
                next_request (rollout t) (_, found) settled' in
              let (n, u, few, run, done) =
                after-Served m (rollout t) t' ran' settled'' kept'
                  (omega (arith, less, near, ap (λ a. distance a workers) same)) in
              let (asks, later) = result_for_short _ short in
              (suc n, u, omega (arith, few), requeued _ ran asks later run, done)
        ]

    -- For documented libraries, a quiet client, and others that bring the workers closer to the
    -- count asked for between two requests, the requeueing ends: from any state that holds the
    -- cluster with a complete spec, the request is served again at most as many times as workers
    -- are missing or left over after it was first served. Then the children run as asked for and
    -- the status shows all workers.
    pub requeues_end :
        (s : client.State)
        → q.view s Kind.presto_cluster request ≡ some cluster
        → (n : ℕ) × (u : client.State) × (n
            ≤ distance
                (available client q request (final (reconcile lib client request s)))
                workers)
          × Served s n u
          × IsDone u
    requeues_end s found =
        let (t, ran, settled, kept) =
          reconcile_converges lib doc client q request workers cluster asked s found maps in
        after-Served _ s t ran settled kept
          (omega (arith, ap (λ o. distance (available client q request (final o)) workers) ran))
