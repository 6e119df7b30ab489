-- ===== src/Controller/Rollout.antt =====
-- Between two requests for a cluster: the rollout of its worker deployment by others.
use presto_on_k8s_operator.Desired.Keys.{worker_deployment_key}
use presto_on_k8s_operator.Kube.Apps.{Deployment}
use presto_on_k8s_operator.Kube.Client.{Client, Kind}
use presto_on_k8s_operator.Kube.Client.Quiet.{IsQuiet, Differ}
use presto_on_k8s_operator.Kube.Meta.{NamespacedName}
use presto_on_k8s_operator.Prelude.{◌<◌, ◌≡◌, sym, ◌∙◌, ap, ◌≢◌, inl, inr, some}
use presto_on_k8s_operator.Prelude.Distance.{distance}
use presto_on_k8s_operator.Prelude.Int.{ℤ}
use presto_on_k8s_operator.Reconciler.Settled.{IsSettled}
use presto_on_k8s_operator.Status.Quiet.{available}
use presto_on_k8s_operator.Utils.Names.{coordinator-ne-worker}

module _ (client : Client) (q : IsQuiet client) (request : NamespacedName) where
  -- The cluster's side of a rollout, which runs between two requests: the worker deployment keeps
  -- what was asked for, and comes closer to it until it is there. Nothing else that the operator
  -- reads is touched.
  pub record IsRollout (rollout : client.State → client.State) : Type 0 where
    pub others :
        (s : client.State) (j : Kind) (n : NamespacedName)
        → Differ Kind.deployment (worker_deployment_key request) j n
        → q.view (rollout s) j n ≡ q.view s j n
    pub closer :
        (s : client.State) (d : Deployment) (r : ℤ)
        → q.view s Kind.deployment (worker_deployment_key request) ≡ some d
        → d.spec.replicas ≡ some r
        → d.status.available_replicas ≢ r
        → (e : Deployment) × (q.view (rollout s) Kind.deployment (worker_deployment_key request)
            ≡ some e)
          × (e.spec.replicas ≡ some r)
          × (distance e.status.available_replicas r < distance d.status.available_replicas r)

  available-held :
      (s : client.State) (d : Deployment)
      → q.view s Kind.deployment (worker_deployment_key request) ≡ some d
      → available client q request s ≡ d.status.available_replicas
  unfolding available
  available-held s d held = rw (held, available)

  module _ (rollout : client.State → client.State) (rolls : IsRollout rollout) (workers : ℤ) where
    -- A settled cluster stays settled, and comes closer.
    pub rollout-IsSettled :
        (s : client.State)
        → IsSettled client q request workers s
        → available client q request s ≢ workers
        → IsSettled client q request workers (rollout s)
          × (distance (available client q request (rollout s)) workers
              < distance (available client q request s) workers)
    rollout-IsSettled s h short =
        let (c, c_held, c_count) = h.coordinator_runs in
        let (d, d_held, d_count) = h.worker_runs in
        let here = available-held s d d_held in
        let (e, e_held, e_count, less) =
          rolls.closer s d workers d_held d_count (λ same. short (here ∙ same)) in
        let config = λ (n : NamespacedName). rolls.others s Kind.config_map n (inl (λ e. cc)) in
        (
          record {
            presto_held = rw (config _) h.presto_held;
            catalog_held = rw (config _) h.catalog_held;
            coordinator_runs = (
              c,
              rolls.others s Kind.deployment _ (
                    inr (λ e.
                      coordinator-ne-worker request.name request.name (sym (ap (λ n. n.name) e))))
                  ∙ c_held,
              c_count,
            );
            service_held = rw (rolls.others s Kind.service _ (inl (λ e. cc))) h.service_held;
            worker_runs = (e, e_held, e_count);
          },
          rw (here, available-held (rollout s) e e_held) less,
        )
