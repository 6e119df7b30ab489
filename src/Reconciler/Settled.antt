-- ===== src/Reconciler/Settled.antt =====
-- After the five steps every child is there, and a second round changes nothing.
use presto_on_k8s_operator.Desired.Keys.{
  presto_config_map_key, catalog_config_map_key, coordinator_deployment_key,
  coordinator_service_key, worker_deployment_key,
}
use presto_on_k8s_operator.Kube.Apps.{Deployment}
use presto_on_k8s_operator.Kube.Client.{Client, Kind}
use presto_on_k8s_operator.Kube.Client.Quiet.{IsQuiet}
use presto_on_k8s_operator.Kube.Meta.{NamespacedName, key_of}
use presto_on_k8s_operator.Prelude.{◌≡◌, sym, ◌∙◌, ◌≢◌, none, some, inl, inr}
use presto_on_k8s_operator.Prelude.Int.{ℤ, pos}
use presto_on_k8s_operator.Reconciler.Children.{
  Children, after_presto, after_catalog, after_coordinator, after_service, after_children,
  presto_ne_catalog, coordinator_ne_worker,
}
use presto_on_k8s_operator.Reconciler.Plan.{
  view-ensure, view-ensure_other, view-scale, view-scale_other, ensure_present, scale_scaled,
}

module _ (client : Client) (q : IsQuiet client) (request : NamespacedName) (workers : ℤ) where
  -- A deployment that the server holds with the given count of replicas.
  abbrev pub Runs : client.State → NamespacedName → ℤ → Type 0
  Runs s n r =
      (now : Deployment) × (q.view s Kind.deployment n ≡ some now) × (now.spec.replicas ≡ some r)

  -- The five children are there: one coordinator, and as many workers as asked for.
  pub record IsSettled (s : client.State) : Type 0 where
    pub presto_held : q.view s Kind.config_map (presto_config_map_key request) ≢ none
    pub catalog_held : q.view s Kind.config_map (catalog_config_map_key request) ≢ none
    pub coordinator_runs : Runs s (coordinator_deployment_key request) (pos 1)
    pub service_held : q.view s Kind.service (coordinator_service_key request) ≢ none
    pub worker_runs : Runs s (worker_deployment_key request) workers

module _ (client : Client) (q : IsQuiet client) (request : NamespacedName) (workers : ℤ)
    (c : Children request workers) where
  module _ (s : client.State) where
    presto_after :
        q.view
          (after_children client q request workers c s)
          Kind.config_map
          (key_of c.presto.metadata)
        ≡ q.view
            (after_presto client q request workers c s)
            Kind.config_map
            (key_of c.presto.metadata)
    unfolding after_children
    presto_after =
        view-scale_other client q c.worker workers _ Kind.config_map _ (inl (λ e. cc))
        ∙ view-ensure_other client q Kind.service c.service _ Kind.config_map _ (inl (λ e. cc))
        ∙ view-scale_other client q c.coordinator (pos 1) _ Kind.config_map _ (inl (λ e. cc))
        ∙ view-ensure_other client q Kind.config_map c.catalog _ Kind.config_map _
            (inr (λ e. presto_ne_catalog client q request workers c (sym e)))

    catalog_after :
        q.view
          (after_children client q request workers c s)
          Kind.config_map
          (key_of c.catalog.metadata)
        ≡ q.view
            (after_catalog client q request workers c s)
            Kind.config_map
            (key_of c.catalog.metadata)
    unfolding after_children
    catalog_after =
        view-scale_other client q c.worker workers _ Kind.config_map _ (inl (λ e. cc))
        ∙ view-ensure_other client q Kind.service c.service _ Kind.config_map _ (inl (λ e. cc))
        ∙ view-scale_other client q c.coordinator (pos 1) _ Kind.config_map _ (inl (λ e. cc))

    coordinator_after :
        q.view
          (after_children client q request workers c s)
          Kind.deployment
          (key_of c.coordinator.metadata)
        ≡ q.view
            (after_coordinator client q request workers c s)
            Kind.deployment
            (key_of c.coordinator.metadata)
    unfolding after_children
    coordinator_after =
        view-scale_other client q c.worker workers _ Kind.deployment _
          (inr (λ e. coordinator_ne_worker client q request workers c (sym e)))
        ∙ view-ensure_other client q Kind.service c.service _ Kind.deployment _ (inl (λ e. cc))

    service_after :
        q.view
          (after_children client q request workers c s)
          Kind.service
          (key_of c.service.metadata)
        ≡ q.view
            (after_service client q request workers c s)
            Kind.service
            (key_of c.service.metadata)
    unfolding after_children
    service_after = view-scale_other client q c.worker workers _ Kind.service _ (inl (λ e. cc))

    pub after_children-IsSettled :
        IsSettled client q request workers (after_children client q request workers c s)
    after_children-IsSettled = record {
      presto_held =
          rw (← c.presto_key, presto_after) (view-ensure client q Kind.config_map c.presto s);
      catalog_held =
          rw (← c.catalog_key, catalog_after) (view-ensure client q Kind.config_map c.catalog _);
      coordinator_runs =
          rw (← c.coordinator_key, coordinator_after)
            (view-scale client q c.coordinator (pos 1) _ c.coordinator_count);
      service_held =
          rw (← c.service_key, service_after) (view-ensure client q Kind.service c.service _);
      worker_runs =
          rw (← c.worker_key)
            (unfold after_children in view-scale client q c.worker workers _ c.worker_count);
    }

    -- In a settled state a round of the reconciler writes nothing.
    pub after_children_settled :
        IsSettled client q request workers s → after_children client q request workers c s ≡ s
    unfolding after_children
    after_children_settled h =
        let (d, d_held, d_count) = h.coordinator_runs in
        let (e, e_held, e_count) = h.worker_runs in
        rw (
          ensure_present client q Kind.config_map c.presto s (rw c.presto_key h.presto_held),
          ensure_present client q Kind.config_map c.catalog s (rw c.catalog_key h.catalog_held),
          scale_scaled client q c.coordinator d (pos 1) s (rw c.coordinator_key d_held) d_count,
          ensure_present client q Kind.service c.service s (rw c.service_key h.service_held),
          scale_scaled client q c.worker e workers s (rw c.worker_key e_held) e_count,
        )
