-- ===== src/Controller/Round.antt =====
-- One request when nobody interferes, as a function on states.
use presto_on_k8s_operator.Api.{PrestoCluster}
use presto_on_k8s_operator.Api.DeepCopy.{HasMaps}
use presto_on_k8s_operator.Controller.{reconcile}
use presto_on_k8s_operator.Desired.{get_desired_cluster_state}
use presto_on_k8s_operator.Desired.ConfigMaps.{
  get_desired_presto_config_map, get_desired_catalog_config_map,
}
use presto_on_k8s_operator.Desired.Deployments.{
  get_desired_coordinator_deployment, get_desired_worker_deployment,
}
use presto_on_k8s_operator.Desired.Keys.{
  desired_keys, presto_config_map_key, catalog_config_map_key, coordinator_deployment_key,
  coordinator_service_key, worker_deployment_key,
}
use presto_on_k8s_operator.Desired.Service.{get_desired_coordinator_service}
use presto_on_k8s_operator.Go.{returns}
use presto_on_k8s_operator.Inspector.Quiet.{held, inspect-held}
use presto_on_k8s_operator.Kube.Client.{Client, Kind}
use presto_on_k8s_operator.Kube.Client.Quiet.{IsQuiet}
use presto_on_k8s_operator.Kube.Machinery.{Machinery, IsDocumented}
use presto_on_k8s_operator.Kube.Meta.{NamespacedName, key_of}
use presto_on_k8s_operator.Prelude.{◌≡◌, refl, sym, ◌∙◌, ap, subst, ◌≢◌, none, some, inl, arith}
use presto_on_k8s_operator.Prelude.Int.{ℤ, pos}
use presto_on_k8s_operator.Reconciler.{no_requeue, reconcile_children}
use presto_on_k8s_operator.Reconciler.Children.{Children, after_children, view-after_children_other}
use presto_on_k8s_operator.Reconciler.Refines.{reconcile_children-after}
use presto_on_k8s_operator.Reconciler.Settled.{IsSettled}
use presto_on_k8s_operator.Status.Quiet.{
  result_for, available, after_status, update_presto_cluster_status-after, view-after_status_other,
}

pub coordinator_replicas :
    (lib : Machinery) (c : PrestoCluster)
    → (get_desired_coordinator_deployment lib c).spec.replicas ≡ some (pos 1)
unfolding get_desired_coordinator_deployment
coordinator_replicas lib c = refl

pub worker_replicas :
    (lib : Machinery) (c : PrestoCluster)
    → (get_desired_worker_deployment lib c).spec.replicas ≡ c.spec.workers
unfolding get_desired_worker_deployment
worker_replicas lib c = refl

-- The desired objects of a cluster, under the keys that belong to its own.
abbrev pub desired_children :
    (lib : Machinery) (doc : IsDocumented lib) (cluster : PrestoCluster) {request : NamespacedName}
    {workers : ℤ}
    → key_of cluster.metadata ≡ request
    → cluster.spec.workers ≡ some workers
    → Children request workers
desired_children lib doc cluster own asked = record {
  presto = get_desired_presto_config_map lib cluster;
  catalog = get_desired_catalog_config_map lib cluster;
  coordinator = get_desired_coordinator_deployment lib cluster;
  service = get_desired_coordinator_service lib cluster;
  worker = get_desired_worker_deployment lib cluster;
  presto_key = (desired_keys lib doc cluster).0 ∙ ap presto_config_map_key own;
  catalog_key = (desired_keys lib doc cluster).1 ∙ ap catalog_config_map_key own;
  coordinator_key = (desired_keys lib doc cluster).2 ∙ ap coordinator_deployment_key own;
  service_key = (desired_keys lib doc cluster).3 ∙ ap coordinator_service_key own;
  worker_key = (desired_keys lib doc cluster).4 ∙ ap worker_deployment_key own;
  coordinator_count = coordinator_replicas lib cluster;
  worker_count = worker_replicas lib cluster ∙ asked;
}

module _ (lib : Machinery) (doc : IsDocumented lib) (client : Client) (q : IsQuiet client)
    (request : NamespacedName) where
  module _ (workers : ℤ) (cluster : PrestoCluster)
      (asked : cluster.spec.workers ≡ some workers) where
    unfoldable pub after_round :
        (s : client.State) → q.view s Kind.presto_cluster request ≡ some cluster → client.State
    after_round s found =
        after_children client q request workers
          (desired_children lib doc cluster (q.view_key s Kind.presto_cluster request cluster found)
            asked)
          s

    -- No step of the reconciler touches the cluster itself.
    pub cluster-after_round :
        (s : client.State) (found : q.view s Kind.presto_cluster request ≡ some cluster)
        → q.view (after_round s found) Kind.presto_cluster request ≡ some cluster
    unfolding after_round
    cluster-after_round s found =
        view-after_children_other client q request workers _ s Kind.presto_cluster request
          (inl (λ e. cc)) (inl (λ e. cc)) (inl (λ e. cc)) (inl (λ e. cc)) (inl (λ e. cc))
        ∙ found

    reconcile_children-round :
        (s : client.State) (found : q.view s Kind.presto_cluster request ≡ some cluster)
        → reconcile_children client
            (held client q request s)
            (get_desired_cluster_state lib (q.view s Kind.presto_cluster request))
            s
          ≡ returns (no_requeue, none) (after_round s found)
    unfolding get_desired_cluster_state after_round
    reconcile_children-round s found =
        subst
          (λ v.
            reconcile_children client (held client q request s) (get_desired_cluster_state lib v) s
            ≡ returns (no_requeue, none) (after_round s found))
          (sym found)
          (reconcile_children-after client q request workers
            (desired_children lib doc cluster
              (q.view_key s Kind.presto_cluster request cluster found) asked)
            s cluster found)

    pub reconcile-after :
        (s : client.State) (found : q.view s Kind.presto_cluster request ≡ some cluster)
        → HasMaps cluster
        → reconcile lib client request s
          ≡ returns
              (result_for (available client q request (after_round s found)) workers, none)
              (after_status client q request cluster (after_round s found))
    unfolding reconcile
    reconcile-after s found maps = ground (
      arith,
      inspect-held client q request s,
      reconcile_children-round s found,
      update_presto_cluster_status-after client q request cluster lib doc workers
          (after_round s found) maps asked (cluster-after_round s found),
    )

    -- What a request does to the state.
    unfoldable pub after_reconcile :
        (s : client.State) → q.view s Kind.presto_cluster request ≡ some cluster → client.State
    after_reconcile s found = after_status client q request cluster (after_round s found)

    pub available-after_status :
        (s : client.State)
        → q.view s Kind.presto_cluster request ≡ some cluster
        → available client q request (after_status client q request cluster s)
          ≡ available client q request s
    unfolding available
    available-after_status s found = rw (
      view-after_status_other client q request cluster s Kind.deployment
          (worker_deployment_key request) found (inl (λ e. cc)),
      available,
    )

    pub IsSettled-after_status :
        (s : client.State)
        → q.view s Kind.presto_cluster request ≡ some cluster
        → IsSettled client q request workers s
        → IsSettled client q request workers (after_status client q request cluster s)
    IsSettled-after_status s found h =
        let same = λ (j : Kind) (n : NamespacedName) (d : Kind.presto_cluster ≢ j).
          view-after_status_other client q request cluster s j n found (inl d) in
        let (d, d_held, d_count) = h.coordinator_runs in
        let (e, e_held, e_count) = h.worker_runs in
        record {
          presto_held = rw (same Kind.config_map _ (λ e. cc)) h.presto_held;
          catalog_held = rw (same Kind.config_map _ (λ e. cc)) h.catalog_held;
          coordinator_runs = (d, rw (same Kind.deployment _ (λ e. cc)) d_held, d_count);
          service_held = rw (same Kind.service _ (λ e. cc)) h.service_held;
          worker_runs = (e, rw (same Kind.deployment _ (λ e. cc)) e_held, e_count);
        }
