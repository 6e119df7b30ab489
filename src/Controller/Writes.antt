-- ===== src/Controller/Writes.antt =====
-- What a request writes, against a client that may fail at any call: the calls are recorded by a
-- client that wraps another.
pub mod Kept
pub mod Request
use presto_on_k8s_operator.Api.{PrestoCluster, PrestoClusterStatus, new_presto_cluster}
use presto_on_k8s_operator.Api.DeepCopy.{presto_cluster_deep_copy}
use presto_on_k8s_operator.Controller.{reconcile}
use presto_on_k8s_operator.Desired.{DesiredClusterState, get_desired_cluster_state}
use presto_on_k8s_operator.Desired.ConfigMaps.{
  get_desired_presto_config_map, get_desired_catalog_config_map,
}
use presto_on_k8s_operator.Desired.Deployments.{
  get_desired_coordinator_deployment, get_desired_worker_deployment,
}
use presto_on_k8s_operator.Desired.Service.{get_desired_coordinator_service}
use presto_on_k8s_operator.Go.{
  Outcome, Outcome-cases, Action, returns, panics, final, call, deref, pure, ◌>>=◌, ◌>>◌,
}
use presto_on_k8s_operator.Inspector.{
  InspectedClusterState, nothing_inspected, Reading, inspect, inspect_part, inspect_cluster,
  inspect_config_map, inspect_coordiator_deployment, inspect_coordinator_service,
  inspect_worker_deployment, inspect_deployment,
}
use presto_on_k8s_operator.Kube.Apps.{ConfigMap, Deployment, Service}
use presto_on_k8s_operator.Kube.Client.{Client, Kind, Object}
use presto_on_k8s_operator.Kube.Machinery.{Machinery}
use presto_on_k8s_operator.Kube.Meta.{NamespacedName}
use presto_on_k8s_operator.Prelude.{
  ◌≡◌, refl, sym, subst, ◌≢◌, ◌⊎◌, inl, inr, Option, none, some, is_some, List, [], ◌∷◌, All, arith,
  Option-cases, if◌then◌else◌, Bool-cases, Bool, true, false,
}
use presto_on_k8s_operator.Prelude.Int.{◌==◌}
use presto_on_k8s_operator.Text.{Text}
use presto_on_k8s_operator.Reconciler.{
  ReconcileResult, no_requeue, Effect, reconcile_children, reconcile_config_map, reconcile_service,
  reconcile_deployment, unless_failed, create_config_map, create_service, create_deployment,
  update_deployment, reconcile_presto_config_map, reconcile_catalog_config_map,
  reconcile_coordinator_deployment, reconcile_coordinator_service, reconcile_worker_deployment,
}
use presto_on_k8s_operator.Status.{
  update_presto_cluster_status, derive_cluster_status, current_deployment, update_cluster_status,
  record_count, requeue_unless_available,
}

-- A call that changes an object.
pub data Write : Type 0 where
  creating : (k : Kind) → Object k → Write
  updating : (k : Kind) → Object k → Write
  deleting : (k : Kind) → Object k → Write
  writing_status : PrestoCluster → Write

-- The client that records the writes, the last one first.
abbrev pub recording : Client → Client
recording client = record {
  State = client.State × List Write;
  Error = client.Error;
  ignore_not_found = client.ignore_not_found;
  get = λ k n z (s, log). let (r, t) = client.get k n z s in (r, (t, log));
  create = λ k o (s, log). let (r, t) = client.create k o s in (r, (t, creating k o ∷ log));
  update = λ k o (s, log). let (r, t) = client.update k o s in (r, (t, updating k o ∷ log));
  delete = λ k o (s, log). let (r, t) = client.delete k o s in (r, (t, deleting k o ∷ log));
  update_status =
      λ c (s, log). let (r, t) = client.update_status c s in (r, (t, writing_status c ∷ log));
  event = λ c t r m (s, log). (client.event c t r m s, log);
}

module _ (lib : Machinery) (client : Client) where
  -- A write that the operator makes for a cluster: the creation of a desired object, an update of a
  -- deployment to the desired one, or a new status on a copy of the cluster.
  pub data IsFor (c : PrestoCluster) : Write → Type 0 where
    created_config : IsFor c (creating Kind.config_map (get_desired_presto_config_map lib c))
    created_catalog : IsFor c (creating Kind.config_map (get_desired_catalog_config_map lib c))
    created_coordinator :
        IsFor c (creating Kind.deployment (get_desired_coordinator_deployment lib c))
    created_service : IsFor c (creating Kind.service (get_desired_coordinator_service lib c))
    created_worker : IsFor c (creating Kind.deployment (get_desired_worker_deployment lib c))
    updated_coordinator :
        IsFor c (updating Kind.deployment (get_desired_coordinator_deployment lib c))
    updated_worker : IsFor c (updating Kind.deployment (get_desired_worker_deployment lib c))
    wrote_status :
        (status : PrestoClusterStatus)
        → IsFor c (writing_status (record (presto_cluster_deep_copy lib c) { status = status }))

  module _ (c : PrestoCluster) where
    -- Every recorded write is for the cluster.
    abbrev pub Recorded : client.State × List Write → Type 0
    Recorded s = All (IsFor c) s.1
