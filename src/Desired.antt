-- ===== src/Desired.antt =====
-- controllers/desired.go: the desired state of a cluster. The children build its parts.
pub mod PreStop
pub mod CoreSite
pub mod Mounts
pub mod Deployments
pub mod Service
pub mod ConfigMaps
pub mod Keys
pub mod MountsHeld
pub mod MountedFiles
pub mod Reordered
pub mod Unordered
pub mod Ownership
pub mod Contents
use presto_on_k8s_operator.Api.{PrestoCluster}
use presto_on_k8s_operator.Desired.ConfigMaps.{
  get_desired_presto_config_map, get_desired_catalog_config_map,
}
use presto_on_k8s_operator.Desired.Deployments.{
  get_desired_coordinator_deployment, get_desired_worker_deployment,
}
use presto_on_k8s_operator.Desired.Service.{get_desired_coordinator_service}
use presto_on_k8s_operator.Kube.Apps
use presto_on_k8s_operator.Kube.Machinery.{Machinery}
use presto_on_k8s_operator.Prelude.{Option, none, some}

pub record DesiredClusterState : Type 0 where
  pub coordinator_deployment : Option Apps.Deployment
  pub worker_deployment : Option Apps.Deployment
  pub coordinator_service : Option Apps.Service
  pub presto_config_map : Option Apps.ConfigMap
  pub catalog_config_map : Option Apps.ConfigMap
  pub job : Option Apps.Job

unfoldable pub get_desired_cluster_state : Machinery → Option PrestoCluster → DesiredClusterState
get_desired_cluster_state lib none = record {
  coordinator_deployment = none;
  worker_deployment = none;
  coordinator_service = none;
  presto_config_map = none;
  catalog_config_map = none;
  job = none;
}
get_desired_cluster_state lib (some cluster) = record {
  coordinator_deployment = some (get_desired_coordinator_deployment lib cluster);
  worker_deployment = some (get_desired_worker_deployment lib cluster);
  coordinator_service = some (get_desired_coordinator_service lib cluster);
  presto_config_map = some (get_desired_presto_config_map lib cluster);
  catalog_config_map = some (get_desired_catalog_config_map lib cluster);
  job = none;
}
