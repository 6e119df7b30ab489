-- ===== src/Desired/Keys.antt =====
-- The keys of the five children of a cluster, and that the desired objects have them.
use presto_on_k8s_operator.Api.{PrestoCluster}
use presto_on_k8s_operator.Api.DeepCopy.{presto_cluster_deep_copy}
use presto_on_k8s_operator.Desired.ConfigMaps.{
  new_configmap, get_desired_presto_config_map, get_desired_catalog_config_map,
}
use presto_on_k8s_operator.Desired.Deployments.{
  get_desired_coordinator_deployment, get_desired_worker_deployment,
}
use presto_on_k8s_operator.Desired.Service.{get_desired_coordinator_service}
use presto_on_k8s_operator.Kube.Machinery.{Machinery, IsDocumented}
use presto_on_k8s_operator.Kube.Meta.{NamespacedName, key_of}
use presto_on_k8s_operator.Prelude.{◌≡◌, refl}
use presto_on_k8s_operator.Utils.{
  get_presto_config_map_name, get_catalog_config_map_name, get_coordinator_deployment_name,
  get_coordinator_service_name, get_worker_deployment_name,
}

abbrev pub presto_config_map_key : NamespacedName → NamespacedName
presto_config_map_key n = record {
  namespace = n.namespace;
  name = get_presto_config_map_name n.name;
}

abbrev pub catalog_config_map_key : NamespacedName → NamespacedName
catalog_config_map_key n = record {
  namespace = n.namespace;
  name = get_catalog_config_map_name n.name;
}

abbrev pub coordinator_deployment_key : NamespacedName → NamespacedName
coordinator_deployment_key n = record {
  namespace = n.namespace;
  name = get_coordinator_deployment_name n.name;
}

abbrev pub coordinator_service_key : NamespacedName → NamespacedName
coordinator_service_key n = record {
  namespace = n.namespace;
  name = get_coordinator_service_name n.name;
}

abbrev pub worker_deployment_key : NamespacedName → NamespacedName
worker_deployment_key n = record {
  namespace = n.namespace;
  name = get_worker_deployment_name n.name;
}

module _ (lib : Machinery) (doc : IsDocumented lib) (c : PrestoCluster) where
  -- Given documented libraries, the desired objects stand under the keys that belong to the cluster's own key.
  pub desired_keys :
      (key_of (get_desired_presto_config_map lib c).metadata
        ≡ presto_config_map_key (key_of c.metadata))
      × (key_of (get_desired_catalog_config_map lib c).metadata
          ≡ catalog_config_map_key (key_of c.metadata))
      × (key_of (get_desired_coordinator_deployment lib c).metadata
          ≡ coordinator_deployment_key (key_of c.metadata))
      × (key_of (get_desired_coordinator_service lib c).metadata
          ≡ coordinator_service_key (key_of c.metadata))
      × (key_of (get_desired_worker_deployment lib c).metadata
          ≡ worker_deployment_key (key_of c.metadata))
  unfolding get_desired_presto_config_map get_desired_catalog_config_map
      get_desired_coordinator_deployment get_desired_coordinator_service
      get_desired_worker_deployment new_configmap presto_cluster_deep_copy
      get_coordinator_deployment_name get_coordinator_service_name get_worker_deployment_name
  desired_keys =
      (cc (doc.meta_copied c.metadata), cc (doc.meta_copied c.metadata), refl, refl, refl)
