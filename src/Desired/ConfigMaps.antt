-- ===== src/Desired/ConfigMaps.antt =====
-- controllers/desired.go: the two config maps, and the owner reference that they carry.
use presto_on_k8s_operator.Api.{PrestoCluster}
use presto_on_k8s_operator.Api.DeepCopy.{presto_cluster_deep_copy}
use presto_on_k8s_operator.Desired.PreStop.{pre_stop_script}
use presto_on_k8s_operator.Kube.Apps.{ConfigMap}
use presto_on_k8s_operator.Kube.Machinery.{Machinery}
use presto_on_k8s_operator.Kube.Meta.{OwnerReference}
use presto_on_k8s_operator.Maps.{StringMap, assign_all, entries, insert}
use presto_on_k8s_operator.Prelude.{[], ◌∷◌, true, false, none, some}
use presto_on_k8s_operator.Text.{Text, codes}
use presto_on_k8s_operator.Utils.{get_presto_config_map_name, get_catalog_config_map_name}

unfoldable pub to_owner_reference : PrestoCluster → OwnerReference
to_owner_reference presto_cluster = record {
  api_version = presto_cluster.type_meta.api_version;
  kind = presto_cluster.type_meta.kind;
  name = presto_cluster.metadata.name;
  uid = presto_cluster.metadata.uid;
  controller = some true;
  block_owner_deletion = some false;
}

unfoldable pub new_configmap : PrestoCluster → Text → StringMap → ConfigMap
new_configmap presto config_map_name contents = record {
  metadata = record {
    namespace = presto.metadata.namespace;
    name = config_map_name;
    uid = [];
    owner_references = to_owner_reference presto ∷ [];
    labels = none;
  };
  contents = some contents;
}

-- The entries of the config map `config`: both etc configs under their prefixes, and the script.
unfoldable pub presto_config_data : PrestoCluster → StringMap
presto_config_data prestocluster =
    let coordinator =
      assign_all (codes "coordinator.") (entries prestocluster.spec.coordinator_config.etc_config)
        [] in
    let both =
      assign_all (codes "worker.") (entries prestocluster.spec.worker_config.etc_config)
        coordinator in
    insert (codes "pre-stop.sh") pre_stop_script both

-- The entries of the config map `catalog`: the catalogs, then the core site over them.
unfoldable pub catalog_config_data : PrestoCluster → StringMap
catalog_config_data prestocluster =
    assign_all [] (entries prestocluster.spec.coresite)
      (assign_all [] (entries prestocluster.spec.catalog_config) [])

module _ (lib : Machinery) where
  unfoldable pub get_desired_presto_config_map : PrestoCluster → ConfigMap
  get_desired_presto_config_map prestoclusters =
      let prestocluster = presto_cluster_deep_copy lib prestoclusters in
      new_configmap prestocluster (get_presto_config_map_name prestocluster.metadata.name)
        (presto_config_data prestocluster)

  unfoldable pub get_desired_catalog_config_map : PrestoCluster → ConfigMap
  get_desired_catalog_config_map prestoclusters =
      let prestocluster = presto_cluster_deep_copy lib prestoclusters in
      new_configmap prestocluster (get_catalog_config_map_name prestocluster.metadata.name)
        (catalog_config_data prestocluster)
