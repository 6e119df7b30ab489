-- ===== src/Desired/Deployments.antt =====
-- controllers/desired.go: the deployments of the coordinator and of the workers.
use presto_on_k8s_operator.Api.{PrestoCluster, presto_cluster_kind}
use presto_on_k8s_operator.Desired.Mounts.{
  coordinator_etc_mounts, worker_etc_mounts, catalog_mounts, coresite_mounts, pre_stop_mount,
}
use presto_on_k8s_operator.Kube.Apps.{Deployment, Lifecycle, Volume, VolumeMount}
use presto_on_k8s_operator.Kube.Machinery.{Machinery}
use presto_on_k8s_operator.Maps.{StringMap}
use presto_on_k8s_operator.Prelude.{List, [], ◌∷◌, ◌++◌, none, some}
use presto_on_k8s_operator.Prelude.Int.{pos}
use presto_on_k8s_operator.Text.{codes}
use presto_on_k8s_operator.Utils.{get_presto_config_map_name, get_catalog_config_map_name}

unfoldable pub coordinator_labels : PrestoCluster → StringMap
coordinator_labels presto_cluster =
    (codes "app", codes "presto-coordinator")
    ∷ (codes "controller", presto_cluster.metadata.name)
    ∷ []

unfoldable pub worker_labels : PrestoCluster → StringMap
worker_labels presto_cluster =
    (codes "app", codes "presto-worker") ∷ (codes "controller", presto_cluster.metadata.name) ∷ []

unfoldable pub coordinator_volume_mounts : PrestoCluster → List VolumeMount
coordinator_volume_mounts presto_cluster =
    coordinator_etc_mounts presto_cluster.spec.coordinator_config.etc_config
    ++ catalog_mounts presto_cluster.spec.catalog_config
    ++ coresite_mounts presto_cluster.spec.coresite

unfoldable pub worker_volume_mounts : PrestoCluster → List VolumeMount
worker_volume_mounts presto_cluster =
    pre_stop_mount ∷ worker_etc_mounts presto_cluster.spec.worker_config.etc_config
    ++ catalog_mounts presto_cluster.spec.catalog_config
    ++ coresite_mounts presto_cluster.spec.coresite

-- The volumes `config` and `catalog`, which both deployments have.
unfoldable pub config_volumes : PrestoCluster → List Volume
config_volumes presto_cluster =
    record {
      name = codes "config";
      config_map = some (record { name = get_presto_config_map_name presto_cluster.metadata.name });
    }
    ∷ record {
      name = codes "catalog";
      config_map =
          some (record { name = get_catalog_config_map_name presto_cluster.metadata.name });
    }
    ∷ []

unfoldable pub worker_lifecycle : Lifecycle
worker_lifecycle = record {
  post_start = none;
  pre_stop = some (record {
    exec =
        some (record { command = codes "/bin/sh" ∷ codes "/usr/lib/presto/etc/pre-stop.sh" ∷ [] });
  });
}

module _ (lib : Machinery) where
  unfoldable pub get_desired_coordinator_deployment : PrestoCluster → Deployment
  get_desired_coordinator_deployment presto_cluster =
      let labels = coordinator_labels presto_cluster in
      record {
        metadata = record {
          namespace = presto_cluster.metadata.namespace;
          name = presto_cluster.metadata.name ++ codes "-coordinator";
          uid = [];
          owner_references =
              lib.new_controller_ref presto_cluster.metadata presto_cluster_kind ∷ [];
          labels = some labels;
        };
        spec = record {
          replicas = some (pos 1);
          selector = some (record { match_labels = some labels });
          template = record {
            labels = some labels;
            spec = record {
              security_context = some (record { run_as_user = some (pos 1000) });
              containers =
                  record {
                    name = codes "presto-coordinator";
                    resources = presto_cluster.spec.coordinator_config.resources;
                    image = presto_cluster.spec.image;
                    image_pull_policy = codes "Always";
                    ports = record { container_port = 8080 } ∷ [];
                    volume_mounts = coordinator_volume_mounts presto_cluster;
                    lifecycle = none;
                  }
                  ∷ [];
              volumes = config_volumes presto_cluster;
            };
          };
        };
        status = record { available_replicas = pos 0 };
      }

  unfoldable pub get_desired_worker_deployment : PrestoCluster → Deployment
  get_desired_worker_deployment presto_cluster =
      let labels = worker_labels presto_cluster in
      record {
        metadata = record {
          namespace = presto_cluster.metadata.namespace;
          name = presto_cluster.metadata.name ++ codes "-worker";
          uid = [];
          owner_references =
              lib.new_controller_ref presto_cluster.metadata presto_cluster_kind ∷ [];
          labels = some labels;
        };
        spec = record {
          replicas = presto_cluster.spec.workers;
          selector = some (record { match_labels = some labels });
          template = record {
            labels = some labels;
            spec = record {
              security_context = some (record { run_as_user = some (pos 1000) });
              containers =
                  record {
                    name = codes "presto-worker";
                    resources = presto_cluster.spec.worker_config.resources;
                    image = presto_cluster.spec.image;
                    image_pull_policy = codes "Always";
                    ports = record { container_port = 8080 } ∷ [];
                    volume_mounts = worker_volume_mounts presto_cluster;
                    lifecycle = some worker_lifecycle;
                  }
                  ∷ [];
              volumes = config_volumes presto_cluster;
            };
          };
        };
        status = record { available_replicas = pos 0 };
      }
