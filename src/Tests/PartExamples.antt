-- ===== src/Tests/PartExamples.antt =====
-- The operator's parts at concrete inputs: inspection, reconciler, status and desired objects.
use mathlib.Core.Quot
use presto_on_k8s_operator.Api.{PrestoCluster}
use presto_on_k8s_operator.Desired.ConfigMaps.{
  presto_config_data, catalog_config_data, get_desired_presto_config_map,
  get_desired_catalog_config_map,
}
use presto_on_k8s_operator.Desired.Contents
use presto_on_k8s_operator.Desired.Deployments.{
  get_desired_coordinator_deployment, get_desired_worker_deployment,
}
use presto_on_k8s_operator.Desired.MountedFiles.{HasFiles, desired_deployments-HasFiles}
use presto_on_k8s_operator.Desired.Ownership.{
  IsOwnedBy, desired_objects-IsOwnedBy, picks, selects, pod_labels, selector_of, service-selects,
  deployment-selects,
}
use presto_on_k8s_operator.Desired.PreStop.{pre_stop_script}
use presto_on_k8s_operator.Desired.Unordered.{
  GoMaps, ListedMaps, DesiredParts, desired_parts, desired_parts-GoMaps,
}
use presto_on_k8s_operator.Desired.Service.{get_desired_coordinator_service}
use presto_on_k8s_operator.Go.{returns}
use presto_on_k8s_operator.Inspector.{inspect, nothing_inspected}
use presto_on_k8s_operator.Inspector.Quiet.{held, inspect-held}
use presto_on_k8s_operator.Maps.{entries, lookup}
use presto_on_k8s_operator.Prelude.{◌≡◌, ◌&&◌, refl, true, false, none, some, or_else, ◌++◌, arith}
use presto_on_k8s_operator.Prelude.Int.{pos}
use presto_on_k8s_operator.Status.{update_presto_cluster_status, count_message}
use presto_on_k8s_operator.Status.Errors
use presto_on_k8s_operator.Status.Quiet.{
  available, after_status, result_for, with_status, update_presto_cluster_status-after,
  derive_cluster_status-available,
}
use presto_on_k8s_operator.Tests.Data.{
  plain, plain-IsDocumented, request, demo, demo_maps, shown_two, shown_two_maps, server,
  shown_server, demo_found, unreachable,
}
use presto_on_k8s_operator.Tests.Memory.{ApiError, memory, view, find, same_key}
use presto_on_k8s_operator.Tests.Memory.Laws.{memory_quiet}
use presto_on_k8s_operator.Text.{codes, ◌==◌}

inspect-held_example :
    inspect memory request nothing_inspected server
    ≡ returns (none, held memory memory_quiet request server) server
inspect-held_example = inspect-held memory memory_quiet request server

update_presto_cluster_status-after_example :
    update_presto_cluster_status plain memory demo request.name request.namespace server
    ≡ returns
        (result_for (available memory memory_quiet request server) (pos 2), none)
        (after_status memory memory_quiet request demo server)
update_presto_cluster_status-after_example =
    update_presto_cluster_status-after memory memory_quiet request demo plain plain-IsDocumented
      (pos 2) server demo_maps refl demo_found

update_presto_cluster_status_result_example :
    result_for (available memory memory_quiet request server) (pos 2)
    ≡ result_for (available memory memory_quiet request server) (pos 2)
update_presto_cluster_status_result_example =
    Errors.update_presto_cluster_status_result plain memory demo request.name request.namespace
      (pos 2) _ (record { available_workers = available memory memory_quiet request server }) server
      server _ refl (derive_cluster_status-available memory memory_quiet request demo plain server)
      update_presto_cluster_status-after_example

shown_written : (unreachable.update_status (with_status shown_two (pos 0)) shown_server).0 ≡ none
unfolding view find same_key ◌==◌
shown_written = refl

-- The status shows two workers, and the count cannot be read: it becomes 0.
update_presto_cluster_status_zeroed_example :
    update_presto_cluster_status plain unreachable shown_two request.name request.namespace
      shown_server
    ≡ returns
        (result_for (pos 0) (pos 2), none)
        (memory.event shown_two
          (codes "Normal")
          (codes "workers counts update")
          (count_message request.name (pos 2) (pos 0))
          (memory.update_status (with_status shown_two (pos 0)) shown_server).1)
update_presto_cluster_status_zeroed_example =
    Errors.update_presto_cluster_status_zeroed plain unreachable shown_two request.name
      request.namespace plain-IsDocumented (pos 2) ApiError.unavailable shown_server shown_server
      shown_two_maps refl (ground arith) refl shown_written

desired_deployments-HasFiles_example :
    HasFiles plain demo (get_desired_coordinator_deployment plain demo)
    × HasFiles plain demo (get_desired_worker_deployment plain demo)
desired_deployments-HasFiles_example =
    desired_deployments-HasFiles plain demo plain-IsDocumented demo_maps

lookup-presto_config_data_example :
    (lookup (codes "coordinator." ++ codes "jvm.config") (presto_config_data demo)
      ≡ lookup (codes "jvm.config") (entries demo.spec.coordinator_config.etc_config))
    × (lookup (codes "worker." ++ codes "jvm.config") (presto_config_data demo)
        ≡ lookup (codes "jvm.config") (entries demo.spec.worker_config.etc_config))
    × (lookup (codes "pre-stop.sh") (presto_config_data demo) ≡ some pre_stop_script)
lookup-presto_config_data_example =
    Contents.lookup-presto_config_data demo (codes "jvm.config") demo_maps

lookup-catalog_config_data_example :
    lookup (codes "core-site.xml") (catalog_config_data demo)
    ≡ or_else
        (lookup (codes "core-site.xml") (entries demo.spec.coresite))
        (lookup (codes "core-site.xml") (entries demo.spec.catalog_config))
lookup-catalog_config_data_example =
    Contents.lookup-catalog_config_data demo (codes "core-site.xml") demo_maps

-- The cluster with its type meta, as a read gives it.
abbrev read_demo : PrestoCluster
read_demo = record demo {
  type_meta = record {
    kind = codes "PrestoCluster";
    api_version = codes "prestooperator.k8s.io/v1alpha1";
  };
}

desired_objects-IsOwnedBy_example :
    IsOwnedBy read_demo (get_desired_presto_config_map plain read_demo).metadata
    × IsOwnedBy read_demo (get_desired_catalog_config_map plain read_demo).metadata
    × IsOwnedBy read_demo (get_desired_coordinator_deployment plain read_demo).metadata
    × IsOwnedBy read_demo (get_desired_coordinator_service plain read_demo).metadata
    × IsOwnedBy read_demo (get_desired_worker_deployment plain read_demo).metadata
desired_objects-IsOwnedBy_example =
    desired_objects-IsOwnedBy plain read_demo plain-IsDocumented refl refl

service-selects_example :
    let service = get_desired_coordinator_service plain demo in
    (picks service (get_desired_coordinator_deployment plain demo) ≡ (
      (demo.metadata.namespace == demo.metadata.namespace)
      && (demo.metadata.name == demo.metadata.name)))
    × (picks service (get_desired_worker_deployment plain demo) ≡ false)
service-selects_example = service-selects plain demo demo

deployment-selects_example :
    let coordinator = get_desired_coordinator_deployment plain demo in
    let worker = get_desired_worker_deployment plain demo in
    (selects (selector_of coordinator) (pod_labels coordinator) ≡ true)
    × (selects (selector_of worker) (pod_labels worker) ≡ true)
    × (selects (selector_of coordinator) (pod_labels (get_desired_worker_deployment plain demo))
        ≡ false)
    × (selects (selector_of worker) (pod_labels (get_desired_coordinator_deployment plain demo))
        ≡ false)
deployment-selects_example = deployment-selects plain demo demo

desired_parts-GoMaps_example :
    (f : GoMaps → DesiredParts) × ((m : ListedMaps) → f (Quot.mk m) ≡ desired_parts plain demo m.0)
desired_parts-GoMaps_example = desired_parts-GoMaps plain demo
