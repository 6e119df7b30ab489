-- ===== src/Desired/Reordered.antt =====
-- A cluster whose maps are visited in another order has the same deployments, and config maps with
-- the same contents.
use mathlib.Core.List.{Perm}
use presto_on_k8s_operator.Api.{PrestoCluster}
use presto_on_k8s_operator.Api.DeepCopy.{HasMaps}
use presto_on_k8s_operator.Desired.ConfigMaps.{presto_config_data, catalog_config_data}
use presto_on_k8s_operator.Desired.Deployments.{
  coordinator_labels, worker_labels, config_volumes, coordinator_volume_mounts,
  worker_volume_mounts, get_desired_coordinator_deployment, get_desired_worker_deployment,
}
use presto_on_k8s_operator.Desired.Mounts.{
  map_mounts, coordinator_etc_mounts, worker_etc_mounts, catalog_mounts, coresite_mounts,
}
use presto_on_k8s_operator.Kube.Machinery.{Machinery}
use presto_on_k8s_operator.Desired.PreStop.{pre_stop_script}
use presto_on_k8s_operator.Maps.Assigned.{Agree, insert-Agree, assign_all-Agree_of_perm}
use presto_on_k8s_operator.Maps.{StringMap, assign_all, entries}
use presto_on_k8s_operator.Maps.Laws.{NodupKeys}
use presto_on_k8s_operator.Maps.Order.{sort_strings-keys}
use presto_on_k8s_operator.Prelude.{◌≡◌, refl, Bool, true, false, [], Option, none, some}
use presto_on_k8s_operator.Text.{Text, codes}

-- Two maps with the same entries: both nil, or lists of the same pairs.
abbrev pub SameMap : Option StringMap → Option StringMap → Type 0
SameMap none none = Unit
SameMap (some m) (some n) = Perm m n
SameMap _ _ = ⊥

-- The four maps of a cluster.
pub record ClusterMaps : Type 0 where
  pub coordinator_etc : Option StringMap
  pub worker_etc : Option StringMap
  pub catalog : Option StringMap
  pub core_site : Option StringMap

abbrev pub with_maps : PrestoCluster → ClusterMaps → PrestoCluster
with_maps c m = record c {
  spec = record c.spec {
    coordinator_config = record c.spec.coordinator_config { etc_config = m.coordinator_etc };
    worker_config = record c.spec.worker_config { etc_config = m.worker_etc };
    catalog_config = m.catalog;
    coresite = m.core_site;
  };
}

pub record SameMaps (m n : ClusterMaps) : Type 0 where
  pub coordinator_etc : SameMap m.coordinator_etc n.coordinator_etc
  pub worker_etc : SameMap m.worker_etc n.worker_etc
  pub catalog : SameMap m.catalog n.catalog
  pub core_site : SameMap m.core_site n.core_site

map_mounts-SameMap :
    (name directory prefix : Text) (read_only : Bool) (m n : Option StringMap)
    → SameMap m n
    → map_mounts name directory prefix read_only m ≡ map_mounts name directory prefix read_only n
unfolding map_mounts
map_mounts-SameMap name directory prefix read_only none none h = refl
map_mounts-SameMap name directory prefix read_only none (some n) h = absurd h
map_mounts-SameMap name directory prefix read_only (some m) none h = absurd h
map_mounts-SameMap name directory prefix read_only (some m) (some n) h = rw (sort_strings-keys h)

module _ (c : PrestoCluster) (m n : ClusterMaps) (same : SameMaps m n) where
  coordinator_volume_mounts-SameMaps :
      coordinator_volume_mounts (with_maps c m) ≡ coordinator_volume_mounts (with_maps c n)
  unfolding coordinator_volume_mounts coordinator_etc_mounts catalog_mounts coresite_mounts
  coordinator_volume_mounts-SameMaps = cc (
    map_mounts-SameMap (codes "config") (codes "/usr/lib/presto/etc/") (codes "coordinator.") false
        m.coordinator_etc n.coordinator_etc same.coordinator_etc,
    map_mounts-SameMap (codes "catalog") (codes "/usr/lib/presto/etc/catalog/") [] false m.catalog
        n.catalog same.catalog,
    map_mounts-SameMap (codes "catalog") (codes "/tmp/") [] false m.core_site n.core_site
        same.core_site,
  )

  worker_volume_mounts-SameMaps :
      worker_volume_mounts (with_maps c m) ≡ worker_volume_mounts (with_maps c n)
  unfolding worker_volume_mounts worker_etc_mounts catalog_mounts coresite_mounts
  worker_volume_mounts-SameMaps = cc (
    map_mounts-SameMap (codes "config") (codes "/usr/lib/presto/etc/") (codes "worker.") true
        m.worker_etc n.worker_etc same.worker_etc,
    map_mounts-SameMap (codes "catalog") (codes "/usr/lib/presto/etc/catalog/") [] false m.catalog
        n.catalog same.catalog,
    map_mounts-SameMap (codes "catalog") (codes "/tmp/") [] false m.core_site n.core_site
        same.core_site,
  )

-- The deployments do not depend on the order in which the maps are visited.
pub get_desired_deployments-SameMaps :
    (lib : Machinery) (c : PrestoCluster) (m n : ClusterMaps)
    → SameMaps m n
    → (get_desired_coordinator_deployment lib (with_maps c m)
        ≡ get_desired_coordinator_deployment lib (with_maps c n))
      × (get_desired_worker_deployment lib (with_maps c m)
          ≡ get_desired_worker_deployment lib (with_maps c n))
unfolding get_desired_coordinator_deployment get_desired_worker_deployment coordinator_labels
    worker_labels config_volumes
get_desired_deployments-SameMaps lib c m n same = (
  rw (coordinator_volume_mounts-SameMaps c m n same),
  rw (worker_volume_mounts-SameMaps c m n same),
)

assign_all-SameMap :
    (p : Text) (m n : Option StringMap) (out out' : StringMap)
    → SameMap m n
    → NodupKeys (entries m)
    → Agree out out'
    → Agree (assign_all p (entries m) out) (assign_all p (entries n) out')
unfolding assign_all
assign_all-SameMap p none none out out' h u agree = agree
assign_all-SameMap p none (some n) out out' h u agree = absurd h
assign_all-SameMap p (some m) none out out' h u agree = absurd h
assign_all-SameMap p (some m) (some n) out out' h u agree =
    assign_all-Agree_of_perm p out out' h u agree

-- If no map lists a key twice, both config maps hold the same under every key, in whatever order
-- the maps of the cluster are visited.
pub config_data-SameMaps :
    (c : PrestoCluster) (m n : ClusterMaps)
    → SameMaps m n
    → HasMaps (with_maps c m)
    → Agree (presto_config_data (with_maps c m)) (presto_config_data (with_maps c n))
      × Agree (catalog_config_data (with_maps c m)) (catalog_config_data (with_maps c n))
unfolding presto_config_data catalog_config_data
config_data-SameMaps c m n same unique = (
  insert-Agree (codes "pre-stop.sh") pre_stop_script _ _ (
      assign_all-SameMap (codes "worker.") m.worker_etc n.worker_etc _ _ same.worker_etc
        unique.worker_etc
        (assign_all-SameMap (codes "coordinator.") m.coordinator_etc n.coordinator_etc [] []
          same.coordinator_etc unique.coordinator_etc (λ k. refl))),
  assign_all-SameMap [] m.core_site n.core_site _ _ same.core_site unique.core_site
      (assign_all-SameMap [] m.catalog n.catalog [] [] same.catalog unique.catalog (λ k. refl)),
)
