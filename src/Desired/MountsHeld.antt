-- ===== src/Desired/MountsHeld.antt =====
-- Each volume mount finds its file: the sub path is a key of the config map behind the volume.
use presto_on_k8s_operator.Api.{PrestoCluster}
use presto_on_k8s_operator.Desired.ConfigMaps.{presto_config_data, catalog_config_data}
use presto_on_k8s_operator.Desired.Deployments.{coordinator_volume_mounts, worker_volume_mounts}
use presto_on_k8s_operator.Desired.Mounts.{
  mounts_of, map_mounts, coordinator_etc_mounts, worker_etc_mounts, catalog_mounts, coresite_mounts,
  pre_stop_mount,
}
use presto_on_k8s_operator.Desired.PreStop.{pre_stop_script}
use presto_on_k8s_operator.Kube.Apps.{VolumeMount}
use presto_on_k8s_operator.Maps.{StringMap, keys, entries, lookup}
use presto_on_k8s_operator.Maps.Held.{
  keys-held, insert-keeps, insert-adds, assign_all-keeps, assign_all-adds,
}
use presto_on_k8s_operator.Prelude.{
  ◌≡◌, refl, ◌≢◌, ◌⊎◌, inl, inr, Bool, true, false, Option, none, some, List, [], ◌∷◌, ◌++◌, All,
  All-append,
}
use presto_on_k8s_operator.Sorting.{sort_strings}
use presto_on_k8s_operator.Sorting.Members.{sort_strings-All}
use presto_on_k8s_operator.Text.{Text, codes}

-- A mount of the volume `config` or `catalog` whose sub path is a key of that config map.
abbrev pub IsHeld : PrestoCluster → VolumeMount → Type 0
IsHeld c m =
    ((m.name ≡ codes "config") × (lookup m.sub_path (presto_config_data c) ≢ none))
    ⊎ ((m.name ≡ codes "catalog") × (lookup m.sub_path (catalog_config_data c) ≢ none))

map_mounts-All :
    (P : VolumeMount → Type 0) (name directory prefix : Text) (read_only : Bool)
    (m : Option StringMap)
    → ((k : Text)
        → lookup k (entries m) ≢ none
        → P (record {
          name = name;
          mount_path = directory ++ k;
          sub_path = prefix ++ k;
          read_only = read_only;
        }))
    → All P (map_mounts name directory prefix read_only m)
unfolding map_mounts
map_mounts-All P name directory prefix read_only none h = tt
map_mounts-All P name directory prefix read_only (some m) h =
    mounts_of-All (sort_strings (keys m)) (sort_strings-All _ (keys m) (keys-held m _ h))
  where
    mounts_of-All :
        (ks : List Text)
        → All
            (λ k. P (record {
              name = name;
              mount_path = directory ++ k;
              sub_path = prefix ++ k;
              read_only = read_only;
            }))
            ks
        → All P (mounts_of name directory prefix read_only ks)
    mounts_of-All [] g = tt
    mounts_of-All (k ∷ ks) g = (g.0, mounts_of-All ks g.1)

coordinator_etc-held :
    (c : PrestoCluster) (k : Text)
    → lookup k (entries c.spec.coordinator_config.etc_config) ≢ none
    → lookup (codes "coordinator." ++ k) (presto_config_data c) ≢ none
unfolding presto_config_data
coordinator_etc-held c k h =
    insert-keeps _ _ _ _
      (assign_all-keeps (codes "worker.") _ _ _ (assign_all-adds (codes "coordinator.") k _ [] h))

worker_etc-held :
    (c : PrestoCluster) (k : Text)
    → lookup k (entries c.spec.worker_config.etc_config) ≢ none
    → lookup (codes "worker." ++ k) (presto_config_data c) ≢ none
unfolding presto_config_data
worker_etc-held c k h = insert-keeps _ _ _ _ (assign_all-adds (codes "worker.") k _ _ h)

pre_stop-held : (c : PrestoCluster) → lookup (codes "pre-stop.sh") (presto_config_data c) ≢ none
unfolding presto_config_data
pre_stop-held c = insert-adds (codes "pre-stop.sh") pre_stop_script _

catalog-held :
    (c : PrestoCluster) (k : Text)
    → lookup k (entries c.spec.catalog_config) ≢ none
    → lookup k (catalog_config_data c) ≢ none
unfolding catalog_config_data
catalog-held c k h = assign_all-keeps [] k _ _ (assign_all-adds [] k _ [] h)

coresite-held :
    (c : PrestoCluster) (k : Text)
    → lookup k (entries c.spec.coresite) ≢ none
    → lookup k (catalog_config_data c) ≢ none
unfolding catalog_config_data
coresite-held c k h = assign_all-adds [] k _ _ h

coordinator_etc_mounts-IsHeld :
    (c : PrestoCluster)
    → All (IsHeld c) (coordinator_etc_mounts c.spec.coordinator_config.etc_config)
unfolding coordinator_etc_mounts
coordinator_etc_mounts-IsHeld c =
    map_mounts-All (IsHeld c) (codes "config") (codes "/usr/lib/presto/etc/") (codes "coordinator.")
      false c.spec.coordinator_config.etc_config (λ k h. inl (refl, coordinator_etc-held c k h))

worker_etc_mounts-IsHeld :
    (c : PrestoCluster) → All (IsHeld c) (worker_etc_mounts c.spec.worker_config.etc_config)
unfolding worker_etc_mounts
worker_etc_mounts-IsHeld c =
    map_mounts-All (IsHeld c) (codes "config") (codes "/usr/lib/presto/etc/") (codes "worker.") true
      c.spec.worker_config.etc_config (λ k h. inl (refl, worker_etc-held c k h))

catalog_mounts-IsHeld : (c : PrestoCluster) → All (IsHeld c) (catalog_mounts c.spec.catalog_config)
unfolding catalog_mounts
catalog_mounts-IsHeld c =
    map_mounts-All (IsHeld c) (codes "catalog") (codes "/usr/lib/presto/etc/catalog/") [] false
      c.spec.catalog_config (λ k h. inr (refl, catalog-held c k h))

coresite_mounts-IsHeld : (c : PrestoCluster) → All (IsHeld c) (coresite_mounts c.spec.coresite)
unfolding coresite_mounts
coresite_mounts-IsHeld c =
    map_mounts-All (IsHeld c) (codes "catalog") (codes "/tmp/") [] false c.spec.coresite
      (λ k h. inr (refl, coresite-held c k h))

with_shared_mounts-IsHeld :
    (c : PrestoCluster) (own : List VolumeMount)
    → All (IsHeld c) own
    → All
        (IsHeld c)
        (own ++ catalog_mounts c.spec.catalog_config ++ coresite_mounts c.spec.coresite)
with_shared_mounts-IsHeld c own h =
    All-append (IsHeld c) _ _ (All-append (IsHeld c) own _ h (catalog_mounts-IsHeld c))
      (coresite_mounts-IsHeld c)

-- Every mount of the coordinator and of the workers is of the volume `config` or `catalog`, and its
-- sub path is a key of the config map that the operator keeps behind that volume.
pub volume_mounts-IsHeld :
    (c : PrestoCluster)
    → All (IsHeld c) (coordinator_volume_mounts c) × All (IsHeld c) (worker_volume_mounts c)
unfolding coordinator_volume_mounts worker_volume_mounts pre_stop_mount
volume_mounts-IsHeld c = (
  with_shared_mounts-IsHeld c _ (coordinator_etc_mounts-IsHeld c),
  with_shared_mounts-IsHeld c (pre_stop_mount ∷ worker_etc_mounts c.spec.worker_config.etc_config)
      (inl (refl, pre_stop-held c), worker_etc_mounts-IsHeld c),
)
