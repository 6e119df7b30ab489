-- ===== src/Api/DeepCopy.antt =====
-- api/v1alpha1/zz_generated.deepcopy.go: `DeepCopyInto` of the cluster and its parts, as the value
-- that the call writes to `out`. A map is copied entry by entry into a new one.
use mathlib.Core.Option
use presto_on_k8s_operator.Api.{
  CoordinatorConfig, PrestoCluster, PrestoClusterList, PrestoClusterSpec, WorkerConfig,
}
use presto_on_k8s_operator.Kube.Machinery.{Machinery, IsDocumented}
use presto_on_k8s_operator.Maps.{StringMap, assign_all, entries}
use presto_on_k8s_operator.Maps.Laws.{NodupKeys, assign_all-nil}
use presto_on_k8s_operator.Prelude.{
  ◌≡◌, refl, ap, Option, none, some, List, [], ◌∷◌, map, All, arith,
}

-- `if in != nil { out = make(map[string]string); for key, val := range in { out[key] = val } }`
unfoldable pub copy_map : Option StringMap → Option StringMap
copy_map none = none
copy_map (some m) = some (assign_all [] m [])

module _ (lib : Machinery) where
  unfoldable pub coordinator_config_deep_copy : CoordinatorConfig → CoordinatorConfig
  coordinator_config_deep_copy c = record c {
    resources = lib.resources_deep_copy c.resources;
    etc_config = copy_map c.etc_config;
  }

  unfoldable pub worker_config_deep_copy : WorkerConfig → WorkerConfig
  worker_config_deep_copy c = record c {
    resources = lib.resources_deep_copy c.resources;
    etc_config = copy_map c.etc_config;
  }

  -- The pointer to the worker count is copied with what it points to.
  unfoldable pub presto_cluster_spec_deep_copy : PrestoClusterSpec → PrestoClusterSpec
  presto_cluster_spec_deep_copy s = record s {
    coordinator_config = coordinator_config_deep_copy s.coordinator_config;
    worker_config = worker_config_deep_copy s.worker_config;
    catalog_config = copy_map s.catalog_config;
    coresite = copy_map s.coresite;
  }

  unfoldable pub presto_cluster_deep_copy : PrestoCluster → PrestoCluster
  presto_cluster_deep_copy c = record c {
    metadata = lib.object_meta_deep_copy c.metadata;
    spec = presto_cluster_spec_deep_copy c.spec;
  }

  unfoldable pub presto_cluster_list_deep_copy : PrestoClusterList → PrestoClusterList
  presto_cluster_list_deep_copy l = record l {
    list_meta = lib.list_meta_deep_copy l.list_meta;
    items = Option.map (map presto_cluster_deep_copy) l.items;
  }

-- The four maps of a cluster list no key twice, as every Go map.
pub record HasMaps (c : PrestoCluster) : Type 0 where
  pub coordinator_etc : NodupKeys (entries c.spec.coordinator_config.etc_config)
  pub worker_etc : NodupKeys (entries c.spec.worker_config.etc_config)
  pub catalog : NodupKeys (entries c.spec.catalog_config)
  pub core_site : NodupKeys (entries c.spec.coresite)

copy_map_lem : (m : Option StringMap) → NodupKeys (entries m) → copy_map m ≡ m
unfolding copy_map
copy_map_lem none h = refl
copy_map_lem (some m) h = cc (assign_all-nil m h)

-- Given documented libraries and maps that list no key twice, a deep copy of a cluster has the
-- cluster's value.
pub presto_cluster_deep_copy_lem :
    (lib : Machinery) (c : PrestoCluster)
    → IsDocumented lib
    → HasMaps c
    → presto_cluster_deep_copy lib c ≡ c
unfolding presto_cluster_deep_copy presto_cluster_spec_deep_copy coordinator_config_deep_copy
    worker_config_deep_copy
presto_cluster_deep_copy_lem lib c doc h = ground (
  arith,
  copy_map_lem c.spec.coordinator_config.etc_config h.coordinator_etc,
  copy_map_lem c.spec.worker_config.etc_config h.worker_etc,
  copy_map_lem c.spec.catalog_config h.catalog,
  copy_map_lem c.spec.coresite h.core_site,
  doc.meta_copied c.metadata,
  doc.resources_copied c.spec.coordinator_config.resources,
  doc.resources_copied c.spec.worker_config.resources,
)

-- The clusters of a list, their maps listing no key twice.
abbrev pub HasMapsEach : Option (List PrestoCluster) → Type 0
HasMapsEach none = Unit
HasMapsEach (some cs) = All HasMaps cs

deep_copies_lem :
    (lib : Machinery) (cs : List PrestoCluster)
    → IsDocumented lib
    → All HasMaps cs
    → map (presto_cluster_deep_copy lib) cs ≡ cs
deep_copies_lem lib [] doc h = refl
deep_copies_lem lib (c ∷ cs) doc (h, hs) =
    cc (presto_cluster_deep_copy_lem lib c doc h, deep_copies_lem lib cs doc hs)

items_deep_copy_lem :
    (lib : Machinery) (items : Option (List PrestoCluster))
    → IsDocumented lib
    → HasMapsEach items
    → Option.map (map (presto_cluster_deep_copy lib)) items ≡ items
items_deep_copy_lem lib none doc h = refl
items_deep_copy_lem lib (some cs) doc h = ap some (deep_copies_lem lib cs doc h)

pub presto_cluster_list_deep_copy_lem :
    (lib : Machinery) (l : PrestoClusterList)
    → IsDocumented lib
    → HasMapsEach l.items
    → presto_cluster_list_deep_copy lib l ≡ l
unfolding presto_cluster_list_deep_copy
presto_cluster_list_deep_copy_lem lib l doc h =
    cc (doc.list_meta_copied l.list_meta, items_deep_copy_lem lib l.items doc h)
