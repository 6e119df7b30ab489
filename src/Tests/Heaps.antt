-- ===== src/Tests/Heaps.antt =====
-- A heap with the cluster of the tests, given labels, an owner and limits, and a list of it.
use presto_on_k8s_operator.Api.{PrestoCluster, PrestoClusterList}
use presto_on_k8s_operator.Api.DeepCopy.{HasMaps}
use presto_on_k8s_operator.Api.Cells.{
  Heap, Cell, OwnerStruct, ClusterStruct, ListStruct, bool_cell, owners_cell, map_cell, count_cell,
  cluster_cell, clusters_cell, list_cell, presto_cluster_list,
}
use presto_on_k8s_operator.Api.Heap.{
  presto_cluster_deep_copy_new, presto_cluster_list_deep_copy_object,
}
use presto_on_k8s_operator.Api.Heap.Reading.{meta_shape, spec_shape, cluster_at, list_at}
use presto_on_k8s_operator.Api.Heap.Separate.{
  IsSeparate, presto_cluster_deep_copy_new-IsSeparate,
  presto_cluster_list_deep_copy_object-IsSeparate,
}
use presto_on_k8s_operator.Prelude.{ℕ, zero, suc, List, ◌≡◌, refl, some, none, true, [], ◌∷◌, arith}
use presto_on_k8s_operator.Prelude.Int.{pos}
use presto_on_k8s_operator.Tests.Data.{
  plain, plain-IsDocumented, demo, demo_maps, etc_config, catalog_config,
}
use presto_on_k8s_operator.Tests.HeapLibrary.{heap_plain, heap_plain-HasCopies}
use presto_on_k8s_operator.Maps.{StringMap}
use presto_on_k8s_operator.Kube.Meta.{OwnerReference}
use presto_on_k8s_operator.Text.{codes}

abbrev labels : StringMap
labels = (codes "team", codes "data") ∷ []

abbrev limits : StringMap
limits = (codes "cpu", codes "2") ∷ []

abbrev owner : OwnerReference
owner = record {
  api_version = codes "v1";
  kind = codes "Lake";
  name = codes "lake";
  uid = codes "9";
  controller = some true;
  block_owner_deletion = none;
}

abbrev owned_demo : PrestoCluster
owned_demo = record demo {
  metadata = record demo.metadata { owner_references = owner ∷ []; labels = some labels };
  spec = record demo.spec {
    coordinator_config = record demo.spec.coordinator_config {
      resources = record { limits = some limits; requests = none };
    };
    worker_config = record demo.spec.worker_config {
      resources = record { limits = none; requests = some limits };
    };
  };
}

owned_demo_maps : HasMaps owned_demo
owned_demo_maps = record {
  coordinator_etc = demo_maps.coordinator_etc;
  worker_etc = demo_maps.worker_etc;
  catalog = demo_maps.catalog;
  core_site = demo_maps.core_site;
}

abbrev demo_struct : ClusterStruct
demo_struct = record {
  type_meta = demo.type_meta;
  metadata = record {
    name = demo.metadata.name;
    namespace = demo.metadata.namespace;
    uid = demo.metadata.uid;
    owner_references = some 9;
    labels = some 8;
  };
  spec = record {
    name = demo.spec.name;
    image = demo.spec.image;
    workers = some 1;
    coordinator_config = record {
      resources = record { limits = some 11; requests = none };
      etc_config = some 2;
    };
    worker_config = record {
      resources = record { limits = none; requests = some 12 };
      etc_config = some 3;
    };
    catalog_config = some 4;
    coresite = some 5;
  };
  status = demo.status;
}

abbrev demo_list : ListStruct
demo_list = record {
  type_meta = demo.type_meta;
  list_meta = record {
    resource_version = codes "7";
    continue_token = [];
    remaining_item_count = some 13;
  };
  items = some 6;
}

abbrev owner_struct : OwnerStruct
owner_struct = record {
  api_version = owner.api_version;
  kind = owner.kind;
  name = owner.name;
  uid = owner.uid;
  controller = some 10;
  block_owner_deletion = none;
}

abbrev demo_cells : List Cell
demo_cells =
    cluster_cell demo_struct
    ∷ count_cell (pos 2)
    ∷ map_cell etc_config
    ∷ map_cell etc_config
    ∷ map_cell catalog_config
    ∷ map_cell ((codes "core-site.xml", codes "site") ∷ [])
    ∷ clusters_cell (demo_struct ∷ demo_struct ∷ [])
    ∷ list_cell demo_list
    ∷ map_cell labels
    ∷ owners_cell (owner_struct ∷ [])
    ∷ bool_cell true
    ∷ map_cell limits
    ∷ map_cell limits
    ∷ []

-- The last cell counts the items that remain.
abbrev cell_at : List Cell → ℕ → Cell
cell_at [] p = count_cell (pos 3)
cell_at (c ∷ cs) zero = c
cell_at (c ∷ cs) (suc p) = cell_at cs p

abbrev demo_heap : Heap
demo_heap = record { next = 14; cell = cell_at demo_cells }

abbrev demo_meta_reaches : meta_shape.Within demo_heap 0 14 demo_struct.metadata
demo_meta_reaches = (
  (omega arith, omega arith, (((omega arith, omega arith, tt), tt), tt)),
  (omega arith, omega arith, tt),
)

abbrev demo_spec_reaches : spec_shape.Within demo_heap 0 14 demo_struct.spec
demo_spec_reaches = (
  (omega arith, omega arith, tt),
  (
    (((omega arith, omega arith, tt), tt), (omega arith, omega arith, tt)),
    (
      ((tt, (omega arith, omega arith, tt)), (omega arith, omega arith, tt)),
      ((omega arith, omega arith, tt), (omega arith, omega arith, tt)),
    ),
  ),
)

presto_cluster_deep_copy_new-IsSeparate_example :
    let (q, k) = presto_cluster_deep_copy_new heap_plain (some 0) demo_heap in
    IsSeparate cluster_at owned_demo demo_heap k (some 0) q
presto_cluster_deep_copy_new-IsSeparate_example =
    presto_cluster_deep_copy_new-IsSeparate plain plain-IsDocumented heap_plain heap_plain-HasCopies
      demo_heap (some 0) owned_demo
      (omega arith, omega arith, (demo_meta_reaches, demo_spec_reaches)) refl owned_demo_maps

abbrev two_demos : PrestoClusterList
two_demos = record {
  type_meta = demo.type_meta;
  list_meta = record {
    resource_version = codes "7";
    continue_token = [];
    remaining_item_count = some (pos 3);
  };
  items = some (owned_demo ∷ owned_demo ∷ []);
}

presto_cluster_list_deep_copy_object-IsSeparate_example :
    let (object, k) = presto_cluster_list_deep_copy_object heap_plain (some 7) demo_heap in
    (q : ℕ) × (object ≡ some (presto_cluster_list q))
    × IsSeparate list_at two_demos demo_heap k (some 7) (some q)
presto_cluster_list_deep_copy_object-IsSeparate_example =
    presto_cluster_list_deep_copy_object-IsSeparate plain plain-IsDocumented heap_plain
      heap_plain-HasCopies demo_heap (some 7) two_demos
      (
        omega arith,
        omega arith,
        (
          (omega arith, omega arith, tt),
          (
            omega arith,
            omega arith,
            ((demo_meta_reaches, demo_spec_reaches), ((demo_meta_reaches, demo_spec_reaches), tt)),
          ),
        ),
      )
      refl (owned_demo_maps, (owned_demo_maps, tt))
