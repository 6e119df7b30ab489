-- ===== src/Api/Heap/Reading.antt =====
-- The values that the structs of a heap stand for, and the cells that they reach.
use presto_on_k8s_operator.Api.{
  CoordinatorConfig, PrestoCluster, PrestoClusterList, PrestoClusterSpec, WorkerConfig,
}
use presto_on_k8s_operator.Api.Cells.{
  Pointer, HeapMachinery, OwnerStruct, MetaStruct, ListMetaStruct, ResourceStruct, bool_in,
  bool_cell, owners_in, owners_cell, ConfigStruct, SpecStruct, ClusterStruct, ListStruct, map_in,
  map_cell, count_in, count_cell, cluster_in, cluster_cell, clusters_in, clusters_cell, list_in,
  list_cell,
}
use presto_on_k8s_operator.Api.Heap.Shapes.{Shape, IsCopy, plain, both, pointer}
use presto_on_k8s_operator.Api.Heap.Structs.{listed, struct}
use presto_on_k8s_operator.Kube.Machinery.{Machinery}
use presto_on_k8s_operator.Kube.Meta.{ListMeta, ObjectMeta, OwnerReference, ResourceRequirements}
use presto_on_k8s_operator.Maps.{StringMap}
use presto_on_k8s_operator.Prelude.{refl, Bool, Option, none, some, List, []}
use presto_on_k8s_operator.Prelude.Int.{ℤ}

abbrev pub map_shape : Shape Pointer (Option StringMap)
map_shape = pointer plain map_in map_cell (λ m. refl)

abbrev pub count_shape : Shape Pointer (Option ℤ)
count_shape = pointer plain count_in count_cell (λ n. refl)

abbrev pub bool_shape : Shape Pointer (Option Bool)
bool_shape = pointer plain bool_in bool_cell (λ b. refl)

abbrev pub owner_pointers : OwnerStruct → Pointer × Pointer
owner_pointers o = (o.controller, o.block_owner_deletion)

abbrev pub owner_of : OwnerStruct → Option Bool × Option Bool → OwnerReference
owner_of o (controller, block) = record {
  api_version = o.api_version;
  kind = o.kind;
  name = o.name;
  uid = o.uid;
  controller = controller;
  block_owner_deletion = block;
}

abbrev pub owner_shape : Shape OwnerStruct OwnerReference
owner_shape = struct (both bool_shape bool_shape) owner_pointers owner_of

abbrev pub owners_shape : Shape Pointer (Option (List OwnerReference))
owners_shape = pointer (listed owner_shape) owners_in owners_cell (λ os. refl)

abbrev pub meta_pointers : MetaStruct → Pointer × Pointer
meta_pointers m = (m.owner_references, m.labels)

-- A nil slice of owners reads as the empty one.
abbrev pub meta_of : MetaStruct → Option (List OwnerReference) × Option StringMap → ObjectMeta
meta_of m (owners, labels) = record {
  name = m.name;
  namespace = m.namespace;
  uid = m.uid;
  owner_references = elim owners [ none ↦ [] | some os ↦ os ];
  labels = labels;
}

abbrev pub meta_shape : Shape MetaStruct ObjectMeta
meta_shape = struct (both owners_shape map_shape) meta_pointers meta_of

abbrev pub list_meta_pointer : ListMetaStruct → Pointer
list_meta_pointer m = m.remaining_item_count

abbrev pub list_meta_of : ListMetaStruct → Option ℤ → ListMeta
list_meta_of m count = record {
  resource_version = m.resource_version;
  continue_token = m.continue_token;
  remaining_item_count = count;
}

abbrev pub list_meta_shape : Shape ListMetaStruct ListMeta
list_meta_shape = struct count_shape list_meta_pointer list_meta_of

abbrev pub resource_pointers : ResourceStruct → Pointer × Pointer
resource_pointers r = (r.limits, r.requests)

abbrev pub resource_of : ResourceStruct → Option StringMap × Option StringMap → ResourceRequirements
resource_of r (limits, requests) = record { limits = limits; requests = requests }

abbrev pub resource_shape : Shape ResourceStruct ResourceRequirements
resource_shape = struct (both map_shape map_shape) resource_pointers resource_of

abbrev pub config_pointers : ConfigStruct → ResourceStruct × Pointer
config_pointers c = (c.resources, c.etc_config)

abbrev pub coordinator_of :
    ConfigStruct → ResourceRequirements × Option StringMap → CoordinatorConfig
coordinator_of c (resources, etc) = record { resources = resources; etc_config = etc }

abbrev pub worker_of : ConfigStruct → ResourceRequirements × Option StringMap → WorkerConfig
worker_of c (resources, etc) = record { resources = resources; etc_config = etc }

abbrev pub coordinator_shape : Shape ConfigStruct CoordinatorConfig
coordinator_shape = struct (both resource_shape map_shape) config_pointers coordinator_of

abbrev pub worker_shape : Shape ConfigStruct WorkerConfig
worker_shape = struct (both resource_shape map_shape) config_pointers worker_of

-- The parts of a spec that hold pointers.
abbrev pub SpecPointers : Type 0
SpecPointers = Pointer × (ConfigStruct × (ConfigStruct × (Pointer × Pointer)))

abbrev pub SpecParts : Type 0
SpecParts = Option ℤ × (CoordinatorConfig × (WorkerConfig × (Option StringMap × Option StringMap)))

abbrev pub spec_pointers : SpecStruct → SpecPointers
spec_pointers s =
    (s.workers, (s.coordinator_config, (s.worker_config, (s.catalog_config, s.coresite))))

abbrev pub spec_of : SpecStruct → SpecParts → PrestoClusterSpec
spec_of s (workers, (coordinator, (worker, (catalog, coresite)))) = record {
  name = s.name;
  image = s.image;
  workers = workers;
  coordinator_config = coordinator;
  worker_config = worker;
  catalog_config = catalog;
  coresite = coresite;
}

abbrev pub spec_parts_shape : Shape SpecPointers SpecParts
spec_parts_shape =
    both count_shape (both coordinator_shape (both worker_shape (both map_shape map_shape)))

abbrev pub spec_shape : Shape SpecStruct PrestoClusterSpec
spec_shape = struct spec_parts_shape spec_pointers spec_of

abbrev pub cluster_pointers : ClusterStruct → MetaStruct × SpecStruct
cluster_pointers c = (c.metadata, c.spec)

abbrev pub cluster_of : ClusterStruct → ObjectMeta × PrestoClusterSpec → PrestoCluster
cluster_of c (metadata, spec) = record {
  type_meta = c.type_meta;
  metadata = metadata;
  spec = spec;
  status = c.status;
}

abbrev pub cluster_shape : Shape ClusterStruct PrestoCluster
cluster_shape = struct (both meta_shape spec_shape) cluster_pointers cluster_of

abbrev pub items_shape : Shape Pointer (Option (List PrestoCluster))
items_shape = pointer (listed cluster_shape) clusters_in clusters_cell (λ cs. refl)

abbrev pub list_pointers : ListStruct → ListMetaStruct × Pointer
list_pointers l = (l.list_meta, l.items)

abbrev pub list_of : ListStruct → ListMeta × Option (List PrestoCluster) → PrestoClusterList
list_of l (list_meta, items) = record {
  type_meta = l.type_meta;
  list_meta = list_meta;
  items = items;
}

abbrev pub list_shape : Shape ListStruct PrestoClusterList
list_shape = struct (both list_meta_shape items_shape) list_pointers list_of

-- `*PrestoCluster` and `*PrestoClusterList`.
abbrev pub cluster_at : Shape Pointer (Option PrestoCluster)
cluster_at = pointer cluster_shape cluster_in cluster_cell (λ c. refl)

abbrev pub list_at : Shape Pointer (Option PrestoClusterList)
list_at = pointer list_shape list_in list_cell (λ l. refl)

-- The libraries' deep copies over the heap, as documented: each reaches new cells only, and its
-- value is the one that the same copy has over values.
pub record HasCopies (lib : Machinery) (heap_lib : HeapMachinery) : Type 0 where
  pub object_meta : IsCopy meta_shape lib.object_meta_deep_copy heap_lib.object_meta_deep_copy_into
  pub list_meta : IsCopy list_meta_shape lib.list_meta_deep_copy heap_lib.list_meta_deep_copy_into
  pub resources : IsCopy resource_shape lib.resources_deep_copy heap_lib.resources_deep_copy_into
