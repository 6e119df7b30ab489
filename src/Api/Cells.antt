-- ===== src/Api/Cells.antt =====
-- api/v1alpha1/prestocluster_types.go in memory: structs that hold pointers, and the cells of a heap.
use presto_on_k8s_operator.Api.{PrestoClusterStatus, new_presto_cluster}
use presto_on_k8s_operator.Kube.Meta.{TypeMeta}
use presto_on_k8s_operator.Maps.{StringMap}
use presto_on_k8s_operator.Prelude.{
  ℕ, suc, Bool, false, Option, none, List, [], ◌==◌, if◌then◌else◌,
}
use presto_on_k8s_operator.Prelude.Int.{ℤ, pos}
use presto_on_k8s_operator.Text.{Text}

-- A pointer, a map or a slice: nil, or the address of its cell.
abbrev pub Pointer : Type 0
Pointer = Option ℕ

-- `metav1.OwnerReference`, `metav1.ObjectMeta` (its owners are a slice), `metav1.ListMeta` and
-- `corev1.ResourceRequirements`, with pointers for what they refer to.
pub record OwnerStruct : Type 0 where
  pub api_version : Text
  pub kind : Text
  pub name : Text
  pub uid : Text
  pub controller : Pointer
  pub block_owner_deletion : Pointer

pub record MetaStruct : Type 0 where
  pub name : Text
  pub namespace : Text
  pub uid : Text
  pub owner_references : Pointer
  pub labels : Pointer

pub record ListMetaStruct : Type 0 where
  pub resource_version : Text
  pub continue_token : Text
  pub remaining_item_count : Pointer

pub record ResourceStruct : Type 0 where
  pub limits : Pointer
  pub requests : Pointer

-- The structs of the resource, with pointers for what they refer to. `CoordinatorConfig` and
-- `WorkerConfig` have the same fields.
pub record ConfigStruct : Type 0 where
  pub resources : ResourceStruct
  pub etc_config : Pointer

pub record SpecStruct : Type 0 where
  pub name : Text
  pub image : Text
  pub workers : Pointer
  pub coordinator_config : ConfigStruct
  pub worker_config : ConfigStruct
  pub catalog_config : Pointer
  pub coresite : Pointer

pub record ClusterStruct : Type 0 where
  pub type_meta : TypeMeta
  pub metadata : MetaStruct
  pub spec : SpecStruct
  pub status : PrestoClusterStatus

-- `PrestoClusterList`: its items are a slice.
pub record ListStruct : Type 0 where
  pub type_meta : TypeMeta
  pub list_meta : ListMetaStruct
  pub items : Pointer

-- What an address holds.
pub data Cell : Type 0 where
  map_cell : StringMap → Cell
  count_cell : ℤ → Cell
  bool_cell : Bool → Cell
  owners_cell : List OwnerStruct → Cell
  config_cell : ConfigStruct → Cell
  spec_cell : SpecStruct → Cell
  status_cell : PrestoClusterStatus → Cell
  cluster_cell : ClusterStruct → Cell
  clusters_cell : List ClusterStruct → Cell
  list_cell : ListStruct → Cell

-- The addresses below `next` are taken.
pub record Heap : Type 0 where
  pub next : ℕ
  pub cell : ℕ → Cell

abbrev pub write : ℕ → Cell → Heap → Heap
write p c h = record h { cell = λ q. if q == p then c else h.cell q }

abbrev pub allocate : Cell → Heap → Heap
allocate c h = record (write h.next c h) { next = suc h.next }

-- `DeepCopyInto` of the Kubernetes libraries' structs: what is written to `out`, and the heap.
pub record HeapMachinery : Type 0 where
  pub object_meta_deep_copy_into : MetaStruct → Heap → MetaStruct × Heap
  pub list_meta_deep_copy_into : ListMetaStruct → Heap → ListMetaStruct × Heap
  pub resources_deep_copy_into : ResourceStruct → Heap → ResourceStruct × Heap

-- `new(PrestoCluster)`, as an item of a new slice.
abbrev pub new_cluster_struct : ClusterStruct
new_cluster_struct =
    let none_set : ConfigStruct = record {
      resources = record { limits = none; requests = none };
      etc_config = none;
    } in
    record {
      type_meta = new_presto_cluster.type_meta;
      metadata = record {
        name = [];
        namespace = [];
        uid = [];
        owner_references = none;
        labels = none;
      };
      spec = record {
        name = [];
        image = [];
        workers = none;
        coordinator_config = none_set;
        worker_config = none_set;
        catalog_config = none;
        coresite = none;
      };
      status = record { available_workers = pos 0 };
    }

-- The content of a cell of each type: Go's types rule out the other cells.
abbrev pub map_in : Cell → StringMap
map_in (map_cell m) = m
map_in _ = []

abbrev pub count_in : Cell → ℤ
count_in (count_cell n) = n
count_in _ = pos 0

abbrev pub bool_in : Cell → Bool
bool_in (bool_cell b) = b
bool_in _ = false

abbrev pub owners_in : Cell → List OwnerStruct
owners_in (owners_cell os) = os
owners_in _ = []

abbrev pub clusters_in : Cell → List ClusterStruct
clusters_in (clusters_cell cs) = cs
clusters_in _ = []

abbrev pub config_in : Cell → ConfigStruct
config_in (config_cell c) = c
config_in _ = new_cluster_struct.spec.coordinator_config

abbrev pub spec_in : Cell → SpecStruct
spec_in (spec_cell s) = s
spec_in _ = new_cluster_struct.spec

abbrev pub status_in : Cell → PrestoClusterStatus
status_in (status_cell s) = s
status_in _ = new_cluster_struct.status

abbrev pub cluster_in : Cell → ClusterStruct
cluster_in (cluster_cell c) = c
cluster_in _ = new_cluster_struct

abbrev pub list_in : Cell → ListStruct
list_in (list_cell l) = l
list_in _ = record {
  type_meta = new_presto_cluster.type_meta;
  list_meta = record { resource_version = []; continue_token = []; remaining_item_count = none };
  items = none;
}

-- A `runtime.Object` of the two registered types.
pub data RuntimeObject : Type 0 where
  presto_cluster : ℕ → RuntimeObject
  presto_cluster_list : ℕ → RuntimeObject
