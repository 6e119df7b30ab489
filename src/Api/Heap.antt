-- ===== src/Api/Heap.antt =====
-- api/v1alpha1/zz_generated.deepcopy.go over a heap: `DeepCopyInto`, `DeepCopy` and `DeepCopyObject`
-- with the cells that they allocate, and `PrestoClusterList` of prestocluster_types.go.
use presto_on_k8s_operator.Api.{PrestoClusterStatus, new_presto_cluster}
use presto_on_k8s_operator.Kube.Machinery.{Machinery}
use presto_on_k8s_operator.Kube.Meta.{ListMeta, ObjectMeta, ResourceRequirements, TypeMeta}
use presto_on_k8s_operator.Maps.{StringMap, assign_all}
use presto_on_k8s_operator.Prelude.{
  ℕ, suc, Option, none, some, List, [], ◌∷◌, map, ◌==◌, if◌then◌else◌,
}
use presto_on_k8s_operator.Prelude.Int.{ℤ, pos}
use presto_on_k8s_operator.Text.{Text}
pub mod Shapes
pub mod Structs
pub mod Reading
pub mod Separate
pub mod Copies
use presto_on_k8s_operator.Api.Cells.{
  Pointer, HeapMachinery, ConfigStruct, SpecStruct, ClusterStruct, ListStruct, Cell, map_cell,
  count_cell, config_cell, spec_cell, status_cell, cluster_cell, clusters_cell, list_cell, Heap,
  write, allocate, new_cluster_struct, map_in, count_in, clusters_in, config_in, spec_in, status_in,
  cluster_in, list_in, RuntimeObject, presto_cluster, presto_cluster_list,
}

-- The new pointer's cell is made by `make` or `new`, and then filled from the old one's.
unfoldable pub copy_pointer :
    {T : Type 0} (content : Cell → T) (cell_of : T → Cell) (made : T → T)
    (into : T → Heap → T × Heap)
    → Pointer
    → Heap
    → Pointer × Heap
copy_pointer content cell_of made into none h = (none, h)
copy_pointer content cell_of made into (some p) h =
    let old = content (h.cell p) in
    let (new, h') = into old (allocate (cell_of (made old)) h) in
    (some h.next, write h.next (cell_of new) h')

-- `for i := range in { in[i].DeepCopyInto(&out[i]) }`
unfoldable pub copy_each : {T : Type 0} (into : T → Heap → T × Heap) → List T → Heap → List T × Heap
copy_each into [] h = ([], h)
copy_each into (t ∷ ts) h =
    let (t', h1) = into t h in let (ts', h2) = copy_each into ts h1 in (t' ∷ ts', h2)

-- `make(map[string]string)`, and then the entries one by one.
unfoldable pub copy_map_into : Pointer → Heap → Pointer × Heap
copy_map_into = copy_pointer map_in map_cell (λ _. []) (λ m h. (assign_all [] m [], h))

unfoldable pub copy_count_into : Pointer → Heap → Pointer × Heap
copy_count_into = copy_pointer count_in count_cell (λ _. pos 0) (λ n h. (n, h))

module _ (lib : HeapMachinery) where
  unfoldable pub coordinator_config_deep_copy_into : ConfigStruct → Heap → ConfigStruct × Heap
  coordinator_config_deep_copy_into c h =
      let (resources, h1) = lib.resources_deep_copy_into c.resources h in
      let (etc, h2) = copy_map_into c.etc_config h1 in
      (record c { resources = resources; etc_config = etc }, h2)

  unfoldable pub worker_config_deep_copy_into : ConfigStruct → Heap → ConfigStruct × Heap
  worker_config_deep_copy_into c h =
      let (resources, h1) = lib.resources_deep_copy_into c.resources h in
      let (etc, h2) = copy_map_into c.etc_config h1 in
      (record c { resources = resources; etc_config = etc }, h2)

  unfoldable pub presto_cluster_spec_deep_copy_into : SpecStruct → Heap → SpecStruct × Heap
  presto_cluster_spec_deep_copy_into s h =
      let (workers, h1) = copy_count_into s.workers h in
      let (coordinator, h2) = coordinator_config_deep_copy_into s.coordinator_config h1 in
      let (worker, h3) = worker_config_deep_copy_into s.worker_config h2 in
      let (catalog, h4) = copy_map_into s.catalog_config h3 in
      let (coresite, h5) = copy_map_into s.coresite h4 in
      (
        record s {
          workers = workers;
          coordinator_config = coordinator;
          worker_config = worker;
          catalog_config = catalog;
          coresite = coresite;
        },
        h5,
      )

  unfoldable pub presto_cluster_status_deep_copy_into :
      PrestoClusterStatus → Heap → PrestoClusterStatus × Heap
  presto_cluster_status_deep_copy_into s h = (s, h)

  unfoldable pub presto_cluster_deep_copy_into : ClusterStruct → Heap → ClusterStruct × Heap
  presto_cluster_deep_copy_into c h =
      let (metadata, h1) = lib.object_meta_deep_copy_into c.metadata h in
      let (spec, h2) = presto_cluster_spec_deep_copy_into c.spec h1 in
      (record c { metadata = metadata; spec = spec }, h2)

  unfoldable pub copy_items : Pointer → Heap → Pointer × Heap
  copy_items =
      copy_pointer clusters_in clusters_cell (map (λ _. new_cluster_struct))
        (copy_each presto_cluster_deep_copy_into)

  unfoldable pub presto_cluster_list_deep_copy_into : ListStruct → Heap → ListStruct × Heap
  presto_cluster_list_deep_copy_into l h =
      let (list_meta, h1) = lib.list_meta_deep_copy_into l.list_meta h in
      let (items, h2) = copy_items l.items h1 in
      (record l { list_meta = list_meta; items = items }, h2)

  -- `DeepCopy` of each type: nil for nil, and else a new struct that `DeepCopyInto` fills, its first
  -- statement being `*out = *in`.
  unfoldable pub coordinator_config_deep_copy_new : Pointer → Heap → Pointer × Heap
  coordinator_config_deep_copy_new =
      copy_pointer config_in config_cell (λ c. c) coordinator_config_deep_copy_into

  unfoldable pub worker_config_deep_copy_new : Pointer → Heap → Pointer × Heap
  worker_config_deep_copy_new =
      copy_pointer config_in config_cell (λ c. c) worker_config_deep_copy_into

  unfoldable pub presto_cluster_spec_deep_copy_new : Pointer → Heap → Pointer × Heap
  presto_cluster_spec_deep_copy_new =
      copy_pointer spec_in spec_cell (λ s. s) presto_cluster_spec_deep_copy_into

  unfoldable pub presto_cluster_status_deep_copy_new : Pointer → Heap → Pointer × Heap
  presto_cluster_status_deep_copy_new =
      copy_pointer status_in status_cell (λ s. s) presto_cluster_status_deep_copy_into

  unfoldable pub presto_cluster_deep_copy_new : Pointer → Heap → Pointer × Heap
  presto_cluster_deep_copy_new =
      copy_pointer cluster_in cluster_cell (λ c. c) presto_cluster_deep_copy_into

  unfoldable pub presto_cluster_list_deep_copy_new : Pointer → Heap → Pointer × Heap
  presto_cluster_list_deep_copy_new =
      copy_pointer list_in list_cell (λ l. l) presto_cluster_list_deep_copy_into

  -- `DeepCopyObject`: an interface that is nil for a nil copy.
  unfoldable pub presto_cluster_deep_copy_object : Pointer → Heap → Option RuntimeObject × Heap
  presto_cluster_deep_copy_object p h =
      let (c, h') = presto_cluster_deep_copy_new p h in
      (elim c [ none ↦ none | some a ↦ some (presto_cluster a) ], h')

  unfoldable pub presto_cluster_list_deep_copy_object : Pointer → Heap → Option RuntimeObject × Heap
  presto_cluster_list_deep_copy_object p h =
      let (c, h') = presto_cluster_list_deep_copy_new p h in
      (elim c [ none ↦ none | some a ↦ some (presto_cluster_list a) ], h')
