-- ===== src/Api/Heap/Copies.antt =====
-- The generated deep copies share no cell with what they copy.
use mathlib.Core.Option
use presto_on_k8s_operator.Api.DeepCopy.{
  copy_map, coordinator_config_deep_copy, worker_config_deep_copy, presto_cluster_spec_deep_copy,
  presto_cluster_deep_copy, presto_cluster_list_deep_copy,
}
use presto_on_k8s_operator.Api.Cells.{
  Heap, HeapMachinery, map_in, map_cell, count_in, count_cell, clusters_in, clusters_cell,
}
use presto_on_k8s_operator.Api.Heap.{
  copy_map_into, copy_count_into, coordinator_config_deep_copy_into, worker_config_deep_copy_into,
  presto_cluster_spec_deep_copy_into, presto_cluster_deep_copy_into, copy_items,
  presto_cluster_list_deep_copy_into,
}
use presto_on_k8s_operator.Api.Heap.Shapes.{
  Shape, IsCopy, plain, plain-IsCopy, both, copy_both, copy_both-IsCopy, copy_pointer-IsCopy,
}
use presto_on_k8s_operator.Api.Heap.Structs.{listed, copy_each-IsCopy, struct-IsCopy}
use presto_on_k8s_operator.Api.Heap.Reading.{
  HasCopies, map_shape, count_shape, resource_shape, config_pointers, coordinator_of, worker_of,
  coordinator_shape, worker_shape, spec_pointers, spec_of, spec_parts_shape, spec_shape, meta_shape,
  cluster_pointers, cluster_of, cluster_shape, items_shape, list_meta_shape, list_pointers, list_of,
  list_shape,
}
use presto_on_k8s_operator.Kube.Machinery.{Machinery}
use presto_on_k8s_operator.Maps.{assign_all}
use presto_on_k8s_operator.Prelude.{◌≡◌, refl, ◌∙◌, none, some, [], map}

-- Functions with the same values describe the same copy.
pub IsCopy-eq :
    {T V : Type 0} (shape : Shape T V) (value value' : V → V) (into : T → Heap → T × Heap)
    → ((v : V) → value v ≡ value' v)
    → IsCopy shape value into
    → IsCopy shape value' into
IsCopy-eq shape value value' into same copies h t w =
    let c = copies h t w in
    record {
      grown = c.grown;
      kept = c.kept;
      fresh = c.fresh;
      copied = c.copied ∙ same (shape.load h t);
    }

copy_map_into-IsCopy : IsCopy map_shape copy_map copy_map_into
unfolding copy_map_into copy_map
copy_map_into-IsCopy =
    IsCopy-eq map_shape (Option.map (λ m. assign_all [] m [])) copy_map copy_map_into
      (λ o. elim o [ none ↦ refl | some m ↦ refl ])
      (copy_pointer-IsCopy plain map_in map_cell (λ m. refl) _ _ _
        (plain-IsCopy (λ m. assign_all [] m [])))

copy_count_into-IsCopy : IsCopy count_shape (λ n. n) copy_count_into
unfolding copy_count_into
copy_count_into-IsCopy =
    IsCopy-eq count_shape (Option.map (λ n. n)) (λ n. n) copy_count_into
      (λ o. elim o as (λ p. Option.map (λ n. n) p ≡ p) [ none ↦ refl | some n ↦ refl ])
      (copy_pointer-IsCopy plain count_in count_cell (λ n. refl) _ _ _ (plain-IsCopy (λ n. n)))

module _ (lib : Machinery) (heap_lib : HeapMachinery) (copies : HasCopies lib heap_lib) where
  coordinator-IsCopy :
      IsCopy coordinator_shape
        (coordinator_config_deep_copy lib)
        (coordinator_config_deep_copy_into heap_lib)
  unfolding coordinator_config_deep_copy coordinator_config_deep_copy_into
  coordinator-IsCopy =
      struct-IsCopy (both resource_shape map_shape) config_pointers coordinator_of
        (λ (resources, etc). (lib.resources_deep_copy resources, copy_map etc))
        (coordinator_config_deep_copy lib)
        (copy_both resource_shape map_shape heap_lib.resources_deep_copy_into copy_map_into)
        (λ c (resources, etc). record { resources = resources; etc_config = etc })
        (copy_both-IsCopy resource_shape map_shape _ _ _ _ copies.resources copy_map_into-IsCopy)
        (λ c t. refl) (λ c t v. refl)

  worker-IsCopy :
      IsCopy worker_shape (worker_config_deep_copy lib) (worker_config_deep_copy_into heap_lib)
  unfolding worker_config_deep_copy worker_config_deep_copy_into
  worker-IsCopy =
      struct-IsCopy (both resource_shape map_shape) config_pointers worker_of
        (λ (resources, etc). (lib.resources_deep_copy resources, copy_map etc))
        (worker_config_deep_copy lib)
        (copy_both resource_shape map_shape heap_lib.resources_deep_copy_into copy_map_into)
        (λ c (resources, etc). record { resources = resources; etc_config = etc })
        (copy_both-IsCopy resource_shape map_shape _ _ _ _ copies.resources copy_map_into-IsCopy)
        (λ c t. refl) (λ c t v. refl)

  spec-IsCopy :
      IsCopy spec_shape
        (presto_cluster_spec_deep_copy lib)
        (presto_cluster_spec_deep_copy_into heap_lib)
  unfolding presto_cluster_spec_deep_copy presto_cluster_spec_deep_copy_into
  spec-IsCopy =
      struct-IsCopy spec_parts_shape spec_pointers spec_of
        (λ (workers, (coordinator, (worker, (catalog, coresite)))). (
          workers,
          (
            coordinator_config_deep_copy lib coordinator,
            (worker_config_deep_copy lib worker, (copy_map catalog, copy_map coresite)),
          ),
        ))
        (presto_cluster_spec_deep_copy lib)
        (copy_both count_shape
          (both coordinator_shape (both worker_shape (both map_shape map_shape))) copy_count_into
          (copy_both coordinator_shape (both worker_shape (both map_shape map_shape))
            (coordinator_config_deep_copy_into heap_lib)
            (copy_both worker_shape (both map_shape map_shape)
              (worker_config_deep_copy_into heap_lib)
              (copy_both map_shape map_shape copy_map_into copy_map_into))))
        (λ s (workers, (coordinator, (worker, (catalog, coresite)))). record s {
          workers = workers;
          coordinator_config = coordinator;
          worker_config = worker;
          catalog_config = catalog;
          coresite = coresite;
        })
        (copy_both-IsCopy count_shape _ _ _ _ _ copy_count_into-IsCopy (
          copy_both-IsCopy coordinator_shape _ _ _ _ _ coordinator-IsCopy (
            copy_both-IsCopy worker_shape _ _ _ _ _ worker-IsCopy (
              copy_both-IsCopy map_shape map_shape _ _ _ _ copy_map_into-IsCopy
                copy_map_into-IsCopy))))
        (λ s t. refl) (λ s t v. refl)

  pub cluster-IsCopy :
      IsCopy cluster_shape (presto_cluster_deep_copy lib) (presto_cluster_deep_copy_into heap_lib)
  unfolding presto_cluster_deep_copy presto_cluster_deep_copy_into
  cluster-IsCopy =
      struct-IsCopy (both meta_shape spec_shape) cluster_pointers cluster_of
        (λ (metadata, spec).
          (lib.object_meta_deep_copy metadata, presto_cluster_spec_deep_copy lib spec))
        (presto_cluster_deep_copy lib)
        (copy_both meta_shape spec_shape heap_lib.object_meta_deep_copy_into
          (presto_cluster_spec_deep_copy_into heap_lib))
        (λ c (metadata, spec). record c { metadata = metadata; spec = spec })
        (copy_both-IsCopy meta_shape spec_shape _ _ _ _ copies.object_meta spec-IsCopy)
        (λ c t. refl) (λ c t v. refl)

  items-IsCopy :
      IsCopy items_shape (Option.map (map (presto_cluster_deep_copy lib))) (copy_items heap_lib)
  unfolding copy_items
  items-IsCopy =
      copy_pointer-IsCopy (listed cluster_shape) clusters_in clusters_cell (λ cs. refl) _ _ _
        (copy_each-IsCopy cluster_shape _ _ cluster-IsCopy)

  pub list-IsCopy :
      IsCopy list_shape
        (presto_cluster_list_deep_copy lib)
        (presto_cluster_list_deep_copy_into heap_lib)
  unfolding presto_cluster_list_deep_copy presto_cluster_list_deep_copy_into
  list-IsCopy =
      struct-IsCopy (both list_meta_shape items_shape) list_pointers list_of
        (λ (list_meta, items). (
          lib.list_meta_deep_copy list_meta,
          Option.map (map (presto_cluster_deep_copy lib)) items,
        ))
        (presto_cluster_list_deep_copy lib)
        (copy_both list_meta_shape items_shape heap_lib.list_meta_deep_copy_into
          (copy_items heap_lib))
        (λ l (list_meta, items). record l { list_meta = list_meta; items = items })
        (copy_both-IsCopy list_meta_shape items_shape _ _ _ _ copies.list_meta items-IsCopy)
        (λ l t. refl) (λ l t v. refl)
