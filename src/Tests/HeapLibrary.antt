-- ===== src/Tests/HeapLibrary.antt =====
-- Deep copies of the Kubernetes libraries' structs over a heap, one cell at a time.
use mathlib.Core.Option
use presto_on_k8s_operator.Api.Cells.{
  Cell, Pointer, Heap, HeapMachinery, OwnerStruct, MetaStruct, ListMetaStruct, ResourceStruct,
  map_in, map_cell, count_in, count_cell, bool_in, bool_cell, owners_in, owners_cell,
}
use presto_on_k8s_operator.Api.Heap.{copy_pointer, copy_each}
use presto_on_k8s_operator.Api.Heap.Copies.{IsCopy-eq}
use presto_on_k8s_operator.Api.Heap.Reading.{
  HasCopies, map_shape, count_shape, bool_shape, owner_shape, owner_pointers, owner_of,
  owners_shape, meta_pointers, meta_of, meta_shape, list_meta_pointer, list_meta_of,
  list_meta_shape, resource_pointers, resource_of, resource_shape,
}
use presto_on_k8s_operator.Api.Heap.Shapes.{
  Shape, IsCopy, plain-IsCopy, both, copy_both, copy_both-IsCopy, pointer, copy_pointer-IsCopy,
}
use presto_on_k8s_operator.Api.Heap.Shapes
use presto_on_k8s_operator.Api.Heap.Structs.{listed, copy_each-IsCopy, struct-IsCopy}
use presto_on_k8s_operator.Prelude.{◌≡◌, refl, ap, none, some, List, [], ◌∷◌, map}
use presto_on_k8s_operator.Tests.Data.{plain}

map_same : {A : Type 0} (xs : List A) → map (λ x. x) xs ≡ xs
map_same [] = refl
map_same (x ∷ xs) = ap (λ ys. x ∷ ys) (map_same xs)

-- A new cell with the same content.
abbrev copy_cell : {A : Type 0} → (Cell → A) → (A → Cell) → Pointer → Heap → Pointer × Heap
copy_cell content cell_of = copy_pointer content cell_of (λ a. a) (λ a h. (a, h))

copy_cell-IsCopy :
    {A : Type 0} (content : Cell → A) (cell_of : A → Cell)
    (same : (a : A) → content (cell_of a) ≡ a)
    → IsCopy (pointer Shapes.plain content cell_of same) (λ o. o) (copy_cell content cell_of)
copy_cell-IsCopy content cell_of same =
    IsCopy-eq (pointer Shapes.plain content cell_of same) (Option.map (λ a. a)) (λ o. o)
      (copy_cell content cell_of)
      (λ o. elim o as (λ p. Option.map (λ a. a) p ≡ p) [ none ↦ refl | some a ↦ refl ])
      (copy_pointer-IsCopy Shapes.plain content cell_of same _ _ _ (plain-IsCopy (λ a. a)))

abbrev copy_bool : Pointer → Heap → Pointer × Heap
copy_bool = copy_cell bool_in bool_cell

abbrev copy_map : Pointer → Heap → Pointer × Heap
copy_map = copy_cell map_in map_cell

abbrev copy_owner : OwnerStruct → Heap → OwnerStruct × Heap
copy_owner o h =
    let (t, h') = copy_both bool_shape bool_shape copy_bool copy_bool (owner_pointers o) h in
    (record o { controller = t.0; block_owner_deletion = t.1 }, h')

copy_owner-IsCopy : IsCopy owner_shape (λ o. o) copy_owner
copy_owner-IsCopy =
    struct-IsCopy (both bool_shape bool_shape) owner_pointers owner_of (λ v. v) (λ o. o)
      (copy_both bool_shape bool_shape copy_bool copy_bool)
      (λ o t. record o { controller = t.0; block_owner_deletion = t.1 })
      (copy_both-IsCopy bool_shape bool_shape _ _ _ _
        (copy_cell-IsCopy bool_in bool_cell (λ b. refl))
        (copy_cell-IsCopy bool_in bool_cell (λ b. refl)))
      (λ o t. refl) (λ o t v. refl)

abbrev copy_owners : Pointer → Heap → Pointer × Heap
copy_owners = copy_pointer owners_in owners_cell (λ os. os) (copy_each copy_owner)

copy_owners-IsCopy : IsCopy owners_shape (λ o. o) copy_owners
copy_owners-IsCopy =
    IsCopy-eq owners_shape (Option.map (map (λ o. o))) (λ o. o) copy_owners
      (λ o. elim o as (λ p. Option.map (map (λ r. r)) p ≡ p) [
        | none ↦ refl
        | some os ↦ ap some (map_same os)
      ])
      (copy_pointer-IsCopy (listed owner_shape) owners_in owners_cell (λ os. refl) _ _ _
        (copy_each-IsCopy owner_shape _ _ copy_owner-IsCopy))

abbrev copy_meta : MetaStruct → Heap → MetaStruct × Heap
copy_meta m h =
    let (t, h') = copy_both owners_shape map_shape copy_owners copy_map (meta_pointers m) h in
    (record m { owner_references = t.0; labels = t.1 }, h')

copy_meta-IsCopy : IsCopy meta_shape (λ m. m) copy_meta
copy_meta-IsCopy =
    struct-IsCopy (both owners_shape map_shape) meta_pointers meta_of (λ v. v) (λ m. m)
      (copy_both owners_shape map_shape copy_owners copy_map)
      (λ m t. record m { owner_references = t.0; labels = t.1 })
      (copy_both-IsCopy owners_shape map_shape _ _ _ _ copy_owners-IsCopy
        (copy_cell-IsCopy map_in map_cell (λ m. refl)))
      (λ m t. refl) (λ m t v. refl)

abbrev copy_list_meta : ListMetaStruct → Heap → ListMetaStruct × Heap
copy_list_meta m h =
    let (t, h') = copy_cell count_in count_cell (list_meta_pointer m) h in
    (record m { remaining_item_count = t }, h')

copy_list_meta-IsCopy : IsCopy list_meta_shape (λ m. m) copy_list_meta
copy_list_meta-IsCopy =
    struct-IsCopy count_shape list_meta_pointer list_meta_of (λ v. v) (λ m. m)
      (copy_cell count_in count_cell) (λ m t. record m { remaining_item_count = t })
      (copy_cell-IsCopy count_in count_cell (λ n. refl)) (λ m t. refl) (λ m t v. refl)

abbrev copy_resources : ResourceStruct → Heap → ResourceStruct × Heap
copy_resources r h =
    let (t, h') = copy_both map_shape map_shape copy_map copy_map (resource_pointers r) h in
    (record r { limits = t.0; requests = t.1 }, h')

copy_resources-IsCopy : IsCopy resource_shape (λ r. r) copy_resources
copy_resources-IsCopy =
    struct-IsCopy (both map_shape map_shape) resource_pointers resource_of (λ v. v) (λ r. r)
      (copy_both map_shape map_shape copy_map copy_map)
      (λ r t. record r { limits = t.0; requests = t.1 })
      (copy_both-IsCopy map_shape map_shape _ _ _ _ (copy_cell-IsCopy map_in map_cell (λ m. refl))
        (copy_cell-IsCopy map_in map_cell (λ m. refl)))
      (λ r t. refl) (λ r t v. refl)

abbrev pub heap_plain : HeapMachinery
heap_plain = record {
  object_meta_deep_copy_into = copy_meta;
  list_meta_deep_copy_into = copy_list_meta;
  resources_deep_copy_into = copy_resources;
}

pub heap_plain-HasCopies : HasCopies plain heap_plain
heap_plain-HasCopies = record {
  object_meta = copy_meta-IsCopy;
  list_meta = copy_list_meta-IsCopy;
  resources = copy_resources-IsCopy;
}
