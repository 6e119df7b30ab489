-- ===== src/Api/Heap/Separate.antt =====
-- A deep copy and what it copies do not see each other's changes.
use mathlib.Core.Option.{none-ne-some}
use mathlib.Core.Option
use presto_on_k8s_operator.Api.{PrestoCluster, PrestoClusterList}
use presto_on_k8s_operator.Api.DeepCopy.{
  HasMaps, HasMapsEach, presto_cluster_deep_copy, presto_cluster_list_deep_copy,
  presto_cluster_deep_copy_lem, presto_cluster_list_deep_copy_lem,
}
use presto_on_k8s_operator.Api.Cells.{
  Pointer, Heap, HeapMachinery, cluster_in, cluster_cell, list_in, list_cell, presto_cluster_list,
}
use presto_on_k8s_operator.Api.Heap.{
  copy_pointer, presto_cluster_deep_copy_into, presto_cluster_list_deep_copy_into,
  presto_cluster_deep_copy_new, presto_cluster_list_deep_copy_new,
  presto_cluster_list_deep_copy_object,
}
use presto_on_k8s_operator.Api.Heap.Copies.{cluster-IsCopy, list-IsCopy}
use presto_on_k8s_operator.Api.Heap.Reading.{
  HasCopies, cluster_shape, list_shape, cluster_at, list_at,
}
use presto_on_k8s_operator.Api.Heap.Shapes.{Shape, Same, IsCopied, copy_pointer-IsCopy}
use presto_on_k8s_operator.Kube.Machinery.{Machinery, IsDocumented}
use presto_on_k8s_operator.Prelude.{ℕ, ◌≡◌, refl, ◌∙◌, ap, Option, none, some}

-- `copy` points to the value that `original` points to, and writes to any cells that were there
-- before the copy, or to any that the copy made, leave the other pointer's value alone.
pub record IsSeparate {V : Type 0} (at : Shape Pointer (Option V)) (value : V) (before after : Heap)
    (original copy : Pointer) : Type 0 where
  pub original_kept :
      (later : Heap) → Same 0 before.next after later → at.load later original ≡ some value
  pub copy_kept :
      (later : Heap) → Same before.next after.next after later → at.load later copy ≡ some value

IsCopied-IsSeparate :
    {V : Type 0} (at : Shape Pointer (Option V)) (copied : V → V) (v : V) (h k : Heap)
    (p q : Pointer)
    → at.Within h 0 h.next p
    → at.load h p ≡ some v
    → copied v ≡ v
    → IsCopied at (Option.map copied) h p (q, k)
    → IsSeparate at v h k p q
IsCopied-IsSeparate at copied v h k p q w read same c =
    let (kept, w') = at.frame h k 0 h.next p w c.kept in
    record {
      original_kept = λ m unwritten. (at.frame k m 0 h.next p w' unwritten).0 ∙ kept ∙ read;
      copy_kept = λ m unwritten.
          (at.frame k m h.next k.next q c.fresh unwritten).0
          ∙ c.copied
          ∙ ap (Option.map copied) read
          ∙ ap some same;
    }

module _ (lib : Machinery) (doc : IsDocumented lib) (heap_lib : HeapMachinery)
    (copies : HasCopies lib heap_lib) where
  -- Given documented libraries, whose own deep copies reach new cells only, and maps that list no
  -- key twice, `DeepCopy` of a cluster returns a pointer to a cluster of the same value, and the two
  -- are separate: changes through either pointer do not reach the other, whether to the struct, the
  -- labels and the owners of its metadata, the worker count, the limits and the requests of the
  -- coordinator and the workers, or the maps of the spec.
  pub presto_cluster_deep_copy_new-IsSeparate :
      (h : Heap) (p : Pointer) (cluster : PrestoCluster)
      → cluster_at.Within h 0 h.next p
      → cluster_at.load h p ≡ some cluster
      → HasMaps cluster
      → let (q, k) = presto_cluster_deep_copy_new heap_lib p h in
        IsSeparate cluster_at cluster h k p q
  unfolding presto_cluster_deep_copy_new
  presto_cluster_deep_copy_new-IsSeparate h p cluster w read maps =
      let (q, k) = presto_cluster_deep_copy_new heap_lib p h in
      IsCopied-IsSeparate cluster_at (presto_cluster_deep_copy lib) cluster h k p q w read
        (presto_cluster_deep_copy_lem lib cluster doc maps)
        (copy_pointer-IsCopy cluster_shape cluster_in cluster_cell (λ c. refl)
          (presto_cluster_deep_copy lib) (λ c. c) (presto_cluster_deep_copy_into heap_lib)
          (cluster-IsCopy lib heap_lib copies) h p w)

  list_copy-IsSeparate :
      (h : Heap) (p : Pointer) (list : PrestoClusterList)
      → list_at.Within h 0 h.next p
      → list_at.load h p ≡ some list
      → HasMapsEach list.items
      → let (q, k) = presto_cluster_list_deep_copy_new heap_lib p h in
        IsSeparate list_at list h k p q
  unfolding presto_cluster_list_deep_copy_new
  list_copy-IsSeparate h p list w read maps =
      let (q, k) = presto_cluster_list_deep_copy_new heap_lib p h in
      IsCopied-IsSeparate list_at (presto_cluster_list_deep_copy lib) list h k p q w read
        (presto_cluster_list_deep_copy_lem lib list doc maps)
        (copy_pointer-IsCopy list_shape list_in list_cell (λ c. refl)
          (presto_cluster_list_deep_copy lib) (λ c. c) (presto_cluster_list_deep_copy_into heap_lib)
          (list-IsCopy lib heap_lib copies) h p w)

  -- Given documented libraries, whose own deep copies reach new cells only, and maps that list no
  -- key twice, `DeepCopyObject` of a list of clusters returns a list of the same value, and the two
  -- are separate, down to the metadata, the resources and the maps of each item.
  pub presto_cluster_list_deep_copy_object-IsSeparate :
      (h : Heap) (p : Pointer) (list : PrestoClusterList)
      → list_at.Within h 0 h.next p
      → list_at.load h p ≡ some list
      → HasMapsEach list.items
      → let (object, k) = presto_cluster_list_deep_copy_object heap_lib p h in
        (q : ℕ) × (object ≡ some (presto_cluster_list q)) × IsSeparate list_at list h k p (some q)
  unfolding presto_cluster_list_deep_copy_object presto_cluster_list_deep_copy_new copy_pointer
  presto_cluster_list_deep_copy_object-IsSeparate h none list w read maps =
      absurd (none-ne-some list read)
  presto_cluster_list_deep_copy_object-IsSeparate h (some p) list w read maps =
      (h.next, refl, list_copy-IsSeparate h (some p) list w read maps)
