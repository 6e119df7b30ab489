-- ===== src/Api/Heap/Structs.antt =====
-- Deep copies of the items of a slice, and of a struct by way of its fields that hold pointers.
use presto_on_k8s_operator.Api.Cells.{Heap}
use presto_on_k8s_operator.Api.Heap.{copy_each}
use presto_on_k8s_operator.Api.Heap.Shapes.{Shape, Same, IsCopy}
use presto_on_k8s_operator.Prelude.{
  ℕ, ◌≤◌, ◌≡◌, refl, ◌∙◌, ap, sym, subst, List, [], ◌∷◌, map, arith,
}

module _ {T V : Type 0} (shape : Shape T V) where
  abbrev pub load_each : Heap → List T → List V
  load_each h = map (shape.load h)

  abbrev pub WithinEach : Heap → ℕ → ℕ → List T → Type 0
  WithinEach h low high [] = Unit
  WithinEach h low high (t ∷ ts) = shape.Within h low high t × WithinEach h low high ts

  pub frame_each :
      (h k : Heap) (low high : ℕ) (ts : List T)
      → WithinEach h low high ts
      → Same low high h k
      → (load_each k ts ≡ load_each h ts) × WithinEach k low high ts
  frame_each h k low high [] w same = (refl, tt)
  frame_each h k low high (t ∷ ts) (w, ws) same =
      let (e, w') = shape.frame h k low high t w same in
      let (es, ws') = frame_each h k low high ts ws same in (cc (e, es), (w', ws'))

  pub widen_each :
      (h : Heap) (low low' high high' : ℕ) (ts : List T)
      → low' ≤ low
      → high ≤ high'
      → WithinEach h low high ts
      → WithinEach h low' high' ts
  widen_each h low low' high high' [] le le' w = tt
  widen_each h low low' high high' (t ∷ ts) le le' (w, ws) =
      (shape.widen h low low' high high' t le le' w, widen_each h low low' high high' ts le le' ws)

  abbrev pub listed : Shape (List T) (List V)
  listed = record { load = load_each; Within = WithinEach; frame = frame_each; widen = widen_each }

  pub copy_each-IsCopy :
      (value : V → V) (into : T → Heap → T × Heap)
      → IsCopy shape value into
      → IsCopy listed (map value) (copy_each into)
  unfolding copy_each
  copy_each-IsCopy value into copies h [] w = record {
    grown = omega arith;
    kept = λ r le lt. refl;
    fresh = tt;
    copied = refl;
  }
  copy_each-IsCopy value into copies h (t ∷ ts) (w, ws) =
      let (t', h1) = into t h in
      let c = copies h t w in
      let (read, ws1) = frame_each h h1 0 h.next ts ws c.kept in
      let d =
        copy_each-IsCopy value into copies h1 ts
          (widen_each h1 0 0 h.next h1.next ts (omega arith) c.grown ws1) in
      let (ts', h2) = copy_each into ts h1 in
      let (read', w') =
        shape.frame h1 h2 h.next h1.next t' c.fresh (λ r low high. d.kept r (omega arith) high) in
      record {
        grown = omega (arith, c.grown, d.grown);
        kept = λ r low high. d.kept r low (omega (arith, high, c.grown)) ∙ c.kept r low high;
        fresh = (
          shape.widen h2 h.next h.next h1.next h2.next t' (omega arith) d.grown w',
          widen_each h2 h1.next h.next h2.next h2.next ts' c.grown (omega arith) d.fresh,
        );
        copied = cc (read', c.copied, d.copied, read);
      }

-- A struct `R`, read with `reading` from its fields that hold pointers and from the others.
module _ {R T V W : Type 0} (shape : Shape T V) (fields : R → T) (reading : R → V → W) where
  abbrev pub struct : Shape R W
  struct = record {
    load = λ h r. reading r (shape.load h (fields r));
    Within = λ h low high r. shape.Within h low high (fields r);
    frame = λ h k low high r w same.
        let (e, w') = shape.frame h k low high (fields r) w same in (ap (reading r) e, w');
    widen =
        λ h low low' high high' r le le' w. shape.widen h low low' high high' (fields r) le le' w;
  }

  pub struct-IsCopy :
      (value : V → V) (value' : W → W) (into : T → Heap → T × Heap) (with_fields : R → T → R)
      → IsCopy shape value into
      → ((r : R) (t : T) → fields (with_fields r t) ≡ t)
      → ((r : R) (t : T) (v : V) → reading (with_fields r t) (value v) ≡ value' (reading r v))
      → IsCopy struct value' (λ r h. let (t, h') = into (fields r) h in (with_fields r t, h'))
  struct-IsCopy value value' into with_fields copies same reads h r w =
      let (t, h') = into (fields r) h in
      let c = copies h (fields r) w in
      record {
        grown = c.grown;
        kept = c.kept;
        fresh = subst (shape.Within h' h.next h'.next) (sym (same r t)) c.fresh;
        copied =
            ap (λ u. reading (with_fields r t) (shape.load h' u)) (same r t)
            ∙ ap (reading (with_fields r t)) c.copied
            ∙ reads r t (shape.load h (fields r));
      }
