-- ===== src/Api/Heap/Shapes.antt =====
-- What a value in a heap stands for, which cells it reaches, and what a deep copy does to both.
use mathlib.Core.Option
use presto_on_k8s_operator.Api.Cells.{Pointer, Heap, Cell, write, allocate}
use presto_on_k8s_operator.Api.Heap.{copy_pointer}
use presto_on_k8s_operator.Prelude.{
  ℕ, ◌≤◌, ◌<◌, ◌≡◌, refl, sym, ◌∙◌, ap, subst, ◌≢◌, Option, none, some, arith,
}

-- The second heap holds what the first does at the addresses from `low` up to `high`.
abbrev pub Same : ℕ → ℕ → Heap → Heap → Type 0
Same low high h k = (r : ℕ) → low ≤ r → r < high → k.cell r ≡ h.cell r

cell-write : (p : ℕ) (c : Cell) (h : Heap) → (write p c h).cell p ≡ c
cell-write p c h = ground arith

cell-write_other : (p r : ℕ) (c : Cell) (h : Heap) → p ≢ r → (write p c h).cell r ≡ h.cell r
cell-write_other p r c h ne = ground (arith, ne)

-- Values of `T` read as `V`, with the addresses that they reach.
pub record Shape (T V : Type 0) : Type 1 where
  pub load : Heap → T → V
  pub Within : Heap → ℕ → ℕ → T → Type 0
  pub frame :
      (h k : Heap) (low high : ℕ) (t : T)
      → Within h low high t
      → Same low high h k
      → (load k t ≡ load h t) × Within k low high t
  pub widen :
      (h : Heap) (low low' high high' : ℕ) (t : T)
      → low' ≤ low
      → high ≤ high'
      → Within h low high t
      → Within h low' high' t

-- A copy keeps the heap that it found, reaches new cells only, and reads as `value` says.
pub record IsCopied {T V : Type 0} (shape : Shape T V) (value : V → V) (h : Heap) (t : T)
    (copy : T × Heap) : Type 0 where
  pub grown : h.next ≤ copy.1.next
  pub kept : Same 0 h.next h copy.1
  pub fresh : shape.Within copy.1 h.next copy.1.next copy.0
  pub copied : shape.load copy.1 copy.0 ≡ value (shape.load h t)

abbrev pub IsCopy : {T V : Type 0} → Shape T V → (V → V) → (T → Heap → T × Heap) → Type 0
IsCopy {T} shape value into =
    (h : Heap) (t : T) → shape.Within h 0 h.next t → IsCopied shape value h t (into t h)

abbrev pub plain : {A : Type 0} → Shape A A
plain = record {
  load = λ h a. a;
  Within = λ h low high a. Unit;
  frame = λ h k low high a w same. (refl, tt);
  widen = λ h low low' high high' a le le' w. tt;
}

pub plain-IsCopy : {A : Type 0} (value : A → A) → IsCopy (plain {A = A}) value (λ a h. (value a, h))
plain-IsCopy value h a w = record {
  grown = omega arith;
  kept = λ r le lt. refl;
  fresh = tt;
  copied = refl;
}

pub pair_eq :
    {V W : Type 0} (v v' : V) (w w' : W) → v ≡ v' → w ≡ w' → ◌≡◌ {A = V × W} (v, w) (v', w')
pair_eq v v' w w' e f = cc

module _ {A B V W : Type 0} (a : Shape A V) (b : Shape B W) where
  abbrev pub both : Shape (A × B) (V × W)
  both = record {
    load = λ h (x, y). (a.load h x, b.load h y);
    Within = λ h low high (x, y). a.Within h low high x × b.Within h low high y;
    frame = λ h k low high (x, y) (w, v) same.
        let (e, w') = a.frame h k low high x w same in
        let (f, v') = b.frame h k low high y v same in (pair_eq _ _ _ _ e f, (w', v'));
    widen = λ h low low' high high' (x, y) le le' (w, v).
        (a.widen h low low' high high' x le le' w, b.widen h low low' high high' y le le' v);
  }

  abbrev pub copy_both :
      (A → Heap → A × Heap) → (B → Heap → B × Heap) → A × B → Heap → (A × B) × Heap
  copy_both f g (x, y) h = let (x', h1) = f x h in let (y', h2) = g y h1 in ((x', y'), h2)

  pub copy_both-IsCopy :
      (v : V → V) (w : W → W) (f : A → Heap → A × Heap) (g : B → Heap → B × Heap)
      → IsCopy a v f
      → IsCopy b w g
      → IsCopy both (λ (p, q). (v p, w q)) (copy_both f g)
  copy_both-IsCopy v w f g first second h (x, y) (in_x, in_y) =
      let (x', h1) = f x h in
      let c = first h x in_x in
      let (read_y, in_y') = b.frame h h1 0 h.next y in_y c.kept in
      let d = second h1 y (b.widen h1 0 0 h.next h1.next y (omega arith) c.grown in_y') in
      let (y', h2) = g y h1 in
      let (read_x', in_x') =
        a.frame h1 h2 h.next h1.next x' c.fresh (λ r low high. d.kept r (omega arith) high) in
      record {
        grown = omega (arith, c.grown, d.grown);
        kept = λ r low high. d.kept r low (omega (arith, high, c.grown)) ∙ c.kept r low high;
        fresh = (
          a.widen h2 h.next h.next h1.next h2.next x' (omega arith) d.grown in_x',
          b.widen h2 h1.next h.next h2.next h2.next y' c.grown (omega arith) d.fresh,
        );
        copied = pair_eq _ _ _ _ (read_x' ∙ c.copied) (d.copied ∙ ap w read_y);
      }

-- A pointer reaches its cell and what the content reaches.
module _ {T V : Type 0} (shape : Shape T V) (content : Cell → T) (cell_of : T → Cell)
    (same_content : (t : T) → content (cell_of t) ≡ t) where
  abbrev pub load_at : Heap → Pointer → Option V
  load_at h none = none
  load_at h (some p) = some (shape.load h (content (h.cell p)))

  abbrev pub WithinAt : Heap → ℕ → ℕ → Pointer → Type 0
  WithinAt h low high none = Unit
  WithinAt h low high (some p) =
      (low ≤ p) × (p < high) × shape.Within h low high (content (h.cell p))

  pub frame_at :
      (h k : Heap) (low high : ℕ) (p : Pointer)
      → WithinAt h low high p
      → Same low high h k
      → (load_at k p ≡ load_at h p) × WithinAt k low high p
  frame_at h k low high none w same = (refl, tt)
  frame_at h k low high (some p) (le, lt, w) same =
      let (e, w') = shape.frame h k low high _ w same in
      let at = same p le lt in
      (
        ap (λ c. some (shape.load k (content c))) at ∙ ap some e,
        (le, lt, subst (λ c. shape.Within k low high (content c)) (sym at) w'),
      )

  pub widen_at :
      (h : Heap) (low low' high high' : ℕ) (p : Pointer)
      → low' ≤ low
      → high ≤ high'
      → WithinAt h low high p
      → WithinAt h low' high' p
  widen_at h low low' high high' none le le' w = tt
  widen_at h low low' high high' (some p) le le' (l, u, w) =
      (omega (arith, l, le), omega (arith, u, le'), shape.widen h low low' high high' _ le le' w)

  abbrev pub pointer : Shape Pointer (Option V)
  pointer = record { load = load_at; Within = WithinAt; frame = frame_at; widen = widen_at }

  pub copy_pointer-IsCopy :
      (value : V → V) (made : T → T) (into : T → Heap → T × Heap)
      → IsCopy shape value into
      → IsCopy pointer (Option.map value) (copy_pointer content cell_of made into)
  unfolding copy_pointer
  copy_pointer-IsCopy value made into copies h none w = record {
    grown = omega arith;
    kept = λ r le lt. refl;
    fresh = tt;
    copied = refl;
  }
  copy_pointer-IsCopy value made into copies h (some p) (le, lt, w) =
      let old = content (h.cell p) in
      let h0 = allocate (cell_of (made old)) h in
      let kept0 : Same 0 h.next h h0 =
        λ r low high. cell-write_other h.next r _ h (omega (arith, high)) in
      let (read, w0) = shape.frame h h0 0 h.next old w kept0 in
      let c =
        copies h0 old (shape.widen h0 0 0 h.next h0.next old (omega arith) (omega arith) w0) in
      let (new, h1) = into old h0 in
      let h2 = write h.next (cell_of new) h1 in
      let (read2, w2) =
        shape.frame h1 h2 h0.next h1.next new c.fresh
          (λ r low high. cell-write_other h.next r _ h1 (omega (arith, low))) in
      let here : content (h2.cell h.next) ≡ new =
        ap content (cell-write h.next (cell_of new) h1) ∙ same_content new in
      record {
        grown = omega (arith, c.grown);
        kept = λ r low high.
            cell-write_other h.next r _ h1 (omega (arith, high))
            ∙ c.kept r low (omega (arith, high))
            ∙ kept0 r low high;
        fresh = (
          omega arith,
          omega (arith, c.grown),
          subst (λ t. shape.Within h2 h.next h1.next t) (sym here)
              (shape.widen h2 h0.next h.next h1.next h1.next new (omega arith) (omega arith) w2),
        );
        copied = ap (λ t. some (shape.load h2 t)) here ∙ ap some (read2 ∙ c.copied ∙ ap value read);
      }
