-- ===== src/Utils/Splitting.antt =====
-- Which dynamic arguments and configurations are accepted, and what is made of them.
use presto_on_k8s_operator.Prelude.{
  ℕ, ◌≡◌, refl, sym, ◌∙◌, ap, ◌≢◌, ◌↔◌, Bool, List, [], ◌∷◌, ◌++◌, none, some, arith, length, ◌==◌,
}
use presto_on_k8s_operator.Strings.{split}
use presto_on_k8s_operator.Strings.Laws.{
  Lacks, join, count_by, split_by-Lacks, length-split_by, split_by_lacking, split_by-append,
  join-split,
}
use presto_on_k8s_operator.Text.{Text}
use presto_on_k8s_operator.Utils.{two_parts, split_dynamic_args, split_dynamic_configs}

-- The test for a separator.
abbrev pub is : ℕ → ℕ → Bool
is sep c = c == sep

two_parts_some : (ps : List Text) (m k v : Text) → two_parts ps m ≡ (k, v, none) → ps ≡ k ∷ v ∷ []
unfolding two_parts
two_parts_some [] m k v h = ground arith
two_parts_some (p ∷ []) m k v h = ground arith
two_parts_some (p ∷ q ∷ []) m k v h = ground arith
two_parts_some (p ∷ q ∷ r ∷ ps) m k v h = ground arith

two_parts_none : (ps : List Text) (m : Text) → length ps ≢ 2 → two_parts ps m ≡ ([], [], some m)
unfolding two_parts
two_parts_none [] m h = refl
two_parts_none (p ∷ []) m h = refl
two_parts_none (p ∷ q ∷ []) m h = absurd (h refl)
two_parts_none (p ∷ q ∷ r ∷ ps) m h = refl

two_parts_accepted :
    (sep : ℕ) (s k v m : Text)
    → two_parts (split s sep) m ≡ (k, v, none)
    → (s ≡ k ++ sep ∷ v) × Lacks (is sep) k × Lacks (is sep) v
unfolding join split
two_parts_accepted sep s k v m h =
    let parts = two_parts_some (split s sep) m k v h in
    let lacking = split_by-Lacks (is sep) s in
    let (l, r) = rw parts at lacking in
    (sym (join-split s sep) ∙ ap (λ ps. join ps sep) parts, l, r.0)

two_parts_join :
    (sep : ℕ) (k v m : Text)
    → Lacks (is sep) k
    → Lacks (is sep) v
    → two_parts (split (k ++ sep ∷ v) sep) m ≡ (k, v, none)
unfolding two_parts split
two_parts_join sep k v m hk hv =
    ground
      (arith, split_by-append (is sep) k sep v hk (ground arith), split_by_lacking (is sep) v hv)

two_parts_refused :
    (sep : ℕ) (s m : Text) → count_by (is sep) s ≢ 1 → two_parts (split s sep) m ≡ ([], [], some m)
two_parts_refused sep s m h =
    two_parts_none (split s sep) m
      (unfold split in λ e. omega (arith, length-split_by (is sep) s, e, h))

two_parts_error : (ps : List Text) (m e : Text) → two_parts ps m ≡ ([], [], some e) → length ps ≢ 2
unfolding two_parts
two_parts_error [] m e h two = omega (arith, two)
two_parts_error (p ∷ []) m e h two = omega (arith, two)
two_parts_error (p ∷ q ∷ []) m e h two = ground arith
two_parts_error (p ∷ q ∷ r ∷ ps) m e h two = omega (arith, two)

two_parts_counted :
    (sep : ℕ) (s m e : Text)
    → two_parts (split s sep) m ≡ ([], [], some e)
    → count_by (is sep) s ≢ 1
two_parts_counted sep s m e h one =
    two_parts_error (split s sep) m e h
      (unfold split in omega (arith, length-split_by (is sep) s, one))

-- A dynamic argument is taken for a key and a value exactly if it is the two with one `=` between
-- them, and neither holds an `=`. A dynamic configuration is, exactly if it is the two with one `:`
-- between them, and neither holds a `:`.
pub split_dynamic_iff :
    (s key value : Text)
    → ((split_dynamic_args s ≡ (key, value, none))
        ↔ ((s ≡ key ++ b'=' ∷ value) × Lacks (is b'=') key × Lacks (is b'=') value))
      × ((split_dynamic_configs s ≡ (key, value, none))
          ↔ ((s ≡ key ++ b':' ∷ value) × Lacks (is b':') key × Lacks (is b':') value))
unfolding split_dynamic_args split_dynamic_configs
split_dynamic_iff s key value = (
  (two_parts_accepted b'=' s key value _, λ h. rw (h.0) (two_parts_join b'=' key value _ h.1 h.2)),
  (two_parts_accepted b':' s key value _, λ h. rw (h.0) (two_parts_join b':' key value _ h.1 h.2)),
)

-- An argument is refused, with empty texts and an error, exactly if it has no `=` or more than one,
-- and a configuration exactly if it has no `:` or more than one.
pub split_dynamic_refused :
    (s : Text)
    → ((count_by (is b'=') s ≢ 1) ↔ ((e : Text) × (split_dynamic_args s ≡ ([], [], some e))))
      × ((count_by (is b':') s ≢ 1) ↔ ((e : Text) × (split_dynamic_configs s ≡ ([], [], some e))))
unfolding split_dynamic_args split_dynamic_configs
split_dynamic_refused s = (
  (λ h. (_, two_parts_refused b'=' s _ h), λ (e, h). two_parts_counted b'=' s _ e h),
  (λ h. (_, two_parts_refused b':' s _ h), λ (e, h). two_parts_counted b':' s _ e h),
)
