-- ===== src/Status/Message.antt =====
-- The message of the event tells both counts.
use mathlib.Core.List.{append_cancel_left}
use presto_on_k8s_operator.Decimal.{format_int}
use presto_on_k8s_operator.Decimal.Laws.{format_int-Lacks, format_int_injective}
use presto_on_k8s_operator.Prelude.{
  ◌≡◌, refl, sym, ◌∙◌, ap, List, [], ◌∷◌, ◌++◌, append_assoc, arith, ◌==◌,
}
use presto_on_k8s_operator.Prelude.Int.{ℤ}
use presto_on_k8s_operator.Status.{count_message}
use presto_on_k8s_operator.Strings.{split_by}
use presto_on_k8s_operator.Strings.Laws.{Lacks, split_by-append}
use presto_on_k8s_operator.Text.{Text, codes}

head : List Text → Text
head [] = []
head (p ∷ ps) = p

-- The text in front of the first space.
first_word-append :
    (p s : Text) → Lacks (λ c. c == b' ') p → head (split_by (λ c. c == b' ') (p ++ b' ' ∷ s)) ≡ p
unfolding head
first_word-append p s h = ap head (split_by-append (λ c. c == b' ') p b' ' s h refl)

format_int-unspaced : (z : ℤ) → Lacks (λ c. c == b' ') (format_int z)
format_int-unspaced z = format_int-Lacks (λ c. c == b' ') z (λ d. ground arith) refl

-- The counts, set apart from the arrow behind the first of them.
arrow_apart :
    (a b : ℤ)
    → format_int a ++ codes " -> " ++ format_int b
      ≡ format_int a ++ (b' ' ∷ (codes "-> " ++ format_int b))
arrow_apart a b = append_assoc (format_int a) (codes " -> ") (format_int b)

counts_told :
    (a b c d : ℤ)
    → format_int a ++ codes " -> " ++ format_int b ≡ format_int c ++ codes " -> " ++ format_int d
    → (a ≡ c) × (b ≡ d)
counts_told a b c d e =
    let whole = sym (arrow_apart a b) ∙ e ∙ arrow_apart c d in
    let first : format_int a ≡ format_int c =
      sym (first_word-append (format_int a) _ (format_int-unspaced a))
      ∙ ap (λ s. head (split_by (λ c. c == b' ') s)) whole
      ∙ first_word-append (format_int c) _ (format_int-unspaced c) in
    let rest = append_cancel_left (format_int c) _ _ (rw first at whole) in
    (
      format_int_injective a c first,
      format_int_injective b d
          (append_cancel_left (codes " -> ") (format_int b) (format_int d) rest),
    )

name_apart :
    (pre : Text) (a b : ℤ)
    → pre ++ format_int a ++ codes " -> " ++ format_int b
      ≡ pre ++ (format_int a ++ codes " -> " ++ format_int b)
name_apart pre a b =
    ap (λ s. s ++ format_int b) (append_assoc pre (format_int a) (codes " -> "))
    ∙ append_assoc pre (format_int a ++ codes " -> ") (format_int b)

-- Two messages for one cluster are the same only if both of their counts are: the event tells the
-- old count and the new one.
pub count_message_injective :
    (name : Text) (a b c d : ℤ)
    → count_message name a b ≡ count_message name c d
    → (a ≡ c) × (b ≡ d)
unfolding count_message
count_message_injective name a b c d e =
    let pre = name ++ codes " workers counts changed: " in
    counts_told a b c d
      (append_cancel_left pre _ _ (sym (name_apart pre a b) ∙ e ∙ name_apart pre c d))
