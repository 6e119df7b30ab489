-- ===== src/Decimal/Laws.antt =====
-- Printed numbers read back, so that the fuel of `digits` is enough.
use presto_on_k8s_operator.Decimal.{digits, format_nat, format_int}
use presto_on_k8s_operator.Prelude.{
  ℕ, zero, suc, ◌+◌, ◌-◌, ◌*◌, ◌/◌, ◌%◌, ◌<◌, ◌≡◌, refl, sym, ◌∙◌, ap, Bool, true, false, [], ◌∷◌,
  if◌then◌else◌, ltb, ◌==◌, arith, Bool-cases, inl, inr,
}
use presto_on_k8s_operator.Prelude.Int.{ℤ, pos, negsuc}
use presto_on_k8s_operator.Strings.Laws.{Lacks}
use presto_on_k8s_operator.Text.{Text}

-- The number that the digits of a text stand for, after those read so far.
unfoldable pub read_digits : Text → ℕ → ℕ
read_digits [] n = n
read_digits (c ∷ s) n = read_digits s (n * 10 + (c - b'0'))

last_digit : (n : ℕ) → n / 10 * 10 + (b'0' + n % 10 - b'0') ≡ n
last_digit n = omega arith

only_digit : (n : ℕ) → ltb n 10 ≡ true → 0 * 10 + (b'0' + n % 10 - b'0') ≡ n
only_digit n small = ground arith

fewer_digits : (n fuel : ℕ) → ltb n 10 ≡ false → n < suc fuel → n / 10 < fuel
fewer_digits n fuel large h = ground arith

read_digits-digits :
    (fuel n : ℕ) (out : Text) → n < fuel → read_digits (digits fuel n out) 0 ≡ read_digits out n
unfolding digits read_digits
read_digits-digits zero n out h = ground arith
read_digits-digits (suc fuel) n out h = elim (Bool-cases (ltb n 10)) [
  | inl small ↦ rw (small, digits) (ap (read_digits out) (only_digit n small))
  | inr large ↦
      rw (large, digits)
        (read_digits-digits fuel (n / 10) _ (fewer_digits n fuel large h)
          ∙ ap (read_digits out) (last_digit n))
]

-- A printed number has no code point below the digits.
digits-Lacks :
    (sep : ℕ → Bool) (fuel n : ℕ) (out : Text)
    → ((d : ℕ) → sep (b'0' + d) ≡ false)
    → Lacks sep out
    → Lacks sep (digits fuel n out)
unfolding digits
digits-Lacks sep zero n out h k = k
digits-Lacks sep (suc fuel) n out h k = elim (Bool-cases (ltb n 10)) [
  | inl small ↦ rw (small, digits) (h (n % 10), k)
  | inr large ↦ rw (large, digits) (digits-Lacks sep fuel (n / 10) _ h (h (n % 10), k))
]

pub format_int-Lacks :
    (sep : ℕ → Bool) (z : ℤ)
    → ((d : ℕ) → sep (b'0' + d) ≡ false)
    → sep b'-' ≡ false
    → Lacks sep (format_int z)
unfolding format_int format_nat
format_int-Lacks sep (pos n) h minus = digits-Lacks sep (suc n) n [] h tt
format_int-Lacks sep (negsuc n) h minus = (minus, digits-Lacks sep (suc (suc n)) (suc n) [] h tt)

unfoldable pub read_int : Text → ℤ
read_int [] = pos 0
read_int (c ∷ s) = if c == b'-' then negsuc (read_digits s 0 - 1) else pos (read_digits (c ∷ s) 0)

read_int-Lacks : (s : Text) → Lacks (λ c. c == b'-') s → read_int s ≡ pos (read_digits s 0)
unfolding read_int read_digits
read_int-Lacks [] h = refl
read_int-Lacks (c ∷ s) h = rw (h.0)

-- A printed integer reads back.
pub read_int-format_int : (z : ℤ) → read_int (format_int z) ≡ z
unfolding format_int format_nat read_digits read_int
read_int-format_int (pos n) =
    read_int-Lacks (digits (suc n) n []) (digits-Lacks _ (suc n) n [] (λ d. ground arith) tt)
    ∙ ap pos (read_digits-digits (suc n) n [] (omega arith))
read_int-format_int (negsuc n) =
    ap (λ m. negsuc (m - 1)) (read_digits-digits (suc (suc n)) (suc n) [] (omega arith))
    ∙ ap negsuc (omega arith)

pub format_int_injective : (y z : ℤ) → format_int y ≡ format_int z → y ≡ z
format_int_injective y z e = sym (read_int-format_int y) ∙ ap read_int e ∙ read_int-format_int z
