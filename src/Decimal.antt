-- ===== src/Decimal.antt =====
-- `%v` of an integer: its decimal digits, with a sign if it is negative.
pub mod Laws
use presto_on_k8s_operator.Prelude.{ℕ, zero, suc, ◌+◌, ◌/◌, ◌%◌, [], ◌∷◌, if◌then◌else◌, ltb}
use presto_on_k8s_operator.Prelude.Int.{ℤ, pos, negsuc}
use presto_on_k8s_operator.Text.{Text}

-- The digits of `n` in front of those written so far. Each round divides by ten, so that `suc n`
-- rounds are enough.
unfoldable pub digits : ℕ → ℕ → Text → Text
digits zero n out = out
digits (suc fuel) n out =
    let out' : Text = (b'0' + n % 10) ∷ out in
    let rest = digits fuel (n / 10) out' in if ltb n 10 then out' else rest

unfoldable pub format_nat : ℕ → Text
unfolding digits
format_nat n = digits (suc n) n []

unfoldable pub format_int : ℤ → Text
unfolding format_nat
format_int (pos n) = format_nat n
format_int (negsuc n) = b'-' ∷ format_nat (suc n)
