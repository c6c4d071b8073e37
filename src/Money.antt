-- ===== src/Money.antt =====
-- Prices: Django's `DecimalField` values and their conversion to integer cents
-- (`_to_cents` of payments/webhooks.py, `amount_to_cents` of payments/gateways/paymob.py).
pub mod Rounding
use cavallo_app.Prelude.{ℕ, zero, suc, ◌+◌, ◌*◌, ◌/◌, ◌^◌, Bool, true, false, ℤ, pos, negsuc}

-- Python's `Decimal`: the value is ± digits / 10 ^ places.
pub record Decimal : Type 0 where
  pub negative : Bool
  pub digits : ℕ
  pub places : ℕ

abbrev pub signed : Bool → ℕ → ℤ
signed true zero = pos 0
signed true (suc n) = negsuc n
signed false n = pos n

-- `quantize(Decimal("1"), ROUND_HALF_UP)` of n / d: half away from zero, on the magnitude
unfoldable pub round_half_up : ℕ → ℕ → ℕ
round_half_up n d = (2 * n + d) / (2 * d)

unfoldable pub to_cents : Decimal → ℤ
to_cents amount = signed amount.negative (round_half_up (amount.digits * 100) (10 ^ amount.places))

unfoldable pub amount_to_cents : Decimal → ℤ
amount_to_cents amount =
    signed amount.negative (round_half_up (amount.digits * 100) (10 ^ amount.places))
