-- ===== src/Money/Rounding.antt =====
-- The rounding of prices to cents (payments/webhooks.py, payments/gateways/paymob.py).
use native.Mathlib.Nat.{div-add-mod, mod-lt}
use cavallo_app.Prelude.{ℕ, ◌+◌, ◌*◌, ◌/◌, ◌%◌, ◌≤◌, ◌<◌, ◌≡◌, Bool, arith}
use cavallo_app.Money.{signed, round_half_up, to_cents}

-- Rounding is off by at most half of the divisor, in both directions.
pub round_half_up-error :
    (n d : ℕ)
    → 0 < d
    → (2 * (round_half_up n d * d) ≤ 2 * n + d) × (2 * n < 2 * (round_half_up n d * d) + d)
unfolding round_half_up
round_half_up-error n d h =
    let m : ℕ = 2 * n + d in
    let split : 2 * d * (m / (2 * d)) + m % (2 * d) ≡ m = div-add-mod m (2 * d) in
    let below : m % (2 * d) < 2 * d = mod-lt m (omega arith) in (grind arith, grind arith)

-- An amount of whole cents is kept.
pub to_cents-two_places :
    (b : Bool) (n : ℕ) → to_cents (record { negative = b; digits = n; places = 2 }) ≡ signed b n
unfolding to_cents round_half_up
to_cents-two_places b n = ground arith
