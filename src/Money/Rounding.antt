-- ===== src/Money/Rounding.antt =====
-- What quantizing to cents does to a value.
use new_builders_stream.Prelude.{ℕ, ◌^◌, ◌+◌, ◌*◌, ◌≤◌, ◌<◌, ◌≡◌, true, arith}
use new_builders_stream.Prelude.Int.{ℤ, pos, negsuc, ◌*ℤ◌, ◌≤ℤ◌, ltb_ℤ}
use new_builders_stream.Money.{
  Decimal, is_positive, from_cents, half_up, round_half_up, quantize_cents,
}

-- The rounded quotient is within half a unit of the quotient.
pub half_up_bounds :
    (n d : ℕ)
    → 0 < d
    → (2 * d * half_up n d ≤ 2 * n + d) × (2 * n + d < 2 * d * half_up n d + 2 * d)
unfolding half_up
half_up_bounds n d h = (grind arith, grind arith)

-- An amount of whole cents is not changed.
pub quantize-from_cents : (c : ℤ) → quantize_cents (from_cents c) ≡ c
unfolding quantize_cents ◌*ℤ◌
quantize-from_cents (pos n) = ground arith
quantize-from_cents (negsuc n) = ground arith

scaled_nonneg : (c : ℤ) (q : ℕ) → ltb_ℤ (pos 0) c ≡ true → pos 0 ≤ℤ round_half_up (c *ℤ pos 100) q
unfolding round_half_up ◌*ℤ◌
scaled_nonneg (pos n) q h = ground arith
scaled_nonneg (negsuc n) q h = ground arith

-- A positive value does not become negative; it may become zero.
pub quantize_nonneg : (d : Decimal) → is_positive d ≡ true → pos 0 ≤ℤ quantize_cents d
unfolding quantize_cents
quantize_nonneg d h = scaled_nonneg d.coefficient (10 ^ d.places) h
