-- ===== src/Money.antt =====
-- backend/app/core/money.py and the `Decimal` arithmetic that the monetary code uses: amounts are
-- quantized to `CENTS` by `ROUND_HALF_UP` before they reach a `NUMERIC(12,2)` column.
pub mod Rounding
use new_builders_stream.Prelude.{ℕ, suc, ◌+◌, ◌*◌, ◌/◌, ◌^◌, Bool, ◌&&◌}
use new_builders_stream.Prelude.Int.{ℤ, pos, ◌+ℤ◌, negsuc, neg, ◌*ℤ◌, leb_ℤ, ltb_ℤ}

-- A `decimal.Decimal`: the number coefficient / 10 ^ places.
pub record Decimal : Type 0 where
  pub coefficient : ℤ
  pub places : ℕ

-- A stored amount of cents as the `Decimal` with two places that the column returns.
abbrev pub from_cents : ℤ → Decimal
from_cents c = record { coefficient = c; places = 2 }

-- Products of decimals are exact.
pub times : Decimal → Decimal → Decimal
times a b = record { coefficient = a.coefficient *ℤ b.coefficient; places = a.places + b.places }

-- Sums are exact.
pub plus : Decimal → Decimal → Decimal
unfolding ◌+ℤ◌ ◌*ℤ◌
plus a b = record {
  coefficient = a.coefficient *ℤ pos (10 ^ b.places) +ℤ b.coefficient *ℤ pos (10 ^ a.places);
  places = a.places + b.places;
}

-- `Decimal(1) + pct / Decimal(100)`.
pub multiplier : Decimal → Decimal
unfolding ◌+ℤ◌
multiplier pct = record {
  coefficient = pos (10 ^ (pct.places + 2)) +ℤ pct.coefficient;
  places = pct.places + 2;
}

-- n / d to the nearest integer, a tie going up.
pub half_up : ℕ → ℕ → ℕ
half_up n d = (2 * n + d) / (2 * d)

-- `ROUND_HALF_UP` rounds the magnitude: a tie goes away from zero.
pub round_half_up : ℤ → ℕ → ℤ
unfolding half_up
round_half_up (pos n) d = pos (half_up n d)
round_half_up (negsuc n) d = neg (pos (half_up (suc n) d))

-- `value.quantize(CENTS, rounding=ROUND_HALF_UP)`, in cents.
unfoldable pub quantize_cents : Decimal → ℤ
unfolding round_half_up
quantize_cents d = round_half_up (d.coefficient *ℤ pos 100) (10 ^ d.places)

-- `Field(gt=0)`.
abbrev pub is_positive : Decimal → Bool
is_positive d = ltb_ℤ (pos 0) d.coefficient

-- Equality of two `Decimal`s by value.
unfoldable pub same_decimal : Decimal → Decimal → Bool
unfolding ◌*ℤ◌
same_decimal a b =
    let x = a.coefficient *ℤ pos (10 ^ b.places) in
    let y = b.coefficient *ℤ pos (10 ^ a.places) in leb_ℤ x y && leb_ℤ y x
