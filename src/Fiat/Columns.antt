-- ===== src/Fiat/Columns.antt =====
-- The BIGINT columns for money: what does not fit 64 bits is refused by the driver.
use super_wallet.Base.{Bool, true, ◌≡◌, ◌^◌, ◌<◌, ◌≤◌, ltb, arith}
use super_wallet.Base.Int.{ℤ, pos, negsuc, pos_part, neg_part}

unfoldable pub fits_bigint : ℤ → Bool
fits_bigint (pos n) = ltb n (2 ^ 63)
fits_bigint (negsuc n) = ltb n (2 ^ 63)

pub fits_bigint-bounds :
    (a : ℤ) → fits_bigint a ≡ true → (pos_part a < 2 ^ 63) × (neg_part a ≤ 2 ^ 63)
unfolding fits_bigint
fits_bigint-bounds a h = ground arith
