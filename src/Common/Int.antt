-- ===== src/Common/Int.antt =====
-- Signed integers, and the range of `i32`.
use oxidarr.Common.{ℕ, ◌^◌, ◌-◌, Bool, leb, Bool}

-- `negsuc n` is -(n + 1).
pub data ℤ : Type 0 where
  pos : ℕ → ℤ
  negsuc : ℕ → ℤ

abbrev pub i32_max : ℕ
i32_max = 2 ^ 31 - 1

-- `i32::try_from` succeeds.
abbrev pub fits_i32 : ℤ → Bool
fits_i32 (pos n) = leb n i32_max
fits_i32 (negsuc n) = leb n i32_max
