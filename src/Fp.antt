-- ===== src/Fp.antt =====
-- The Q16.16 fixed-point helpers of kernel/fp.h, on `int32_t` values.
use aeos.Base.{
  ℤ, ℕ, i32, if◌then◌else◌, pos, leb, ltb_ℤ, shr16, quot, ◌==◌, ◌*ℤ◌, ◌*◌, ◌^◌, ◌/◌, neg_part,
  add_i32, ◌-◌, magnitude,
}
pub mod Bounds

abbrev pub fp_one : ℤ
fp_one = pos 65536

-- `fp_mul`
unfoldable pub fp_mul : ℤ → ℤ → ℤ
fp_mul a b = i32 (shr16 (a *ℤ b))

-- `fp_from_ratio`
unfoldable pub fp_from_ratio : ℕ → ℕ → ℤ
fp_from_ratio num den = if den == 0 then pos 0 else i32 (pos (num * 65536 / den))

-- `fp_softsign`; the sum of its divisor wraps for the largest arguments.
unfoldable pub fp_softsign : ℤ → ℤ
fp_softsign x = i32 (quot (x *ℤ pos 65536) (add_i32 fp_one (i32 (pos (magnitude x)))))

-- `fp_clamp`
abbrev pub fp_clamp : ℤ → ℤ → ℤ → ℤ
fp_clamp x lo hi = if ltb_ℤ x lo then lo else if ltb_ℤ hi x then hi else x

-- `fp_abs`, which saturates at the least value
abbrev pub fp_abs : ℤ → ℤ
fp_abs x = if leb (2 ^ 31) (neg_part x) then pos (2 ^ 31 - 1) else pos (magnitude x)
