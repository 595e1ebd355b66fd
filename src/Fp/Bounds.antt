-- ===== src/Fp/Bounds.antt =====
-- How far the helpers of kernel/fp.h can go.
use native.Mathlib.Nat.{mul-div-le}
use aeos.Fp.{fp_softsign, fp_one}
use aeos.Base.{
  i32, ℤ, ◌≡◌, arith, pos_part, ◌<◌, ◌^◌, neg_part, ◌≤◌, pos, negsuc, ◌+ℤ◌, ℕ, quot, ◌*ℤ◌,
  magnitude, ◌+◌, ◌*◌, add_i32, ◌/◌, suc, ◌⊎◌, inl, inr, sub_ℕ, refl,
}

-- An `int32_t` value.
abbrev pub IsInt32 : ℤ → Type 0
IsInt32 x = (pos_part x < 2 ^ 31) × (neg_part x ≤ 2 ^ 31)

pub i32-IsInt32 : (x : ℤ) → IsInt32 (i32 x)
unfolding i32
i32-IsInt32 x = ground arith

pub i32_id : (x : ℤ) → IsInt32 x → i32 x ≡ x
unfolding i32
i32_id (pos n) h = ground (arith, h)
i32_id (negsuc n) h = ground (arith, h)

-- A quotient is at most `k` when one more than `k` divisors exceed the dividend.
quotient_le : (a d k : ℕ) → a < suc k * d → a / d ≤ k
quotient_le a d k h = grind (arith, mul-div-le a d)

-- `fp_softsign` divides the scaled magnitude by one more than the magnitude, or past 2^31 by what that sum wraps to.
softsign_quotient :
    (n d : ℕ)
    → n ≤ 2 ^ 31
    → (d ≡ 65536 + n) ⊎ ((2 ^ 31 ≤ 65536 + n) × (d + 65536 + n ≡ 2 ^ 32))
    → n * 65536 / d ≤ 65540
softsign_quotient n d h (inl e) = quotient_le (n * 65536) d 65540 (omega (arith, e))
softsign_quotient n d h (inr e) = quotient_le (n * 65536) d 65540 (omega (arith, e, h))

magnitude-sub_ℕ : (q : ℕ) → magnitude (sub_ℕ 0 q) ≡ q
magnitude-sub_ℕ q = ground arith

magnitude-quot : (a b : ℤ) → magnitude (quot a b) ≡ magnitude a / magnitude b
unfolding quot
magnitude-quot (pos a) (pos b) = refl
magnitude-quot (pos a) (negsuc b) = magnitude-sub_ℕ (a / suc b)
magnitude-quot (negsuc a) (pos b) = magnitude-sub_ℕ (suc a / b)
magnitude-quot (negsuc a) (negsuc b) = refl

scaled : (x : ℤ) → magnitude (x *ℤ pos 65536) ≡ magnitude x * 65536
unfolding ◌*ℤ◌
scaled x = ground arith

divisor :
    (n : ℕ)
    → n ≤ 2 ^ 31
    → (magnitude (add_i32 fp_one (i32 (pos n))) ≡ 65536 + n)
      ⊎ ((2 ^ 31 ≤ 65536 + n) × (magnitude (add_i32 fp_one (i32 (pos n))) + 65536 + n ≡ 2 ^ 32))
unfolding i32 ◌+ℤ◌
divisor n h = ground (arith, h)

i32_small : (x : ℤ) → magnitude x ≤ 65540 → magnitude (i32 x) ≤ 65540
unfolding i32
i32_small x h = ground (arith, h)

magnitude_le : (x : ℤ) → IsInt32 x → magnitude x ≤ 2 ^ 31
magnitude_le x h = ground (arith, h)

-- A value of `fp_softsign` is at most 1 in Q16.16, or up to 4 units more where its sum wraps.
pub fp_softsign_bound : (x : ℤ) → IsInt32 x → magnitude (fp_softsign x) ≤ 65540
unfolding fp_softsign
fp_softsign_bound x h =
    let d = add_i32 fp_one (i32 (pos (magnitude x))) in
    i32_small (quot (x *ℤ pos 65536) d) (
      rw (magnitude-quot (x *ℤ pos 65536) d, scaled x)
        (softsign_quotient (magnitude x) (magnitude d) (magnitude_le x h)
          (divisor (magnitude x) (magnitude_le x h))))
