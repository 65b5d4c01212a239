-- ===== src/Prelude/F64.antt =====
-- f64 by value: NaN, the infinities and the dyadic numbers m / 2^k, with what the source does to
-- one that is exact (negation, tests against 0.0, casts, a number from an i32). The sign of a zero
-- is dropped, since nothing in the source observes it where this type stands; Double keeps it.
use kmflow.Prelude.{
  Bool, arith, false, if◌then◌else◌, ltb, not, refl, suc, true, ℕ, ◌-◌, ◌/◌, ◌^◌, ◌||◌, ◌≡◌,
}
use kmflow.Prelude.Int.{ltb_ℤ, neg_ℤ, negsuc, pos, sub_ℕ, ℤ}
use kmflow.Prelude.Machine.{IsI32, two31}

pub data F64 : Type 0 where
  nan : F64
  inf : Bool → F64  -- true: negative
  dyadic : ℤ → ℕ → F64

abbrev pub f64_zero : F64
f64_zero = dyadic (pos 0) 0

-- `v as f64` for an i32.
unfoldable pub f64_of_i32 : ℤ → F64
f64_of_i32 v = dyadic v 0

unfoldable pub neg_f64 : F64 → F64
neg_f64 nan = nan
neg_f64 (inf s) = inf (not s)
neg_f64 (dyadic m k) = dyadic (neg_ℤ m) k

-- `x < 0.0`, `x > 0.0` and `x != 0.0`: every test with NaN fails but the last.
unfoldable pub f64_is_neg : F64 → Bool
f64_is_neg nan = false
f64_is_neg (inf s) = s
f64_is_neg (dyadic m k) = ltb_ℤ m (pos 0)

unfoldable pub f64_is_pos : F64 → Bool
f64_is_pos nan = false
f64_is_pos (inf s) = not s
f64_is_pos (dyadic m k) = ltb_ℤ (pos 0) m

unfoldable pub f64_is_nonzero : F64 → Bool
f64_is_nonzero nan = true
f64_is_nonzero (inf s) = true
f64_is_nonzero (dyadic m k) = ltb_ℤ m (pos 0) || ltb_ℤ (pos 0) m

-- Drop the fraction, towards zero.
unfoldable pub trunc : ℤ → ℕ → ℤ
trunc (pos n) k = pos (n / 2 ^ k)
trunc (negsuc n) k = sub_ℕ 0 (suc n / 2 ^ k)

-- The nearest integer from -b to b - 1.
unfoldable pub saturate : ℕ → ℤ → ℤ
saturate b (pos n) = if ltb n b then pos n else pos (b - 1)
saturate b (negsuc n) = if ltb n b then negsuc n else negsuc (b - 1)

-- A cast to a signed integer saturates, and takes NaN to 0.
unfoldable pub f64_as_signed : ℕ → F64 → ℤ
unfolding saturate trunc
f64_as_signed b nan = pos 0
f64_as_signed b (inf s) = if s then negsuc (b - 1) else pos (b - 1)
f64_as_signed b (dyadic m k) = saturate b (trunc m k)

abbrev pub two15 : ℕ
two15 = 32768

-- `x as i32` and `x as i16`.
unfoldable pub f64_as_i32 : F64 → ℤ
unfolding f64_as_signed
f64_as_i32 = f64_as_signed two31

unfoldable pub f64_as_i16 : F64 → ℤ
unfolding f64_as_signed
f64_as_i16 = f64_as_signed two15

saturate-IsI32 : (a : ℤ) → IsI32 (saturate two31 a)
unfolding saturate
saturate-IsI32 (pos n) = ground arith
saturate-IsI32 (negsuc n) = ground arith

pub f64_as_i32-IsI32 : (x : F64) → IsI32 (f64_as_i32 x)
unfolding f64_as_i32
f64_as_i32-IsI32 nan = omega arith
f64_as_i32-IsI32 (inf true) = omega arith
f64_as_i32-IsI32 (inf false) = omega arith
f64_as_i32-IsI32 (dyadic m k) = saturate-IsI32 (trunc m k)

-- An i32 survives the way through an f64.
pub f64_as_i32-of_i32 : (v : ℤ) → IsI32 v → f64_as_i32 (f64_of_i32 v) ≡ v
unfolding f64_as_i32 f64_of_i32
f64_as_i32-of_i32 (pos n) h = ground arith
f64_as_i32-of_i32 (negsuc n) h = ground arith

as_i32_half : f64_as_i32 (dyadic (negsuc 6) 1) ≡ negsuc 2
unfolding f64_as_i32
as_i32_half = refl
