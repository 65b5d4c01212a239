-- ===== src/Prelude/Machine.antt =====
-- Rust's i32 and u32 and its casts. An i32 is an integer; the operations are those of a release
-- build, which wrap. A clamp with crossed bounds panics: `none`.
use kmflow.Prelude.{
  Option, arith, if◌then◌else◌, ltb, none, refl, some, suc, ℕ, ◌%◌, ◌+◌, ◌-◌, ◌/◌, ◌<◌, ◌∙◌, ◌≡◌,
  ◌≤◌,
}
use kmflow.Prelude.Int.{ltb_ℤ, neg_part, negsuc, pos, pos_part, sub_ℕ, ℤ, ◌+ℤ◌, ◌-ℤ◌, ◌≤ℤ◌}

abbrev pub two31 : ℕ
two31 = 2147483648

abbrev pub two32 : ℕ
two32 = 4294967296

-- `w as i32` for a u32 `w`.
unfoldable pub u32_as_i32 : ℕ → ℤ
u32_as_i32 w = if ltb w two31 then pos w else negsuc (two32 - w - 1)

-- The i32 that has the low 32 bits of an integer.
unfoldable pub wrap_i32 : ℤ → ℤ
unfolding u32_as_i32
wrap_i32 (pos n) = u32_as_i32 (n % two32)
wrap_i32 (negsuc n) = u32_as_i32 (two32 - 1 - n % two32)

unfoldable pub add_i32 : ℤ → ℤ → ℤ
add_i32 a b = wrap_i32 (a +ℤ b)

unfoldable pub sub_i32 : ℤ → ℤ → ℤ
sub_i32 a b = wrap_i32 (a -ℤ b)

-- `a / 2`, which rounds towards zero.
unfoldable pub half_i32 : ℤ → ℤ
half_i32 (pos n) = pos (n / 2)
half_i32 (negsuc n) = sub_ℕ 0 (suc n / 2)

-- `a.clamp(lo, hi)` asserts `lo <= hi`.
unfoldable pub clamp : ℤ → ℤ → ℤ → Option ℤ
clamp a lo hi =
    if ltb_ℤ hi lo then none else some (if ltb_ℤ a lo then lo else if ltb_ℤ hi a then hi else a)

abbrev pub IsI32 : ℤ → Type 0
IsI32 a = (pos_part a < two31) × (neg_part a ≤ two31)

pub u32_as_i32-of_lt : (w : ℕ) → w < two31 → u32_as_i32 w ≡ pos w
unfolding u32_as_i32
u32_as_i32-of_lt w h = ground arith

pub wrap_i32-IsI32 : (a : ℤ) → IsI32 (wrap_i32 a)
unfolding wrap_i32
wrap_i32-IsI32 (pos n) = ground arith
wrap_i32-IsI32 (negsuc n) = ground arith

pub wrap_i32-of_IsI32 : (a : ℤ) → IsI32 a → wrap_i32 a ≡ a
unfolding wrap_i32
wrap_i32-of_IsI32 (pos n) h = ground arith
wrap_i32-of_IsI32 (negsuc n) h = ground arith

-- With bounds in order the clamp returns a value between them.
pub clamp_total :
    (a lo hi : ℤ) → lo ≤ℤ hi → (b : ℤ) × (clamp a lo hi ≡ some b) × (lo ≤ℤ b) × (b ≤ℤ hi)
unfolding clamp
clamp_total a lo hi h = (
  if ltb_ℤ a lo then lo else if ltb_ℤ hi a then hi else a,
  ground arith,
  ground arith,
  ground arith,
)

pub sub_i32_nat : (a b : ℕ) → a < two31 → b < two31 → sub_i32 (pos a) (pos b) ≡ sub_ℕ a b
unfolding sub_i32 ◌-ℤ◌
sub_i32_nat a b ha hb = wrap_i32-of_IsI32 (sub_ℕ (a + 0) (0 + b)) (ground arith) ∙ ground arith

pub half_i32_nat : (a : ℕ) → half_i32 (pos a) ≡ pos (a / 2)
unfolding half_i32
half_i32_nat a = refl
