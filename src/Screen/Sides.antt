-- ===== src/Screen/Sides.antt =====
-- lib.rs: how large the logical screen is, and when the daemon can work with it.
use kmflow.Prelude.F64.{F64}
use kmflow.Proto.{ScreenInfo}
use kmflow.Edge.Regions.{IsScreen}
use kmflow.Prelude.Double.Bounds.{as_u32-round_ratio-le, le-as_u32-round_ratio}
use native.Mathlib.Nat.{mul-le-mul, le_trans, mul-le-mul_right, div-mul-le_self, lt-div-mul-add}
use kmflow.Prelude.{
  Bool-cases, arith, dec_lt, false, inl, inr, min, suc, true, zero, ℕ, ◌&&◌, ◌*◌, ◌+◌, ◌-◌, ◌/◌,
  ◌<◌, ◌^◌, ◌≡◌, ◌≤◌,
}
use kmflow.Prelude.Machine.{two31, two32}
use kmflow.Prelude.Double.{
  Double, div_double, double_as_u32, double_of, exceeds_one, finite, infinite, is_one, not_a_number,
  of_f64,
}
use kmflow.Screen.Query.{override_scale}
use kmflow.Screen.{logical_side}

-- `x as u32` is a u32.
double_as_u32-lt : (x : Double) → double_as_u32 x < two32
unfolding double_as_u32
double_as_u32-lt not_a_number = omega arith
double_as_u32-lt (infinite s) = ground arith
double_as_u32-lt (finite s m k) = ground arith

module _ (n k side : ℕ) where
  -- The side divided by the scale (n + 1) / 2^k, for integer bounds.
  logical_side-le :
      (c : ℕ)
      → side * 2 ^ k ≤ c * suc n
      → c < two32
      → logical_side (finite false (suc n) k) side ≤ c
  unfolding logical_side div_double
  logical_side-le c h small =
      as_u32-round_ratio-le (side * 2 ^ k) (suc n * 2 ^ 0) c (omega arith) (omega arith) small

  le-logical_side :
      (c : ℕ)
      → c * suc n ≤ side * 2 ^ k
      → c < two32
      → c ≤ logical_side (finite false (suc n) k) side
  unfolding logical_side div_double
  le-logical_side c h small =
      le-as_u32-round_ratio (side * 2 ^ k) (suc n * 2 ^ 0) c (omega arith) (omega arith) small

  -- A logical side is the physical side divided by a positive scale: never below the quotient
  -- rounded down, but for the cap of a u32, and never above the quotient rounded up.
  pub logical_side_rounded :
      let logical = logical_side (finite false (suc n) k) side in
      (min (side * 2 ^ k / suc n) (two32 - 1) ≤ logical) × (logical ≤ (side * 2 ^ k + n) / suc n)
  unfolding logical_side
  logical_side_rounded =
      let a = side * 2 ^ k in
      let down = a / suc n in
      let up = (a + n) / suc n in
      let over : a ≤ up * suc n =
        omega (arith, lt-div-mul-add {a = a + n} {b = suc n} (omega arith)) in
      let under : min down (two32 - 1) * suc n ≤ a =
        le_trans (mul-le-mul_right (suc n) (omega arith)) (div-mul-le_self a (suc n)) in
      (
        le-logical_side (min down (two32 - 1)) under (omega arith),
        elim (dec_lt up two32) [
          | yes small ↦ logical_side-le up over small
          | no large ↦ omega (
            arith,
            large,
            double_as_u32-lt (div_double (double_of side) (finite false (suc n) k)),
          )
        ],
      )

-- A scale that suits a physical side: it is at most the side, and the side divided by it fits an i32.
abbrev pub Suits : Double → ℕ → Type 0
Suits not_a_number side = ⊥
Suits (infinite s) side = ⊥
Suits (finite true m k) side = ⊥
Suits (finite false m k) side = (0 < m) × (m ≤ side * 2 ^ k) × (side * 2 ^ k ≤ (two31 - 1) * m)

logical_side-Suits :
    (scale : Double) (side : ℕ)
    → Suits scale side
    → (0 < logical_side scale side) × (logical_side scale side < two31)
logical_side-Suits not_a_number side h = absurd h
logical_side-Suits (infinite s) side h = absurd h
logical_side-Suits (finite true m k) side h = absurd h
logical_side-Suits (finite false zero k) side h = absurd (omega arith)
logical_side-Suits (finite false (suc n) k) side h = (
  le-logical_side n k side 1 (omega arith) (omega arith),
  omega (arith, logical_side-le n k side (two31 - 1) (omega arith) (omega arith)),
)

-- A scale that overrides another is at most the side, if it divides it.
abbrev pub AtMost : Double → ℕ → Type 0
AtMost (finite false m k) side = m ≤ side * 2 ^ k
AtMost (infinite false) side = ⊥
AtMost _ side = Unit {0}

Suits-AtMost :
    (x : Double) (side : ℕ) → exceeds_one x ≡ true → side < two31 → AtMost x side → Suits x side
unfolding exceeds_one
Suits-AtMost not_a_number side e fits h = cc
Suits-AtMost (infinite true) side e fits h = cc
Suits-AtMost (infinite false) side e fits h = absurd h
Suits-AtMost (finite true m k) side e fits h = cc
Suits-AtMost (finite false m k) side e fits h =
    let more : 2 ^ k < m = ground (arith, e) in
    let cut : side * 2 ^ k ≤ (two31 - 1) * m = mul-le-mul (omega arith) (omega arith) in
    (omega arith, h, cut)

-- What the override leaves of a screen that the session can use, it can use.
pub override_scale-IsScreen :
    (s : F64) (screen : ScreenInfo)
    → IsScreen screen
    → AtMost (of_f64 s) screen.width
    → AtMost (of_f64 s) screen.height
    → IsScreen (override_scale s screen)
unfolding override_scale
override_scale-IsScreen s screen v hw hh =
    elim (Bool-cases (exceeds_one (of_f64 s) && is_one (of_f64 screen.scale_factor))) [
      | inl divided ↦
          let above : exceeds_one (of_f64 s) ≡ true = ground (arith, divided) in
          let (wide, wide_fits) =
            logical_side-Suits (of_f64 s) screen.width (Suits-AtMost _ _ above v.width_i32 hw) in
          let (high, high_fits) =
            logical_side-Suits (of_f64 s) screen.height (Suits-AtMost _ _ above v.height_i32 hh) in
          rw divided (record {
            width_pos = wide;
            width_i32 = wide_fits;
            height_pos = high;
            height_i32 = high_fits;
          })
      | inr kept ↦ rw kept (record {
        width_pos = v.width_pos;
        width_i32 = v.width_i32;
        height_pos = v.height_pos;
        height_i32 = v.height_i32;
      })
    ]
