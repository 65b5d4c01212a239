-- ===== src/Prelude/Double/Bounds.antt =====
-- How far rounding goes: an integer bound of a quotient bounds the rounded quotient too.
use kmflow.Prelude.Machine.{two32}
use native.Mathlib.Nat.{
  div-eq_of_lt, mul-le-mul, div-le_of_le-mul, le-div_iff_mul-le, mod-eq-sub-div-mul,
  mul-le-mul_left, mul-le-mul_right, mul_comm, one-le-pow, two-pow-succ,
}
use kmflow.Prelude.{
  Bool-cases, ap, arith, dec_lt, false, inl, inr, ltb, refl, suc, zero, ℕ, ◌%◌, ◌*◌, ◌+◌, ◌-◌, ◌/◌,
  ◌<◌, ◌==◌, ◌^◌, ◌≡◌, ◌≤◌,
}
use kmflow.Prelude.Double.{
  bit_length, double_as_u32, doublings, round_at, round_by, round_half_even, round_large,
  round_ratio,
}

div-le-of_mul : (a b c : ℕ) → a ≤ c * b → a / b ≤ c
div-le-of_mul a b c h = div-le_of_le-mul b (omega (arith, mul_comm c b))

pub round_half_even-le : (a b c : ℕ) → a ≤ c * b → 0 < b → round_half_even a b ≤ c
unfolding round_half_even
round_half_even-le a b c h pb = elim (dec_lt (a / b) c) [
  | yes below ↦ ground (arith, below)
  | no above ↦
      let same : c ≡ a / b = omega (arith, div-le-of_mul a b c h) in
      let exact : a % b ≡ 0 = omega (arith, mod-eq-sub-div-mul a b, ap (λ (t : ℕ). t * b) same) in
      ground (arith, same, exact)
]

pub le-round_half_even : (a b c : ℕ) → c * b ≤ a → 0 < b → c ≤ round_half_even a b
unfolding round_half_even
le-round_half_even a b c h pb = ground (arith, (le-div_iff_mul-le {k = b} {x = c} {y = a} pb).1 h)

bit_length-le : (fuel q j : ℕ) → q < 2 ^ j → bit_length fuel q ≤ j
unfolding bit_length
bit_length-le zero q j h = omega arith
bit_length-le (suc fuel) q zero h = ground arith
bit_length-le (suc fuel) q (suc j) h =
    ground (arith, two-pow-succ j, bit_length-le fuel (q / 2) j (omega (arith, two-pow-succ j, h)))

pow-le-of_bit_length : (fuel q j : ℕ) → suc j ≤ bit_length fuel q → 2 ^ j ≤ q
unfolding bit_length
pow-le-of_bit_length zero q j h = absurd (omega arith)
pow-le-of_bit_length (suc fuel) q zero h = ground arith
pow-le-of_bit_length (suc fuel) q (suc j) h =
    ground (arith, two-pow-succ j, pow-le-of_bit_length fuel (q / 2) j)

module _ (n d c : ℕ) (pd : 0 < d) where
  round_at-le : (k : ℕ) → n ≤ c * d → double_as_u32 (round_at false n d k) ≤ c
  unfolding double_as_u32 round_at
  round_at-le k h =
      let m = round_half_even (n * 2 ^ k) d in
      let top : m ≤ c * 2 ^ k =
        round_half_even-le (n * 2 ^ k) d (c * 2 ^ k) (grind (arith, mul-le-mul_right (2 ^ k) h))
          pd in
      ground (arith, div-le-of_mul m (2 ^ k) c top)

  le-round_at : (k : ℕ) → c * d ≤ n → c < two32 → c ≤ double_as_u32 (round_at false n d k)
  unfolding double_as_u32 round_at
  le-round_at k h small =
      let m = round_half_even (n * 2 ^ k) d in
      let bottom : c * 2 ^ k ≤ m =
        le-round_half_even (n * 2 ^ k) d (c * 2 ^ k) (grind (arith, mul-le-mul_right (2 ^ k) h))
          pd in
      ground (
        arith,
        (le-div_iff_mul-le {k = 2 ^ k} {x = c} {y = m} (one-le-pow k 2 (omega arith))).1 bottom,
      )

pow_shift : (e : ℕ) → 2 ^ (52 + e) ≡ 4503599627370496 * 2 ^ e
pow_shift zero = refl
pow_shift (suc e) =
    omega
      (arith, two-pow-succ e, two-pow-succ (52 + e), pow_shift e, ap (λ (t : ℕ). 2 ^ t) (e_suc e))
  where
    e_suc : (e : ℕ) → 52 + suc e ≡ suc (52 + e)
    e_suc e = omega arith

module _ (n d c : ℕ) (pd : 0 < d) where
  le-round_large :
      (e : ℕ) → 2 ^ (52 + e) ≤ n / d → c < two32 → c ≤ double_as_u32 (round_large false n d e)
  unfolding double_as_u32 round_large
  le-round_large e h small =
      let m = round_half_even n (d * 2 ^ e) in
      let room : 2 ^ (52 + e) * d ≤ n =
        (le-div_iff_mul-le {k = d} {x = 2 ^ (52 + e)} {y = n} pd).0 h in
      let full : 4503599627370496 * (d * 2 ^ e) ≤ n =
        grind (arith, ap (λ (t : ℕ). t * d) (pow_shift e)) in
      let bottom : 4503599627370496 ≤ m =
        le-round_half_even n (d * 2 ^ e) 4503599627370496 full
          (grind (arith, mul-le-mul pd (one-le-pow e 2 (omega arith)))) in
      ground (arith, mul-le-mul bottom (one-le-pow e 2 (omega arith)))

  round_by-le : (b : ℕ) → b ≤ 32 → n ≤ c * d → double_as_u32 (round_by false n d b) ≤ c
  unfolding double_as_u32 round_by
  round_by-le b short h =
      ground
        (arith, round_at-le n d c pd (53 - b) h, round_at-le n d c pd (52 + doublings 1022 n d) h)

  none_below : n ≡ 0 → c * d ≤ n → c ≤ 0
  none_below e h = grind (arith, mul-le-mul_left c pd)

  le-round_by :
      (b : ℕ)
      → ((j : ℕ) → suc j ≤ b → 2 ^ j ≤ n / d)
      → c * d ≤ n
      → c < two32
      → c ≤ double_as_u32 (round_by false n d b)
  unfolding double_as_u32 round_by
  le-round_by b long h small = elim (Bool-cases (n == 0)) [
    | inl none_left ↦ rw none_left (none_below (ground arith) h)
    | inr some_left ↦ elim (Bool-cases (ltb 1024 b)) [
      | inl huge ↦ rw (some_left, huge) (omega arith)
      | inr finite_one ↦ elim (Bool-cases (ltb 53 b)) [
        | inl large ↦
            rw (some_left, finite_one, large)
              (le-round_large (b - 53) (long (52 + (b - 53)) (ground arith)) small)
        | inr short ↦ elim (Bool-cases (ltb 0 b)) [
          | inl above_one ↦
              rw (some_left, finite_one, short, above_one) (le-round_at n d c pd (53 - b) h small)
          | inr below_one ↦
              rw (some_left, finite_one, short, below_one)
                (le-round_at n d c pd (52 + doublings 1022 n d) h small)
        ]
      ]
    ]
  ]

  -- The rounded quotient, cut down to a u32, lies between the integer bounds of n / d.
  pub as_u32-round_ratio-le : n ≤ c * d → c < two32 → double_as_u32 (round_ratio false n d) ≤ c
  unfolding round_ratio
  as_u32-round_ratio-le h small =
      round_by-le (bit_length 1025 (n / d))
        (bit_length-le 1025 (n / d) 32 (omega (arith, div-le-of_mul n d c h))) h

  pub le-as_u32-round_ratio : c * d ≤ n → c < two32 → c ≤ double_as_u32 (round_ratio false n d)
  unfolding round_ratio
  le-as_u32-round_ratio h small =
      le-round_by (bit_length 1025 (n / d)) (pow-le-of_bit_length 1025 (n / d)) h small

round_at_half : (n d k : ℕ) → 0 < d → 2 * n ≤ d → double_as_u32 (round_at false n d (suc k)) ≡ 0
unfolding double_as_u32 round_at
round_at_half n d k pd h =
    let m = round_half_even (n * 2 ^ suc k) d in
    let half : m ≤ 2 ^ k =
      round_half_even-le (n * 2 ^ suc k) d (2 ^ k)
        (grind (arith, ap (λ (t : ℕ). n * t) (two-pow-succ k), mul-le-mul_right (2 ^ k) h)) pd in
    let gone : m / 2 ^ suc k ≡ 0 =
      div-eq_of_lt {n = m} {m = 2 ^ suc k}
        (omega (arith, half, two-pow-succ k, one-le-pow k 2 (omega arith))) in
    rw gone refl

round_by_half : (n d : ℕ) → 0 < d → 2 * n ≤ d → double_as_u32 (round_by false n d 0) ≡ 0
unfolding double_as_u32 round_by
round_by_half n d pd h = elim (Bool-cases (n == 0)) [
  | inl none_left ↦ rw none_left refl
  | inr some_left ↦
      let shift : 52 + doublings 1022 n d ≡ suc (51 + doublings 1022 n d) = omega arith in
      rw (some_left, shift) (round_at_half n d (51 + doublings 1022 n d) pd h)
]

-- A quotient of at most a half is cut down to 0.
pub as_u32-round_ratio-half :
    (n d : ℕ) → 0 < d → 2 * n ≤ d → double_as_u32 (round_ratio false n d) ≡ 0
unfolding round_ratio
as_u32-round_ratio-half n d pd h =
    let no_digits : bit_length 1025 (n / d) ≡ 0 = omega (
      arith,
      bit_length-le 1025 (n / d) 0 (omega (arith, div-eq_of_lt {n = n} {m = d} (omega arith))),
    ) in
    rw no_digits (round_by_half n d pd h)
