-- ===== src/Prelude/Double.antt =====
-- f64 with rounding: a sign, NaN, the infinities and the finite numbers m / 2^k; division to nearest
-- with ties to even, and the cast to u32. A number that only passes through is an F64 instead.
pub mod Bounds
use kmflow.Prelude.{
  Bool, false, if◌then◌else◌, ltb, min, not, refl, suc, true, zero, ℕ, ◌%◌, ◌&&◌, ◌*◌, ◌+◌, ◌-◌,
  ◌/◌, ◌==◌, ◌^◌, ◌≡◌,
}
use kmflow.Prelude.Int.{neg_ℤ, negsuc, pos}
use kmflow.Prelude.Machine.{two32}
use kmflow.Prelude.F64.{F64, dyadic, inf, nan}

-- The Boolean is true for a negative number, zero included.
pub data Double : Type 0 where
  not_a_number : Double
  infinite : Bool → Double
  finite : Bool → ℕ → ℕ → Double

abbrev pub xor : Bool → Bool → Bool
xor true b = not b
xor false b = b

-- The integer that is nearest to a / b; of two, the even one.
unfoldable pub round_half_even : ℕ → ℕ → ℕ
round_half_even a b =
    let q = a / b in
    let twice = 2 * (a % b) in if ltb twice b then q else if ltb b twice then q + 1 else q + q % 2

-- How many binary digits a number below 2^fuel has; fuel for a larger one.
unfoldable pub bit_length : ℕ → ℕ → ℕ
bit_length zero q = 0
bit_length (suc fuel) q = elim (q == 0) [ true ↦ 0 | false ↦ suc (bit_length fuel (q / 2)) ]

-- How often n has to be doubled to reach d, up to the fuel.
unfoldable pub doublings : ℕ → ℕ → ℕ → ℕ
doublings zero n d = 0
doublings (suc fuel) n d = elim (ltb n d) [ true ↦ suc (doublings fuel (2 * n) d) | false ↦ 0 ]

-- n / d at a binary point before which nothing is cut off, if n / d is below 2^53 ...
unfoldable pub round_at : Bool → ℕ → ℕ → ℕ → Double
unfolding round_half_even
round_at s n d k = finite s (round_half_even (n * 2 ^ k) d) k

-- ... and for larger numbers, in units of 2^e.
unfoldable pub round_large : Bool → ℕ → ℕ → ℕ → Double
unfolding round_half_even
round_large s n d e =
    let m = round_half_even n (d * 2 ^ e) * 2 ^ e in
    if ltb m (2 ^ 1024) then finite s m 0 else infinite s

-- The same, by the number of binary digits of the integer part.
unfoldable pub round_by : Bool → ℕ → ℕ → ℕ → Double
unfolding round_at round_large doublings
round_by s n d b =
    if n == 0
    then finite s 0 0
    else if ltb 1024 b
    then infinite s
    else if ltb 53 b
    then round_large s n d (b - 53)
    else if ltb 0 b
    then round_at s n d (53 - b)
    else round_at s n d (52 + doublings 1022 n d)

-- The f64 that is nearest to n / d, for a positive d: 53 binary digits, at most 1074 of them behind
-- the point, and an infinity from 2^1024 on.
unfoldable pub round_ratio : Bool → ℕ → ℕ → Double
unfolding round_by bit_length
round_ratio s n d = round_by s n d (bit_length 1025 (n / d))

-- `a / b`.
unfoldable pub div_double : Double → Double → Double
unfolding round_ratio
div_double not_a_number b = not_a_number
div_double (infinite s) (finite t m k) = infinite (xor s t)
div_double (infinite s) b = not_a_number
div_double (finite s m k) not_a_number = not_a_number
div_double (finite s m k) (infinite t) = finite (xor s t) 0 0
div_double (finite s m k) (finite t zero l) = if m == 0 then not_a_number else infinite (xor s t)
div_double (finite s m k) (finite t (suc n) l) = round_ratio (xor s t) (m * 2 ^ l) (suc n * 2 ^ k)

-- `w as f64` for a u32.
abbrev pub double_of : ℕ → Double
double_of w = finite false w 0

-- `x as u32`, which saturates and takes NaN to 0.
unfoldable pub double_as_u32 : Double → ℕ
double_as_u32 not_a_number = 0
double_as_u32 (infinite s) = if s then 0 else two32 - 1
double_as_u32 (finite s m k) = if s then 0 else min (m / 2 ^ k) (two32 - 1)

-- `x > 1.0` and `x == 1.0`.
unfoldable pub exceeds_one : Double → Bool
exceeds_one not_a_number = false
exceeds_one (infinite s) = not s
exceeds_one (finite s m k) = not s && ltb (2 ^ k) m

unfoldable pub is_one : Double → Bool
is_one not_a_number = false
is_one (infinite s) = false
is_one (finite s m k) = not s && m == 2 ^ k

-- The two readings of an f64.
unfoldable pub to_f64 : Double → F64
to_f64 not_a_number = nan
to_f64 (infinite s) = inf s
to_f64 (finite s m k) = dyadic (if s then neg_ℤ (pos m) else pos m) k

unfoldable pub of_f64 : F64 → Double
of_f64 nan = not_a_number
of_f64 (inf s) = infinite s
of_f64 (dyadic (pos m) k) = finite false m k
of_f64 (dyadic (negsuc m) k) = finite true (suc m) k

third :
    double_as_u32 (div_double (double_of 3840) (div_double (double_of 150) (double_of 100))) ≡ 2560
unfolding double_as_u32 div_double
third = refl

tenth : div_double (double_of 1) (double_of 10) ≡ finite false 7205759403792794 56
unfolding div_double
tenth = refl
