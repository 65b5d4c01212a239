-- ===== src/Text/Decimal.antt =====
-- Decimal numbers: the digits read back as the number.
use kmflow.Prelude.{
  All, Bool-cases, List, [], ap, arith, inl, inr, length, length-append, ltb, refl, some, suc, sym,
  zero, ℕ, ◌%◌, ◌*◌, ◌++◌, ◌+◌, ◌-◌, ◌/◌, ◌<◌, ◌∙◌, ◌∷◌, ◌≡◌, ◌≢◌, ◌≤◌,
}
use kmflow.Text.{decimal, decimal_digits, parse_digits, parse_unsigned}

-- The value of digits in front of which a number stands.
abbrev pub value : ℕ → List ℕ → ℕ
value acc [] = acc
value acc (c ∷ text) = value (acc * 10 + (c - 48)) text

abbrev pub IsDigits : List ℕ → Type 0
IsDigits = All (λ c. (48 ≤ c) × (c ≤ 57))

value-append : (acc c : ℕ) (xs : List ℕ) → value acc (xs ++ c ∷ []) ≡ value acc xs * 10 + (c - 48)
value-append acc c [] = refl
value-append acc c (x ∷ xs) = value-append (acc * 10 + (x - 48)) c xs

IsDigits-append : (xs : List ℕ) (c : ℕ) → IsDigits xs → 48 ≤ c → c ≤ 57 → IsDigits (xs ++ c ∷ [])
IsDigits-append [] c h lo hi = ((lo, hi), tt)
IsDigits-append (x ∷ xs) c h lo hi = (h.0, IsDigits-append xs c h.1 lo hi)

-- How large a number may be that is printed with so many digits after the first.
abbrev room : ℕ → ℕ
room zero = 10
room (suc more) = 10 * room more

decimal_digits_lem :
    (more n : ℕ)
    → n < room more
    → IsDigits (decimal_digits more n) × (value 0 (decimal_digits more n) ≡ n)
unfolding decimal_digits
decimal_digits_lem zero n h = (((omega arith, omega arith), tt), omega arith)
decimal_digits_lem (suc more) n h =
    let (digits, reads) = decimal_digits_lem more (n / 10) (omega arith) in
    elim (Bool-cases (ltb n 10)) [
      | inl small ↦ ground (arith, small)
      | inr large ↦ rw large (
        IsDigits-append (decimal_digits more (n / 10)) (48 + n % 10) digits (omega arith)
            (omega arith),
        value-append 0 (48 + n % 10) (decimal_digits more (n / 10)) ∙ omega (arith, reads),
      )
    ]

abbrev pub decimal_limit : ℕ
decimal_limit = 100000000000000000000

pub decimal-IsDigits : (n : ℕ) → n < decimal_limit → IsDigits (decimal n)
unfolding decimal
decimal-IsDigits n h = (decimal_digits_lem 19 n h).0

-- Different numbers are printed differently.
pub decimal-injective :
    (m n : ℕ) → m < decimal_limit → n < decimal_limit → decimal m ≡ decimal n → m ≡ n
unfolding decimal
decimal-injective m n hm hn e =
    sym (decimal_digits_lem 19 m hm).1 ∙ ap (value 0) e ∙ (decimal_digits_lem 19 n hn).1

-- No digit of a number is a separator.
pub decimal-without :
    (sep n : ℕ) → (48 ≤ sep → 57 < sep) → n < decimal_limit → All (λ c. c ≢ sep) (decimal n)
decimal-without sep n hs hn = without (decimal n) (decimal-IsDigits n hn)
  where
    without : (xs : List ℕ) → IsDigits xs → All (λ c. c ≢ sep) xs
    without [] h = tt
    without (x ∷ xs) h = (λ e. ground (arith, hs, h.0), without xs h.1)

parse_digits_lem :
    (bound acc : ℕ) (xs : List ℕ)
    → IsDigits xs
    → value acc xs < bound
    → parse_digits bound acc xs ≡ some (value acc xs)
unfolding parse_digits
parse_digits_lem bound acc [] h small = ground arith
parse_digits_lem bound acc (x ∷ xs) h small =
    ground (arith, parse_digits_lem bound (acc * 10 + (x - 48)) xs h.1 small)

decimal_digits_some : (more n : ℕ) → 1 ≤ length (decimal_digits more n)
unfolding decimal_digits
decimal_digits_some zero n = omega arith
decimal_digits_some (suc more) n =
    ground (arith, length-append (decimal_digits more (n / 10)) ((48 + n % 10) ∷ []))

parse_unsigned_lem :
    (bound : ℕ) (xs : List ℕ)
    → IsDigits xs
    → 1 ≤ length xs
    → value 0 xs < bound
    → parse_unsigned bound xs ≡ some (value 0 xs)
unfolding parse_unsigned
parse_unsigned_lem bound [] h some_digit small = absurd (omega arith)
parse_unsigned_lem bound (c ∷ []) h some_digit small = parse_digits_lem bound 0 (c ∷ []) h small
parse_unsigned_lem bound (c ∷ d ∷ text) h some_digit small =
    ground (arith, h, parse_digits_lem bound 0 (c ∷ d ∷ text) h small)

-- A printed number parses back, if it keeps to the bound of its type.
pub parse_unsigned-decimal :
    (bound n : ℕ) → n < bound → n < decimal_limit → parse_unsigned bound (decimal n) ≡ some n
unfolding decimal
parse_unsigned-decimal bound n hb h =
    let (digits, reads) = decimal_digits_lem 19 n h in
    parse_unsigned_lem bound (decimal_digits 19 n) digits (decimal_digits_some 19 n)
      (omega (arith, reads))
    ∙ ap some reads

pub parse_digits-decimal :
    (bound n : ℕ) → n < bound → n < decimal_limit → parse_digits bound 0 (decimal n) ≡ some n
unfolding decimal
parse_digits-decimal bound n hb h =
    let (digits, reads) = decimal_digits_lem 19 n h in
    parse_digits_lem bound 0 (decimal_digits 19 n) digits (omega (arith, reads)) ∙ ap some reads

pub decimal_some : (n : ℕ) → 1 ≤ length (decimal n)
unfolding decimal
decimal_some n = decimal_digits_some 19 n

pub value-decimal : (n : ℕ) → n < decimal_limit → value 0 (decimal n) ≡ n
unfolding decimal
value-decimal n h = (decimal_digits_lem 19 n h).1
