-- ===== src/Text/Printed.antt =====
-- A whole number that is printed in decimal reads back as the nearest f64.
use kmflow.Prelude.{
  List, [], ap, arith, false, length, refl, some, ℕ, ◌*◌, ◌++◌, ◌+◌, ◌-◌, ◌<◌, ◌^◌, ◌∙◌, ◌∷◌, ◌≡◌,
  ◌≤◌,
}
use kmflow.Prelude.Eq.{nat_eq}
use kmflow.Prelude.Double.{round_ratio}
use kmflow.Text.{bytes_eq, bytes_beq, decimal}
use kmflow.Text.Decimal.{
  IsDigits, decimal-IsDigits, decimal_limit, decimal_some, value, value-decimal,
}
use kmflow.Text.Float.{
  digits_value, parse_exponent, parse_f64, parse_magnitude, scaled, span_digits, split_fraction,
  split_sign,
}

span_digits-IsDigits : (xs : List ℕ) → IsDigits xs → span_digits xs ≡ (xs, [])
unfolding span_digits
span_digits-IsDigits [] h = refl
span_digits-IsDigits (x ∷ xs) h = ground (arith, h.0, span_digits-IsDigits xs h.1)

digits_value_lem : (acc : ℕ) (xs : List ℕ) → digits_value acc xs ≡ value acc xs
unfolding digits_value
digits_value_lem acc [] = refl
digits_value_lem acc (x ∷ xs) = digits_value_lem (acc * 10 + (x - 48)) xs

append_nil : (xs : List ℕ) → xs ++ [] ≡ xs
append_nil [] = refl
append_nil (x ∷ xs) = ap (λ (t : List ℕ). x ∷ t) (append_nil xs)

split_sign_digit : (c : ℕ) (xs : List ℕ) → 48 ≤ c → split_sign (c ∷ xs) ≡ (false, c ∷ xs)
unfolding split_sign
split_sign_digit c xs h = ground arith

parse_magnitude_digits :
    (c : ℕ) (xs : List ℕ)
    → IsDigits (c ∷ xs)
    → parse_magnitude false (c ∷ xs) ≡ some (round_ratio false (value 0 (c ∷ xs) * 10 ^ 0) 1)
unfolding parse_magnitude split_fraction parse_exponent scaled bytes_beq
parse_magnitude_digits c xs h =
    rw (span_digits-IsDigits (c ∷ xs) h, append_nil xs, digits_value_lem (0 * 10 + (c - 48)) xs)
      refl

parse_digits_only :
    (c : ℕ) (xs : List ℕ)
    → IsDigits (c ∷ xs)
    → parse_f64 (c ∷ xs) ≡ some (round_ratio false (value 0 (c ∷ xs)) 1)
unfolding parse_f64
parse_digits_only c xs h = rw (split_sign_digit c xs h.0.0) (
    parse_magnitude_digits c xs h
    ∙ ap (λ (v : ℕ). some (round_ratio false v 1)) {x = value 0 (c ∷ xs) * 10 ^ 0}
        {y = value 0 (c ∷ xs)} (omega arith))

pub parse_f64-decimal :
    (n : ℕ) → n < decimal_limit → parse_f64 (decimal n) ≡ some (round_ratio false n 1)
parse_f64-decimal n h =
    of_digits (decimal n) (decimal-IsDigits n h) (decimal_some n)
    ∙ ap (λ (v : ℕ). some (round_ratio false v 1)) (value-decimal n h)
  where
    of_digits :
        (xs : List ℕ)
        → IsDigits xs
        → 1 ≤ length xs
        → parse_f64 xs ≡ some (round_ratio false (value 0 xs) 1)
    of_digits [] d some_digit = absurd (omega arith)
    of_digits (x ∷ xs) d some_digit = parse_digits_only x xs d
