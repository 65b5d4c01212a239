-- ===== src/Text/Float.antt =====
-- `parse::<f64>` of Rust, over code points.
use kmflow.Prelude.{
  Bool, List, Option, [], false, if◌then◌else◌, leb, length, ltb, map, none, refl, some, true, ℕ,
  ◌&&◌, ◌*◌, ◌++◌, ◌+◌, ◌-◌, ◌>>=◌, ◌^◌, ◌||◌, ◌∷◌, ◌≡◌,
}
use kmflow.Prelude.Eq.{nat_eq, ◌==◌}
use kmflow.Prelude.Double.{Double, finite, infinite, not_a_number, round_ratio}
use kmflow.Text.Words.{to_ascii_lowercase}
use kmflow.Text.{bytes_eq, ascii, bytes_beq}

abbrev pub is_digit : ℕ → Bool
is_digit c = leb 48 c && leb c 57

-- The digits at the front, and the rest.
unfoldable pub span_digits : List ℕ → List ℕ × List ℕ
span_digits [] = ([], [])
span_digits (c ∷ text) =
    let (digits, rest) = span_digits text in
    if is_digit c then (c ∷ digits, rest) else ([], c ∷ text)

-- The number that the digits write behind one that was read before them.
unfoldable pub digits_value : ℕ → List ℕ → ℕ
digits_value acc [] = acc
digits_value acc (c ∷ digits) = digits_value (acc * 10 + (c - 48)) digits

-- A sign is taken off; the Boolean is true for a minus.
unfoldable pub split_sign : List ℕ → Bool × List ℕ
split_sign [] = (false, [])
split_sign (c ∷ text) =
    if c == b'-' then (true, text) else if c == b'+' then (false, text) else (false, c ∷ text)

-- Digits behind a point, if there is a point.
unfoldable pub split_fraction : List ℕ → List ℕ × List ℕ
unfolding span_digits
split_fraction [] = ([], [])
split_fraction (c ∷ text) = if c == b'.' then span_digits text else ([], c ∷ text)

-- The end of a number: nothing, or an exponent with its sign.
abbrev only_digits : Bool → List ℕ × List ℕ → Option (Bool × ℕ)
only_digits negative (c ∷ digits, []) = some (negative, digits_value 0 (c ∷ digits))
only_digits negative (_, _) = none

unfoldable pub parse_exponent : List ℕ → Option (Bool × ℕ)
unfolding span_digits split_sign digits_value
parse_exponent [] = some (false, 0)
parse_exponent (c ∷ text) =
    let (negative, rest) = split_sign text in
    if c == b'e' || c == b'E' then only_digits negative (span_digits rest) else none

-- Digits of which so many stand behind the point, times a power of ten.
unfoldable pub scaled : Bool → ℕ → ℕ → Bool × ℕ → Double
unfolding round_ratio
scaled s digits places (true, e) = round_ratio s digits (10 ^ (places + e))
scaled s digits places (false, e) =
    if ltb e places
    then round_ratio s digits (10 ^ (places - e))
    else round_ratio s (digits * 10 ^ (e - places)) 1

-- "inf", "infinity" and "nan", in any case.
unfoldable pub parse_special : Bool → List ℕ → Option Double
unfolding bytes_beq
parse_special s text =
    let word = map to_ascii_lowercase text in
    if word == ascii "inf" || word == ascii "infinity"
    then some (infinite s)
    else if word == ascii "nan"
    then some not_a_number
    else none

-- Without its sign: digits with at most one point among them, at least one, then the exponent.
unfoldable pub parse_magnitude : Bool → List ℕ → Option Double
unfolding span_digits split_fraction parse_exponent scaled digits_value parse_special
parse_magnitude s text =
    let (whole, after) = span_digits text in
    let (fraction, ending) = split_fraction after in
    let digits = whole ++ fraction in
    if digits == [] then parse_special s text else (do
      exponent ← parse_exponent ending
      some (scaled s (digits_value 0 digits) (length fraction) exponent))

unfoldable pub parse_f64 : List ℕ → Option Double
unfolding split_sign parse_magnitude
parse_f64 text = let (negative, rest) = split_sign text in parse_magnitude negative rest

half : parse_f64 (ascii "-12.50e-1") ≡ parse_f64 (ascii "-1.25")
unfolding parse_f64
half = refl

one_and_a_half : (parse_f64 (ascii "1.5") ≡ some (finite false 6755399441055744 52))
unfolding parse_f64
one_and_a_half = refl

refused : parse_f64 (ascii "1.5.") ≡ none
unfolding parse_f64
refused = refl

no_digits : parse_f64 (ascii ".") ≡ none
unfolding parse_f64
no_digits = refl
