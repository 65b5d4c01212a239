-- ===== src/Text.antt =====
-- What the program uses of Rust's strings, over their bytes: comparison, search, prefixes, and the
-- printing and parsing of numbers in decimal and of bytes in hexadecimal.
pub mod Words
pub mod Lines
pub mod Float
pub mod Search
pub mod Decimal
pub mod Printed
use Prim.Native.Char.{code}
use Prim.Native.String.{String}
use kmflow.Prelude.{
  Bool, List, Option, [], arith, false, if◌then◌else◌, leb, ltb, none, some, suc, true, zero, ℕ,
  ◌%◌, ◌&&◌, ◌*◌, ◌++◌, ◌+◌, ◌-◌, ◌/◌, ◌||◌, ◌↔◌, ◌∷◌, ◌≡◌,
}
use kmflow.Prelude.Eq.{nat_eq, HasEq, ◌==◌}

-- The bytes of a literal, all of which are ASCII.
abbrev pub ascii : String → List ℕ
ascii String.[] = []
ascii (String.◌∷◌ c s) = code c ∷ ascii s

unfoldable pub bytes_beq : List ℕ → List ℕ → Bool
bytes_beq [] [] = true
bytes_beq [] (y ∷ ys) = false
bytes_beq (x ∷ xs) [] = false
bytes_beq (x ∷ xs) (y ∷ ys) = x == y && bytes_beq xs ys

pub bytes_beq_iff : (xs ys : List ℕ) → (bytes_beq xs ys ≡ true) ↔ (xs ≡ ys)
unfolding bytes_beq
bytes_beq_iff [] [] = ground arith
bytes_beq_iff [] (y ∷ ys) = ground arith
bytes_beq_iff (x ∷ xs) [] = ground arith
bytes_beq_iff (x ∷ xs) (y ∷ ys) = ground (arith, bytes_beq_iff xs ys)

instance abbrev pub bytes_eq : HasEq (List ℕ)
bytes_eq = record { beq = bytes_beq; beq_iff = bytes_beq_iff }

-- `strip_prefix`: the rest behind a prefix.
unfoldable pub strip_prefix : List ℕ → List ℕ → Option (List ℕ)
strip_prefix [] text = some text
strip_prefix (p ∷ prefix) [] = none
strip_prefix (p ∷ prefix) (c ∷ text) = if p == c then strip_prefix prefix text else none

abbrev pub is_some : {A : Type 0} → Option A → Bool
is_some none = false
is_some (some a) = true

unfoldable pub starts_with : List ℕ → List ℕ → Bool
unfolding strip_prefix
starts_with text prefix = is_some (strip_prefix prefix text)

-- `contains`: the pattern at some place of the text.
unfoldable pub contains_text : List ℕ → List ℕ → Bool
unfolding starts_with
contains_text [] pattern = starts_with [] pattern
contains_text (c ∷ text) pattern = starts_with (c ∷ text) pattern || contains_text text pattern

-- `split(sep).next()`: what stands before the first separator, or the whole.
unfoldable pub before_first : ℕ → List ℕ → List ℕ
before_first sep [] = []
before_first sep (c ∷ text) = let rest = before_first sep text in if c == sep then [] else c ∷ rest

-- `{n}` for a number below 10^20, hence for every u64.
unfoldable pub decimal_digits : ℕ → ℕ → List ℕ
decimal_digits zero n = (48 + n % 10) ∷ []
decimal_digits (suc more) n =
    let front = decimal_digits more (n / 10) in
    if ltb n 10 then (48 + n) ∷ [] else front ++ ((48 + n % 10) ∷ [])

unfoldable pub decimal : ℕ → List ℕ
unfolding decimal_digits
decimal n = decimal_digits 19 n

-- `{b:02x}` for a byte.
unfoldable pub hex_digit : ℕ → ℕ
hex_digit d = if ltb d 10 then 48 + d else 87 + d

unfoldable pub hex_byte : ℕ → List ℕ
unfolding hex_digit
hex_byte b = hex_digit (b / 16) ∷ hex_digit (b % 16) ∷ []

-- `parse` to an unsigned number below a bound: an optional plus sign, then digits, at least one.
unfoldable pub parse_digits : ℕ → ℕ → List ℕ → Option ℕ
parse_digits bound acc [] = if ltb acc bound then some acc else none
parse_digits bound acc (c ∷ text) =
    let rest = parse_digits bound (acc * 10 + (c - 48)) text in
    if leb 48 c && leb c 57 then rest else none

unfoldable pub parse_unsigned : ℕ → List ℕ → Option ℕ
unfolding parse_digits
parse_unsigned bound [] = none
parse_unsigned bound (c ∷ []) = parse_digits bound 0 (c ∷ [])
parse_unsigned bound (c ∷ d ∷ text) =
    if c == 43 then parse_digits bound 0 (d ∷ text) else parse_digits bound 0 (c ∷ d ∷ text)
