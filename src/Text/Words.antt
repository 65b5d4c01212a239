-- ===== src/Text/Words.antt =====
-- What the screen detection uses of Rust's str, over code points: lines, words, white space.
use kmflow.Prelude.{
  Bool, List, Option, [], false, if◌then◌else◌, leb, none, some, ℕ, ◌&&◌, ◌+◌, ◌||◌, ◌∷◌,
}
use kmflow.Prelude.Eq.{nat_eq, ◌==◌}

-- char::is_whitespace, the property White_Space of Unicode.
unfoldable pub is_whitespace : ℕ → Bool
is_whitespace c =
    c == 32
    || (leb 9 c && leb c 13)
    || c == 0x85
    || c == 0xA0
    || c == 0x1680
    || (leb 0x2000 c && leb c 0x200A)
    || c == 0x2028
    || c == 0x2029
    || c == 0x202F
    || c == 0x205F
    || c == 0x3000

unfoldable pub trim_start : List ℕ → List ℕ
unfolding is_whitespace
trim_start [] = []
trim_start (c ∷ text) = let rest = trim_start text in if is_whitespace c then rest else c ∷ text

-- Without the characters at the end that pass the test.
unfoldable pub trim_end_if : (ℕ → Bool) → List ℕ → List ℕ
trim_end_if test [] = []
trim_end_if test (c ∷ text) = elim (trim_end_if test text) [
  | [] ↦ if test c then [] else c ∷ []
  | d ∷ rest ↦ c ∷ d ∷ rest
]

unfoldable pub trim : List ℕ → List ℕ
unfolding trim_start trim_end_if
trim text = trim_start (trim_end_if is_whitespace text)

-- `split_whitespace().next()`.
unfoldable pub until_whitespace : List ℕ → List ℕ
unfolding is_whitespace
until_whitespace [] = []
until_whitespace (c ∷ text) =
    let rest = until_whitespace text in if is_whitespace c then [] else c ∷ rest

unfoldable pub first_word : List ℕ → Option (List ℕ)
unfolding trim_start until_whitespace
first_word text = elim (trim_start text) [
  | [] ↦ none
  | c ∷ rest ↦ some (until_whitespace (c ∷ rest))
]

abbrev pub put_first : ℕ → Option (List ℕ × List ℕ) → Option (List ℕ × List ℕ)
put_first c none = none
put_first c (some (before, after)) = some (c ∷ before, after)

-- What stands before and behind the first separator, if there is one.
unfoldable pub split_once : ℕ → List ℕ → Option (List ℕ × List ℕ)
split_once sep [] = none
split_once sep (c ∷ text) =
    let rest = put_first c (split_once sep text) in if c == sep then some ([], text) else rest

abbrev pub onto_first : ℕ → List (List ℕ) → List (List ℕ)
onto_first c [] = (c ∷ []) ∷ []
onto_first c (line ∷ rest) = (c ∷ line) ∷ rest

abbrev pub is_line_end : List ℕ → Bool
is_line_end [] = false
is_line_end (c ∷ text) = c == 10

-- Each line ends with a line feed, or with a carriage return and a line feed; the last may have none.
unfoldable pub lines : List ℕ → List (List ℕ)
lines [] = []
lines (c ∷ text) =
    let rest = lines text in
    if c == 10 then [] ∷ rest else if c == 13 && is_line_end text then rest else onto_first c rest

-- `to_ascii_lowercase`.
abbrev pub to_ascii_lowercase : ℕ → ℕ
to_ascii_lowercase c = if leb 65 c && leb c 90 then c + 32 else c
