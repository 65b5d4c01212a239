-- ===== src/Screen/ModeLine.antt =====
-- lib.rs, parse_cosmic_randr: the line of the current mode.
use kmflow.Prelude.{
  All, All-append, List, [], ap, arith, false, length, none, refl, replicate, some, true, ℕ, ◌++◌,
  ◌<◌, ◌∙◌, ◌∷◌, ◌≡◌, ◌≤◌,
}
use kmflow.Prelude.Machine.{two32}
use kmflow.Text.{ascii, contains_text, decimal, strip_prefix}
use kmflow.Text.Words.{first_word, is_whitespace, split_once, trim, trim_start}
use kmflow.Text.Decimal.{
  IsDigits, decimal-IsDigits, decimal-without, decimal_some, parse_unsigned-decimal,
}
use kmflow.Text.Lines.{
  IsTrimmed, IsTrimmed-append, split_once-append, trim-indented, trim_start-spaces,
  until_whitespace-append,
}
use kmflow.Text.Search.{contains_text-behind}
use kmflow.Screen.{Reading, cosmic_line, cosmic_scale, read_mode, read_resolution, u32_or_zero}
use kmflow.Screen.ScaleLine.{cosmic_scale-none, digits_no_space, space_whitespace}
use kmflow.Prelude.Eq.{nat_eq}

-- The text of a resolution.
abbrev pub resolution : ℕ → ℕ → List ℕ
resolution w h = decimal w ++ b'x' ∷ decimal h

-- The line of a mode, with what follows the resolution.
abbrev pub mode_line : ℕ → ℕ → ℕ → List ℕ → List ℕ
mode_line indent w h extra = replicate indent 32 ++ (resolution w h ++ 32 ∷ extra)

-- Behind the resolution of the current mode.
abbrev pub IsCurrent : List ℕ → Type 0
IsCurrent extra = IsTrimmed extra × (contains_text extra (ascii "(current)") ≡ true)

u32_or_zero-decimal : (n : ℕ) → n < two32 → u32_or_zero (decimal n) ≡ n
unfolding u32_or_zero
u32_or_zero-decimal n h = rw (parse_unsigned-decimal two32 n h (omega arith), u32_or_zero) refl

read_resolution_lem :
    (w h : ℕ) (r : Reading)
    → w < two32
    → h < two32
    → read_resolution (resolution w h) r ≡ record r { width = w; height = h }
unfolding read_resolution
read_resolution_lem w h r fw fh =
    let halves : split_once b'x' (resolution w h) ≡ some (decimal w, decimal h) =
      split_once-append b'x' (decimal w) (decimal h)
        (decimal-without b'x' w (λ k. omega arith) (omega arith)) in
    rw (halves, read_resolution, u32_or_zero-decimal w fw, u32_or_zero-decimal h fh) refl

-- A line that begins with a digit is no line of a scale, and its first word reaches to the first space.
first_word-digits :
    (xs word extra : List ℕ)
    → IsDigits xs
    → 1 ≤ length xs
    → All (λ d. is_whitespace d ≡ false) word
    → first_word ((xs ++ word) ++ 32 ∷ extra) ≡ some (xs ++ word)
unfolding first_word
first_word-digits [] word extra d some_digit spaceless = absurd (omega arith)
first_word-digits (x ∷ xs) word extra d some_digit spaceless =
    let front : trim_start (x ∷ ((xs ++ word) ++ 32 ∷ extra)) ≡ x ∷ ((xs ++ word) ++ 32 ∷ extra) =
      trim_start-spaces 0 x ((xs ++ word) ++ 32 ∷ extra) (digits_no_space (x ∷ xs) d).0 in
    let all : All (λ d. is_whitespace d ≡ false) (x ∷ xs ++ word) =
      All-append (λ d. is_whitespace d ≡ false) (x ∷ xs) word (digits_no_space (x ∷ xs) d)
        spaceless in
    rw (front, first_word)
      (ap (λ (t : List ℕ). some t)
        (until_whitespace-append (x ∷ xs ++ word) 32 extra all space_whitespace))

strip_prefix-digits :
    (xs word rest : List ℕ)
    → IsDigits xs
    → 1 ≤ length xs
    → strip_prefix (ascii "Scale:") ((xs ++ word) ++ rest) ≡ none
unfolding strip_prefix
strip_prefix-digits [] word rest d some_digit = absurd (omega arith)
strip_prefix-digits (x ∷ xs) word rest d some_digit = ground (arith, d.0)

trim-digits :
    (indent : ℕ) (xs word rest : List ℕ)
    → IsDigits xs
    → 1 ≤ length xs
    → IsTrimmed rest
    → trim (replicate indent 32 ++ ((xs ++ word) ++ rest)) ≡ (xs ++ word) ++ rest
trim-digits indent [] word rest d some_digit t = absurd (omega arith)
trim-digits indent (x ∷ xs) word rest d some_digit t =
    trim-indented indent x ((xs ++ word) ++ rest) (digits_no_space (x ∷ xs) d).0
      (IsTrimmed-append (x ∷ xs ++ word) rest t)

read_mode_of :
    (line word : List ℕ) (r : Reading)
    → first_word line ≡ some word
    → read_mode line r ≡ read_resolution word r
unfolding read_mode
read_mode_of line word r e = rw (e, read_mode) refl

x_whitespace : is_whitespace b'x' ≡ false
unfolding is_whitespace
x_whitespace = refl

module _ (indent w h : ℕ) (extra : List ℕ) (fw : w < two32) (fh : h < two32)
    (x : IsCurrent extra) where
  trim-mode_line : trim (mode_line indent w h extra) ≡ resolution w h ++ 32 ∷ extra
  trim-mode_line =
      trim-digits indent (decimal w) (b'x' ∷ decimal h) (32 ∷ extra)
        (decimal-IsDigits w (omega arith)) (decimal_some w) (IsTrimmed-append (32 ∷ []) extra x.0)

  first_word-mode : first_word (resolution w h ++ 32 ∷ extra) ≡ some (resolution w h)
  first_word-mode =
      first_word-digits (decimal w) (b'x' ∷ decimal h) extra (decimal-IsDigits w (omega arith))
        (decimal_some w)
        (x_whitespace, digits_no_space (decimal h) (decimal-IsDigits h (omega arith)))

  pub cosmic_line-mode :
      (r : Reading)
      → cosmic_line (mode_line indent w h extra) r ≡ record r { width = w; height = h }
  unfolding cosmic_line
  cosmic_line-mode r =
      let mode = resolution w h ++ 32 ∷ extra in
      let found : contains_text mode (ascii "(current)") ≡ true =
        contains_text-behind (resolution w h) (32 ∷ extra) (ascii "(current)")
          (contains_text-behind (32 ∷ []) extra (ascii "(current)") x.1) in
      let no_scale : cosmic_scale mode r ≡ r = cosmic_scale-none mode r (
        strip_prefix-digits (decimal w) (b'x' ∷ decimal h) (32 ∷ extra)
          (decimal-IsDigits w (omega arith)) (decimal_some w)) in
      rw trim-mode_line (
        rw (found, cosmic_line, no_scale)
          (read_mode_of mode (resolution w h) r first_word-mode ∙ read_resolution_lem w h r fw fh))
