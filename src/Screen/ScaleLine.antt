-- ===== src/Screen/ScaleLine.antt =====
-- lib.rs, parse_cosmic_randr: the line of the scale.
use kmflow.Prelude.{
  All, All-append, List, [], ap, arith, false, length, none, refl, replicate, some, true, ℕ, ◌++◌,
  ◌<◌, ◌∙◌, ◌∷◌, ◌≡◌, ◌≢◌, ◌≤◌,
}
use kmflow.Text.{ascii, contains_text, decimal, strip_prefix}
use kmflow.Text.Float.{parse_f64}
use kmflow.Text.Words.{is_whitespace, trim, trim_end_if}
use kmflow.Text.Decimal.{IsDigits, decimal-IsDigits, decimal-without, decimal_limit, decimal_some}
use kmflow.Text.Lines.{IsTrimmed, IsTrimmed-append, trim-indented, trim_end_if-last}
use kmflow.Text.Printed.{parse_f64-decimal}
use kmflow.Text.Search.{contains_text-absent}
use kmflow.Screen.{Reading, cosmic_line, cosmic_scale, is_percent, read_percentage}
use kmflow.Screen.Colours.{Without}
use kmflow.Prelude.Eq.{nat_eq}
use kmflow.Prelude.Double.{Double, div_double, double_of, round_ratio}

-- The line of the scale in percent.
abbrev pub scale_line : ℕ → ℕ → List ℕ
scale_line indent pct = replicate indent 32 ++ (ascii "Scale: " ++ (decimal pct ++ b'%' ∷ []))

pub cosmic_scale-none :
    (line : List ℕ) (r : Reading)
    → strip_prefix (ascii "Scale:") line ≡ none
    → cosmic_scale line r ≡ r
unfolding cosmic_scale
cosmic_scale-none line r e = rw e refl

digits_no_percent : (xs : List ℕ) → IsDigits xs → All (λ d. is_percent d ≡ false) xs
unfolding is_percent
digits_no_percent [] h = tt
digits_no_percent (x ∷ xs) h = (ground (arith, h.0), digits_no_percent xs h.1)

pub digits_no_space : (xs : List ℕ) → IsDigits xs → All (λ d. is_whitespace d ≡ false) xs
unfolding is_whitespace
digits_no_space [] h = tt
digits_no_space (x ∷ xs) h = (ground (arith, h.0), digits_no_space xs h.1)

is_percent_percent : is_percent b'%' ≡ true
unfolding is_percent
is_percent_percent = refl

pub space_whitespace : is_whitespace 32 ≡ true
unfolding is_whitespace
space_whitespace = refl

percent-IsTrimmed : IsTrimmed (b'%' ∷ [])
unfolding trim_end_if is_whitespace
percent-IsTrimmed = (λ e. cc e, refl)

trim-scale_line :
    (indent pct : ℕ) → trim (scale_line indent pct) ≡ ascii "Scale: " ++ (decimal pct ++ b'%' ∷ [])
unfolding is_whitespace
trim-scale_line indent pct =
    trim-indented indent b'S' (ascii "cale: " ++ (decimal pct ++ b'%' ∷ [])) refl (
      IsTrimmed-append (ascii "Scale: ") (decimal pct ++ b'%' ∷ [])
        (IsTrimmed-append (decimal pct) (b'%' ∷ []) percent-IsTrimmed))

-- The percentage that stands behind the colon.
trim-percentage :
    (pct : ℕ)
    → pct < decimal_limit
    → trim (32 ∷ decimal pct ++ b'%' ∷ []) ≡ decimal pct ++ b'%' ∷ []
trim-percentage pct small = of_digits (decimal pct) (decimal-IsDigits pct small) (decimal_some pct)
  where
    of_digits :
        (xs : List ℕ) → IsDigits xs → 1 ≤ length xs → trim (32 ∷ xs ++ b'%' ∷ []) ≡ xs ++ b'%' ∷ []
    of_digits [] d some_digit = absurd (omega arith)
    of_digits (x ∷ xs) d some_digit =
        trim-indented 1 x (xs ++ b'%' ∷ []) (digits_no_space (x ∷ xs) d).0
          (IsTrimmed-append (x ∷ xs) (b'%' ∷ []) percent-IsTrimmed)

read_percentage_of :
    (rest : List ℕ) (r : Reading) (v : Double)
    → parse_f64 (trim_end_if is_percent (trim rest)) ≡ some v
    → read_percentage rest r ≡ record r { scale = div_double v (double_of 100) }
unfolding read_percentage
read_percentage_of rest r v e = rw (e, read_percentage) refl

read_percentage_lem :
    (pct : ℕ) (r : Reading)
    → pct < decimal_limit
    → read_percentage (32 ∷ decimal pct ++ b'%' ∷ []) r
      ≡ record r { scale = div_double (round_ratio false pct 1) (double_of 100) }
read_percentage_lem pct r small =
    let digits : trim_end_if is_percent (decimal pct ++ b'%' ∷ []) ≡ decimal pct =
      trim_end_if-last is_percent (decimal pct) b'%'
        (digits_no_percent (decimal pct) (decimal-IsDigits pct small)) is_percent_percent in
    read_percentage_of (32 ∷ decimal pct ++ b'%' ∷ []) r (round_ratio false pct 1) (
      ap (λ (t : List ℕ). parse_f64 (trim_end_if is_percent t)) (trim-percentage pct small)
      ∙ ap parse_f64 digits
      ∙ parse_f64-decimal pct small)

cosmic_scale_lem :
    (pct : ℕ) (r : Reading)
    → pct < decimal_limit
    → cosmic_scale (ascii "Scale: " ++ (decimal pct ++ b'%' ∷ [])) r
      ≡ record r { scale = div_double (round_ratio false pct 1) (double_of 100) }
unfolding cosmic_scale strip_prefix
cosmic_scale_lem pct r small = read_percentage_lem pct r small

Without-parenthesis :
    (pct : ℕ) → pct < decimal_limit → Without b'(' (ascii "Scale: " ++ (decimal pct ++ b'%' ∷ []))
Without-parenthesis pct small =
    let other : Without b'(' (decimal pct ++ b'%' ∷ []) =
      All-append (λ d. d ≢ b'(') (decimal pct) (b'%' ∷ [])
        (decimal-without b'(' pct (omega arith) small) (omega arith) in
    All-append (λ d. d ≢ b'(') (ascii "Scale: ") (decimal pct ++ b'%' ∷ []) (omega arith) other

pub cosmic_line-scale :
    (indent pct : ℕ) (r : Reading)
    → pct < decimal_limit
    → cosmic_line (scale_line indent pct) r
      ≡ record r { scale = div_double (round_ratio false pct 1) (double_of 100) }
unfolding cosmic_line
cosmic_line-scale indent pct r small =
    let shown = ascii "Scale: " ++ (decimal pct ++ b'%' ∷ []) in
    let no_mode : contains_text shown (ascii "(current)") ≡ false =
      contains_text-absent b'(' (ascii "current)") shown (Without-parenthesis pct small) in
    rw (trim-scale_line indent pct) (rw (no_mode, cosmic_line) (cosmic_scale_lem pct r small))
