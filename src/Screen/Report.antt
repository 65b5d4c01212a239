-- ===== src/Screen/Report.antt =====
-- lib.rs, parse_cosmic_randr: what is read from a report of cosmic-randr.
use kmflow.Prelude.{All, List, [], ap, false, lt→ltb, none, refl, some, ℕ, ◌++◌, ◌<◌, ◌∙◌, ◌∷◌, ◌≡◌}
use kmflow.Prelude.Machine.{two32}
use kmflow.Text.{ascii, contains_text, strip_prefix}
use kmflow.Text.Words.{lines, trim}
use kmflow.Text.Decimal.{decimal_limit}
use kmflow.Text.Lines.{IsLine, join_lines, lines-join_lines}
use kmflow.Screen.{
  Reading, cosmic_line, logical_screen, no_reading, parse_cosmic_randr, read_lines, screen_of,
  strip_ansi,
}
use kmflow.Screen.Colours.{IsPainted, Without, painted, plain, strip_ansi-painted}
use kmflow.Screen.ScaleLine.{cosmic_line-scale, cosmic_scale-none, scale_line}
use kmflow.Screen.ModeLine.{IsCurrent, cosmic_line-mode, mode_line}
use kmflow.Prelude.Eq.{nat_eq}
use kmflow.Prelude.Double.{div_double, double_of, round_ratio}

-- A line of neither kind.
abbrev pub IsOther : List ℕ → Type 0
IsOther line =
    (strip_prefix (ascii "Scale:") (trim line) ≡ none)
    × (contains_text (trim line) (ascii "(current)") ≡ false)

cosmic_line-other : (line : List ℕ) (r : Reading) → IsOther line → cosmic_line line r ≡ r
unfolding cosmic_line
cosmic_line-other line r (no_scale, no_mode) =
    rw (no_mode, cosmic_line) (cosmic_scale-none (trim line) r no_scale)

read_lines-others :
    (others rest : List (List ℕ)) (r : Reading)
    → All IsOther others
    → read_lines cosmic_line (others ++ rest) r ≡ read_lines cosmic_line rest r
unfolding read_lines
read_lines-others [] rest r h = refl
read_lines-others (line ∷ others) rest r h =
    ap (read_lines cosmic_line (others ++ rest)) (cosmic_line-other line r h.0)
    ∙ read_lines-others others rest r h.1

-- The report gives the scale and the resolution of the current mode, among any other lines.
abbrev pub cosmic_report :
    List (List ℕ) → List (List ℕ) → List (List ℕ) → List ℕ → List ℕ → List (List ℕ)
cosmic_report before between after scale mode = before ++ scale ∷ (between ++ mode ∷ after)

read_lines-cons :
    (line : List ℕ) (rest : List (List ℕ)) (r s : Reading)
    → cosmic_line line r ≡ s
    → read_lines cosmic_line (line ∷ rest) r ≡ read_lines cosmic_line rest s
unfolding read_lines
read_lines-cons line rest r s e = ap (read_lines cosmic_line rest) e

read_lines-All :
    (others : List (List ℕ)) (r : Reading)
    → All IsOther others
    → read_lines cosmic_line others r ≡ r
unfolding read_lines
read_lines-All [] r h = refl
read_lines-All (line ∷ others) r h =
    ap (read_lines cosmic_line others) (cosmic_line-other line r h.0) ∙ read_lines-All others r h.1

screen_of_mode : (r : Reading) → 0 < r.width → 0 < r.height → screen_of r ≡ some (logical_screen r)
unfolding screen_of
screen_of_mode r pw ph = rw (lt→ltb 0 r.width pw, lt→ltb 0 r.height ph) refl

-- From a report, in any colours, that has, among any other lines, a line with a scale of so many
-- percent and below it the line of a current mode of w x h pixels: the sides are w and h divided by
-- the scale, which is the percentage, read as an f64, divided by 100.
pub parse_cosmic_randr-painted :
    (first : List ℕ) (ps : List (List ℕ × List ℕ)) (before between after : List (List ℕ))
    (i j pct w h : ℕ) (extra : List ℕ)
    → let report = cosmic_report before between after (scale_line i pct) (mode_line j w h extra) in
      let scale = div_double (round_ratio false pct 1) (double_of 100) in
      Without 27 first
      → IsPainted ps
      → first ++ plain ps ≡ join_lines report
      → pct < decimal_limit
      → 0 < w
      → w < two32
      → 0 < h
      → h < two32
      → IsCurrent extra
      → All IsOther before
      → All IsOther between
      → All IsOther after
      → All IsLine report
      → parse_cosmic_randr (first ++ painted ps)
        ≡ some (logical_screen (record { scale = scale; width = w; height = h }))
unfolding parse_cosmic_randr
parse_cosmic_randr-painted first ps before between after i j pct w h extra clean codes shows fp pw
      fw ph fh x b m a ok =
    let scale = div_double (round_ratio false pct 1) (double_of 100) in
    let scaled_reading : Reading = record no_reading { scale = scale } in
    let reading : Reading = record { scale = scale; width = w; height = h } in
    let shown = scale_line i pct in
    let mode = mode_line j w h extra in
    let report = cosmic_report before between after shown mode in
    let split_up : lines (strip_ansi false (first ++ painted ps)) ≡ report =
      ap lines (strip_ansi-painted first ps clean codes ∙ shows) ∙ lines-join_lines report ok in
    let read : read_lines cosmic_line report no_reading ≡ reading =
      read_lines-others before (shown ∷ (between ++ mode ∷ after)) no_reading b
      ∙ read_lines-cons shown (between ++ mode ∷ after) no_reading scaled_reading
          (cosmic_line-scale i pct no_reading fp)
      ∙ read_lines-others between (mode ∷ after) scaled_reading m
      ∙ read_lines-cons mode after scaled_reading reading
          (cosmic_line-mode j w h extra fw fh x scaled_reading)
      ∙ read_lines-All after reading a in
    ap (λ (ls : List (List ℕ)). screen_of (read_lines cosmic_line ls no_reading)) split_up
    ∙ ap screen_of read
    ∙ screen_of_mode reading pw ph
