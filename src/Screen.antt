-- ===== src/Screen.antt =====
-- crates/kmflow-daemon/src/lib.rs, query_screen_info and what it calls: the size and scale of the
-- local screen, from the tools of the compositor, the X server or the kernel. Text is code points;
-- `String::from_utf8_lossy` is a parameter, and the runs of the tools are inputs.
pub mod Query
pub mod Sides
pub mod Start
pub mod Colours
pub mod ScaleLine
pub mod ModeLine
pub mod Report
use kmflow.Prelude.{
  Bool, List, Option, [], false, if◌then◌else◌, ltb, none, not, some, true, ℕ, ◌&&◌, ◌∷◌,
}
use kmflow.Prelude.Eq.{nat_eq, ◌==◌}
use kmflow.Prelude.Machine.{two32}
use kmflow.Prelude.Double.{Double, div_double, double_as_u32, double_of, to_f64}
use kmflow.Text.{bytes_eq, ascii, contains_text, parse_unsigned, strip_prefix}
use kmflow.Text.Words.{first_word, lines, split_once, trim, trim_end_if}
use kmflow.Text.Float.{parse_f64}
use kmflow.Proto.{Edge, ScreenInfo, ScreenPosition}
use kmflow.Clipboard.{ToolRun, succeeded}

-- What the lines of a report have given so far.
pub record Reading : Type 0 where
  pub scale : Double
  pub width : ℕ
  pub height : ℕ

abbrev pub no_reading : Reading
no_reading = record { scale = double_of 1; width = 0; height = 0 }

-- ANSI colours are taken out: from an escape to the next "m". The Boolean: inside of one.
unfoldable pub strip_ansi : Bool → List ℕ → List ℕ
strip_ansi inside [] = []
strip_ansi true (c ∷ input) = strip_ansi (not (c == b'm')) input
strip_ansi false (c ∷ input) =
    let rest = strip_ansi (c == 27) input in if c == 27 then rest else c ∷ rest

-- `parse().unwrap_or(0)` to a u32.
unfoldable pub u32_or_zero : List ℕ → ℕ
u32_or_zero input = elim (parse_unsigned two32 input) [ none ↦ 0 | some n ↦ n ]

unfoldable pub read_resolution : List ℕ → Reading → Reading
unfolding split_once u32_or_zero
read_resolution res r = elim (split_once b'x' res) [
  | none ↦ r
  | some (w, h) ↦ record r { width = u32_or_zero w; height = u32_or_zero h }
]

-- The first word of the line of the current mode.
unfoldable pub read_mode : List ℕ → Reading → Reading
unfolding first_word read_resolution
read_mode line r = elim (first_word line) [ none ↦ r | some res ↦ read_resolution res r ]

unfoldable pub is_percent : ℕ → Bool
is_percent c = c == b'%'

unfoldable pub read_percentage : List ℕ → Reading → Reading
unfolding parse_f64 div_double trim trim_end_if is_percent
read_percentage rest r = elim (parse_f64 (trim_end_if is_percent (trim rest))) [
  | none ↦ r
  | some pct ↦ record r { scale = div_double pct (double_of 100) }
]

unfoldable pub cosmic_scale : List ℕ → Reading → Reading
unfolding strip_prefix read_percentage
cosmic_scale line r = elim (strip_prefix (ascii "Scale:") line) [
  | none ↦ r
  | some rest ↦ read_percentage rest r
]

unfoldable pub cosmic_line : List ℕ → Reading → Reading
unfolding trim cosmic_scale contains_text read_mode
cosmic_line line r =
    let trimmed = trim line in
    let r' = cosmic_scale trimmed r in
    if contains_text trimmed (ascii "(current)") then read_mode trimmed r' else r'

unfoldable pub read_number : List ℕ → Reading → Reading
unfolding parse_f64 trim
read_number rest r = elim (parse_f64 (trim rest)) [ none ↦ r | some v ↦ record r { scale = v } ]

unfoldable pub wlr_scale : List ℕ → Reading → Reading
unfolding strip_prefix read_number
wlr_scale line r = elim (strip_prefix (ascii "Scale:") line) [
  | none ↦ r
  | some rest ↦ read_number rest r
]

unfoldable pub wlr_line : List ℕ → Reading → Reading
unfolding trim wlr_scale contains_text read_mode
wlr_line line r =
    let trimmed = trim line in
    let r' = wlr_scale trimmed r in
    if contains_text trimmed (ascii "current") && contains_text trimmed (ascii "x")
    then read_mode trimmed r'
    else r'

-- The lines in turn.
unfoldable pub read_lines : (List ℕ → Reading → Reading) → List (List ℕ) → Reading → Reading
read_lines read [] r = r
read_lines read (line ∷ rest) r = read_lines read rest (read line r)

abbrev pub default_position : ScreenPosition
default_position = record { edge = Edge.right; monitor_id = 0 }

-- `(side as f64 / scale) as u32`.
unfoldable pub logical_side : Double → ℕ → ℕ
unfolding div_double double_as_u32
logical_side scale side = double_as_u32 (div_double (double_of side) scale)

-- The screen in logical pixels, if the report gave a mode.
unfoldable pub logical_screen : Reading → ScreenInfo
unfolding logical_side to_f64
logical_screen r = record {
  width = logical_side r.scale r.width;
  height = logical_side r.scale r.height;
  scale_factor = to_f64 r.scale;
  position = default_position;
}

unfoldable pub screen_of : Reading → Option ScreenInfo
unfolding logical_screen
screen_of r = if ltb 0 r.width && ltb 0 r.height then some (logical_screen r) else none

unfoldable pub parse_cosmic_randr : List ℕ → Option ScreenInfo
unfolding strip_ansi lines read_lines cosmic_line screen_of
parse_cosmic_randr output =
    screen_of (read_lines cosmic_line (lines (strip_ansi false output)) no_reading)

unfoldable pub parse_wlr_randr : List ℕ → Option ScreenInfo
unfolding lines read_lines wlr_line screen_of
parse_wlr_randr output = screen_of (read_lines wlr_line (lines output) no_reading)

-- A run of cosmic-randr that succeeds decides, also if its report gives no mode.
unfoldable pub detect_screen_from_randr : (List ℕ → List ℕ) → ToolRun → ToolRun → Option ScreenInfo
unfolding parse_cosmic_randr parse_wlr_randr
detect_screen_from_randr from_utf8_lossy (succeeded stdout) wlr =
    parse_cosmic_randr (from_utf8_lossy stdout)
detect_screen_from_randr from_utf8_lossy cosmic (succeeded stdout) =
    parse_wlr_randr (from_utf8_lossy stdout)
detect_screen_from_randr from_utf8_lossy cosmic wlr = none
