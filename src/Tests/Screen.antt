-- ===== src/Tests/Screen.antt =====
-- Runs of the screen detection, and witnesses of what is proved of it.
use kmflow.Daemon.{initial}
use kmflow.Clipboard.{missing}
use kmflow.Edge.Regions.{IsScreen}
use kmflow.Prelude.{
  All, List, Option, [], arith, drop, false, min, none, refl, some, true, ℕ, ◌*◌, ◌++◌, ◌+◌, ◌-◌,
  ◌/◌, ◌>>=◌, ◌^◌, ◌∷◌, ◌≡◌, ◌≤◌,
}
use kmflow.Prelude.Eq.{nat_eq}
use kmflow.Prelude.Machine.{two32}
use kmflow.Prelude.Double.{div_double, double_of, finite, is_one, of_f64, round_ratio, to_f64}
use kmflow.Text.{bytes_eq, ascii, contains_text, decimal, parse_unsigned, strip_prefix}
use kmflow.Text.Words.{is_whitespace, trim, trim_end_if, trim_start}
use kmflow.Prelude.Int.{pos}
use kmflow.Prelude.F64.{F64, dyadic}
use kmflow.CaptureLoop.{Backend}
use kmflow.Proto.{Edge, Hello, KmflowConfig, ScreenInfo, default_config, mouse_move}
use kmflow.Session.{session_context}
use kmflow.Session.Captured.{on_captured}
use kmflow.Session.Bounds.{IsValid}
use kmflow.Screen.Query.{Probes, apply_override, new_state, query_screen_info}
use kmflow.Screen.Colours.{painted}
use kmflow.Screen.Start.{huge_override_panics, new_state-IsValid}
use kmflow.Handshake.{Link, register}
use kmflow.Tests.{full_hd, no_encoder, one_second, px}
use kmflow.Text.Lines.{join_lines}
use kmflow.Screen.{
  default_position, logical_screen, logical_side, parse_cosmic_randr, parse_wlr_randr,
}
use kmflow.Screen.Sides.{logical_side_rounded}
use kmflow.Screen.ScaleLine.{scale_line}
use kmflow.Screen.ModeLine.{IsCurrent, mode_line}
use kmflow.Screen.Report.{IsOther, parse_cosmic_randr-painted}

-- 1.5 at 2560 pixels.
logical_side_rounded_example :
    (min (2560 * 2 ^ 1 / 3) (two32 - 1) ≤ logical_side (finite false 3 1) 2560)
    × (logical_side (finite false 3 1) 2560 ≤ (2560 * 2 ^ 1 + 2) / 3)
logical_side_rounded_example = logical_side_rounded 2 1 2560

abbrev extra_of_mode : List ℕ
extra_of_mode = ascii "@  60.000 Hz (current) (preferred)"

abbrev heading : List (List ℕ)
heading = ascii "HDMI-A-1 (enabled)" ∷ ascii "  Position: 0,0" ∷ []

abbrev other_mode : List (List ℕ)
other_mode = ascii "      2560x1440 @  59.951 Hz" ∷ []

heading-IsOther : All IsOther heading × All IsOther other_mode
unfolding trim trim_start trim_end_if is_whitespace strip_prefix contains_text
heading-IsOther = (((refl, refl), ((refl, refl), tt)), ((refl, refl), tt))

mode-IsCurrent : IsCurrent extra_of_mode
unfolding trim_end_if is_whitespace contains_text
mode-IsCurrent = ((λ e. cc e, refl), refl)

abbrev report_below : List (List ℕ)
report_below = scale_line 2 150 ∷ mode_line 6 3840 2160 extra_of_mode ∷ other_mode

-- The first line is green.
abbrev colours : List (List ℕ × List ℕ)
colours =
    (ascii "[1;32", ascii "HDMI-A-1 (enabled)")
    ∷ (ascii "[0", 10 ∷ join_lines (drop 1 heading ++ report_below))
    ∷ []

parse_cosmic_randr-painted_example :
    parse_cosmic_randr (painted colours)
    ≡ some (
        logical_screen (record {
          scale = div_double (round_ratio false 150 1) (double_of 100);
          width = 3840;
          height = 2160;
        }))
unfolding decimal
parse_cosmic_randr-painted_example =
    parse_cosmic_randr-painted [] colours heading [] other_mode 2 6 150 3840 2160 extra_of_mode tt
      (omega arith) refl (omega arith) (omega arith) (omega arith) (omega arith) (omega arith)
      mode-IsCurrent heading-IsOther.0 tt heading-IsOther.1 (omega arith)

abbrev size : Option ScreenInfo → Option (ℕ × ℕ)
size screen = screen >>= λ (s : ScreenInfo). some (s.width, s.height)

-- 3840x2160 at 150 % is 2560x1440.
cosmic_report_read : size (parse_cosmic_randr (painted colours)) ≡ some (2560, 1440)
unfolding parse_cosmic_randr decimal parse_unsigned
cosmic_report_read = refl

wlr_report_read :
    size (
      parse_wlr_randr
        (join_lines (ascii "    3840x2160 px, 60.0 Hz (current)" ∷ ascii "  Scale: 1.5" ∷ [])))
    ≡ some (2560, 1440)
unfolding parse_wlr_randr parse_unsigned
wlr_report_read = refl

-- No tool of a compositor, no X server; the kernel knows of one display.
abbrev console : Probes
console = record {
  cosmic_randr = missing;
  wlr_randr = missing;
  x11_pixels = none;
  gdk_scale = none;
  qt_scale_factor = none;
  xrdb = none;
  drm =
      record { name = ascii "card1"; status = []; modes = [] }
      ∷ record {
        name = ascii "card1-HDMI-A-1";
        status = ascii "Connected" ++ 10 ∷ [];
        modes = join_lines (ascii "2560x1440" ∷ ascii "1920x1080" ∷ []);
      }
      ∷ [];
}

abbrev wide : ScreenInfo
wide = record {
  width = 2560;
  height = 1440;
  scale_factor = to_f64 (double_of 1);
  position = default_position;
}

abbrev same_text : List ℕ → List ℕ
same_text chars = chars

console_screen : query_screen_info same_text Backend.evdev console ≡ wide
unfolding query_screen_info parse_unsigned
console_screen = refl

wide-IsScreen : IsScreen wide
wide-IsScreen = record {
  width_pos = omega arith;
  width_i32 = omega arith;
  height_pos = omega arith;
  height_i32 = omega arith;
}

abbrev overridden : F64 → KmflowConfig
overridden s = record default_config { scale_override = some s }

new_state-IsValid_example :
    let begun = new_state same_text Backend.evdev console (overridden (dyadic (pos 5) 2)) 0 in
    IsScreen begun.local_screen × IsValid begun.local_screen begun
unfolding query_screen_info parse_unsigned of_f64 initial new_state apply_override is_one
    session_context
new_state-IsValid_example =
    new_state-IsValid same_text Backend.evdev console (overridden (dyadic (pos 5) 2)) 0
      wide-IsScreen (omega arith)

abbrev desk : Link
desk = record {
  hostname = "desk";
  remote_addr = "10.0.0.2:4242";
  rtt_ms = px 2;
  screen_text = λ s. "1920x1080 @1x";
}

abbrev laptop_hello : Hello
laptop_hello = record {
  protocol_version = 1;
  hostname = "laptop";
  screen_info = full_hd;
  edge = none;
}

-- A scale of 8192 on a screen of 2560 pixels.
huge_override_panics_example :
    let begun = new_state same_text Backend.evdev console (overridden (dyadic (pos 8192) 0)) 0 in
    let joined = register desk laptop_hello begun in
    (begun.local_screen.width ≡ 0)
    × (on_captured
          (session_context joined Edge.right true no_encoder)
          one_second
          true
          joined
          (mouse_move (px 3) (px 0))
          []
        ≡ none)
unfolding query_screen_info parse_unsigned of_f64 initial new_state apply_override is_one
    session_context
huge_override_panics_example =
    huge_override_panics same_text Backend.evdev console (overridden (dyadic (pos 8192) 0)) 0 8191 0
      desk laptop_hello Edge.right true no_encoder one_second true (px 3) (px 0) [] refl refl
      (omega arith) (omega arith)
