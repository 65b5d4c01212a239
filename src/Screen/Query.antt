-- ===== src/Screen/Query.antt =====
-- lib.rs, query_screen_info: the compositor's tools first, then the X server, then the kernel's
-- connectors, then a default; and Daemon::new, the override of the scale.
use kmflow.Prelude.{
  Bool, List, Option, [], if◌then◌else◌, ltb, map, none, some, ℕ, ◌&&◌, ◌>>=◌, ◌||◌, ◌∷◌,
}
use kmflow.Prelude.Eq.{nat_eq, ◌==◌}
use kmflow.Prelude.F64.{F64}
use kmflow.Prelude.Double.{Double, div_double, double_of, exceeds_one, is_one, of_f64, to_f64}
use kmflow.Text.{bytes_eq, ascii, contains_text, strip_prefix}
use kmflow.Text.Words.{lines, split_once, to_ascii_lowercase, trim}
use kmflow.Text.Float.{parse_f64}
use kmflow.Proto.{KmflowConfig, ScreenInfo}
use kmflow.Clipboard.{ToolRun}
use kmflow.CaptureLoop.{Backend, evdev, x11}
use kmflow.Daemon.{DaemonState, initial}
use kmflow.Screen.{default_position, detect_screen_from_randr, logical_side, u32_or_zero}

-- A connector of /sys/class/drm: its name, and its files `status` and `modes`, empty if unreadable.
pub record DrmEntry : Type 0 where
  pub name : List ℕ
  pub status : List ℕ
  pub modes : List ℕ

unfoldable pub is_display : List ℕ → Bool
unfolding contains_text
is_display name =
    contains_text name (ascii "HDMI")
    || contains_text name (ascii "DP")
    || contains_text name (ascii "eDP")

unfoldable pub is_plugged_in : List ℕ → Bool
unfolding trim
is_plugged_in status = map to_ascii_lowercase (trim status) == ascii "connected"

unfoldable pub mode_screen : List ℕ × List ℕ → Option ScreenInfo
unfolding u32_or_zero
mode_screen (w, h) =
    let width = u32_or_zero w in
    let height = u32_or_zero h in
    if ltb 0 width && ltb 0 height
    then some (record {
      width = width;
      height = height;
      scale_factor = to_f64 (double_of 1);
      position = default_position;
    })
    else none

unfoldable pub first_mode : List (List ℕ) → Option ScreenInfo
unfolding split_once mode_screen
first_mode [] = none
first_mode (mode ∷ modes) = split_once b'x' mode >>= mode_screen

unfoldable pub detect_screen_from_drm : List DrmEntry → Option ScreenInfo
unfolding is_display is_plugged_in first_mode lines
detect_screen_from_drm [] = none
detect_screen_from_drm (entry ∷ entries) =
    let rest = detect_screen_from_drm entries in
    if is_display entry.name && is_plugged_in entry.status
    then elim (first_mode (lines entry.modes)) [ none ↦ rest | some screen ↦ some screen ]
    else rest

-- A number in the environment, if it is set to one.
abbrev pub env_number : Option (List ℕ) → Option Double
env_number value = value >>= parse_f64

unfoldable pub xft_dpi : List ℕ → Option Double
unfolding strip_prefix parse_f64 trim div_double
xft_dpi line = do
  dpi ← strip_prefix (ascii "Xft.dpi:") line
  v ← parse_f64 (trim dpi)
  some (div_double v (double_of 96))

unfoldable pub first_dpi : List (List ℕ) → Double
unfolding xft_dpi
first_dpi [] = double_of 1
first_dpi (line ∷ rest) =
    let below = first_dpi rest in elim (xft_dpi line) [ none ↦ below | some scale ↦ scale ]

-- GDK_SCALE, QT_SCALE_FACTOR, and what `xrdb -query` printed, if it could be run.
unfoldable pub detect_x11_scale : Option (List ℕ) → Option (List ℕ) → Option (List ℕ) → Double
unfolding first_dpi lines parse_f64
detect_x11_scale gdk qt xrdb = elim (env_number gdk) [
  | some v ↦ v
  | none ↦ elim (env_number qt) [
    | some v ↦ v
    | none ↦ elim xrdb [ none ↦ double_of 1 | some stdout ↦ first_dpi (lines stdout) ]
  ]
]

-- What the machine answers.
pub record Probes : Type 0 where
  pub cosmic_randr : ToolRun
  pub wlr_randr : ToolRun
  pub x11_pixels : Option (ℕ × ℕ)  -- none: no connection
  pub gdk_scale : Option (List ℕ)
  pub qt_scale_factor : Option (List ℕ)
  pub xrdb : Option (List ℕ)
  pub drm : List DrmEntry  -- empty if the directory is unreadable

unfoldable pub x11_screen : Backend → Probes → Option ScreenInfo
unfolding detect_x11_scale to_f64
x11_screen evdev p = none
x11_screen x11 p = p.x11_pixels >>= λ (pixels : ℕ × ℕ). some (record {
  width = pixels.0;
  height = pixels.1;
  scale_factor = to_f64 (detect_x11_scale p.gdk_scale p.qt_scale_factor p.xrdb);
  position = default_position;
})

abbrev pub default_screen : ScreenInfo
default_screen = record {
  width = 1920;
  height = 1080;
  scale_factor = to_f64 (double_of 1);
  position = default_position;
}

abbrev pub or_else : {A : Type 0} → Option A → Option A → Option A
or_else none b = b
or_else (some a) b = some a

abbrev pub unwrap_or : {A : Type 0} → Option A → A → A
unwrap_or none a = a
unwrap_or (some b) a = b

unfoldable pub query_screen_info : (List ℕ → List ℕ) → Backend → Probes → ScreenInfo
unfolding detect_screen_from_randr x11_screen detect_screen_from_drm
query_screen_info from_utf8_lossy backend p =
    unwrap_or
      (or_else (detect_screen_from_randr from_utf8_lossy p.cosmic_randr p.wlr_randr)
        (or_else (x11_screen backend p) (detect_screen_from_drm p.drm)))
      default_screen

-- The override replaces the scale; the size is divided by it if it was physical so far.
unfoldable pub override_scale : F64 → ScreenInfo → ScreenInfo
unfolding exceeds_one is_one of_f64 logical_side
override_scale s screen =
    if exceeds_one (of_f64 s) && is_one (of_f64 screen.scale_factor)
    then record screen {
      width = logical_side (of_f64 s) screen.width;
      height = logical_side (of_f64 s) screen.height;
      scale_factor = s;
    }
    else record screen { scale_factor = s }

unfoldable pub apply_override : Option F64 → ScreenInfo → ScreenInfo
unfolding override_scale
apply_override none screen = screen
apply_override (some s) screen = override_scale s screen

-- The state that the daemon starts with.
unfoldable pub new_state : (List ℕ → List ℕ) → Backend → Probes → KmflowConfig → ℕ → DaemonState
unfolding query_screen_info apply_override initial
new_state from_utf8_lossy backend p config now =
    initial (apply_override config.scale_override (query_screen_info from_utf8_lossy backend p)) now
