-- ===== src/Screen/Start.antt =====
-- lib.rs, Daemon::new: from what the machine answers to the state that the sessions work on.
use kmflow.Daemon.{DaemonState, check_emergency_hotkey, initial, track_key_state}
use kmflow.Screen.{logical_side}
use kmflow.Prelude.{
  Bool, List, Option, ap, arith, false, ltb, lt→ltb, none, refl, some, suc, true, ℕ, ◌*◌, ◌<◌,
  ◌>>=◌, ◌^◌, ◌∙◌, ◌≡◌, ◌≤◌,
}
use native.Mathlib.Nat.{mul-le-mul_right, one-le-pow}
use kmflow.Prelude.Int.{pos, ℤ, ◌-ℤ◌}
use kmflow.Prelude.Machine.{clamp, sub_i32, u32_as_i32, wrap_i32}
use kmflow.Prelude.Double.Bounds.{as_u32-round_ratio-half}
use kmflow.HashSet.{contains}
use kmflow.Session.{Clock, session_context}
use kmflow.Session.Cursor.{move_axis, move_cursor}
use kmflow.Session.Captured.{on_captured, track_local}
use kmflow.Prelude.F64.{F64, dyadic}
use kmflow.Prelude.Double.{div_double, double_as_u32, exceeds_one, is_one, of_f64, round_ratio}
use kmflow.Proto.{ClipboardPayload, Edge, Hello, InputEvent, KmflowConfig, ScreenInfo, mouse_move}
use kmflow.Edge.Regions.{IsScreen}
use kmflow.CaptureLoop.{Backend}
use kmflow.Session.Bounds.{IsValid}
use kmflow.Session.Bounds.Run.{initial-IsValid}
use kmflow.Screen.Query.{Probes, apply_override, new_state, override_scale, query_screen_info}
use kmflow.Handshake.{Link, register, target_edge}
use kmflow.Screen.Sides.{AtMost, override_scale-IsScreen}

-- An override is at most either side of the screen.
abbrev pub Overrides : Option F64 → ScreenInfo → Type 0
Overrides none screen = Unit {0}
Overrides (some s) screen = AtMost (of_f64 s) screen.width × AtMost (of_f64 s) screen.height

apply_override-IsScreen :
    (o : Option F64) (screen : ScreenInfo)
    → IsScreen screen
    → Overrides o screen
    → IsScreen (apply_override o screen)
unfolding apply_override
apply_override-IsScreen none screen v h = v
apply_override-IsScreen (some s) screen v h = override_scale-IsScreen s screen v h.0 h.1

-- The daemon's first state is valid if the screen that was detected can be used and the scale that
-- overrides its scale, if there is one, is at most either side.
pub new_state-IsValid :
    (from_utf8_lossy : List ℕ → List ℕ) (backend : Backend) (p : Probes) (config : KmflowConfig)
    (now : ℕ)
    → IsScreen (query_screen_info from_utf8_lossy backend p)
    → Overrides config.scale_override (query_screen_info from_utf8_lossy backend p)
    → let start = new_state from_utf8_lossy backend p config now in
      IsScreen start.local_screen × IsValid start.local_screen start
unfolding new_state
new_state-IsValid from_utf8_lossy backend p config now v h =
    let screen = query_screen_info from_utf8_lossy backend p in
    let fit = apply_override-IsScreen config.scale_override screen v h in
    (fit, initial-IsValid (apply_override config.scale_override screen) now fit)

no_column : (c : ℤ) (d : F64) → move_axis 0 c d ≡ none
unfolding move_axis clamp sub_i32 u32_as_i32 wrap_i32 ◌-ℤ◌
no_column c d = refl

move_cursor_none :
    (screen : ScreenInfo) (s : DaemonState) (dx dy : F64)
    → screen.width ≡ 0
    → move_cursor screen s dx dy ≡ none
unfolding move_cursor
move_cursor_none screen s dx dy e =
    ground (arith, ap (λ (w : ℕ). move_axis w s.cursor_x dx) e, no_column s.cursor_x dx)

override_width :
    (o : Option F64) (s : F64) (screen : ScreenInfo) (now : ℕ)
    → o ≡ some s
    → (initial (apply_override o screen) now).local_screen.width ≡ (override_scale s screen).width
unfolding initial apply_override
override_width o s screen now e = rw e refl

-- At least twice the width: nothing is left of it.
override_scale_nothing :
    (m k : ℕ) (screen : ScreenInfo)
    → is_one (of_f64 screen.scale_factor) ≡ true
    → 0 < screen.width
    → 2 * (screen.width * 2 ^ k) ≤ suc m
    → (override_scale (dyadic (pos (suc m)) k) screen).width ≡ 0
unfolding override_scale of_f64 exceeds_one logical_side div_double
override_scale_nothing m k screen physical pw huge =
    let above : ltb (2 ^ k) (suc m) ≡ true =
      lt→ltb (2 ^ k) (suc m)
        (grind (arith, mul-le-mul_right (2 ^ k) pw, one-le-pow k 2 (omega arith))) in
    let gone : double_as_u32 (round_ratio false (screen.width * 2 ^ k) (suc m * 2 ^ 0)) ≡ 0 =
      as_u32-round_ratio-half (screen.width * 2 ^ k) (suc m * 2 ^ 0) (omega arith) (omega arith) in
    rw (physical, above) gone

-- If the scale that overrides a scale of 1 is at least twice the width of the screen, the width of the
-- daemon's screen comes out as 0, and in the state that a handshake with any peer leads to, the first
-- motion that is captured panics.
pub huge_override_panics :
    (from_utf8_lossy : List ℕ → List ℕ) (backend : Backend) (p : Probes) (config : KmflowConfig)
    (now m k : ℕ) (link : Link) (hello : Hello) (target_edge : Edge) (has_emulator : Bool)
    (encode : ClipboardPayload → Option (List ℕ)) (clk : Clock) (sent : Bool) (dx dy : F64)
    (queue : List InputEvent)
    → let detected = query_screen_info from_utf8_lossy backend p in
      let start = new_state from_utf8_lossy backend p config now in
      let joined = register link hello start in
      config.scale_override ≡ some (dyadic (pos (suc m)) k)
      → is_one (of_f64 detected.scale_factor) ≡ true
      → 0 < detected.width
      → 2 * (detected.width * 2 ^ k) ≤ suc m
      → (start.local_screen.width ≡ 0)
        × (on_captured
              (session_context joined target_edge has_emulator encode)
              clk
              sent
              joined
              (mouse_move dx dy)
              queue
            ≡ none)
unfolding new_state apply_override initial register session_context on_captured track_key_state
    check_emergency_hotkey contains track_local move_cursor
huge_override_panics from_utf8_lossy backend p config now m k link hello target_edge has_emulator
      encode clk sent dx dy queue o physical pw huge =
    let detected = query_screen_info from_utf8_lossy backend p in
    let start : DaemonState = initial (apply_override config.scale_override detected) now in
    let gone : start.local_screen.width ≡ 0 =
      override_width config.scale_override _ detected now o
      ∙ override_scale_nothing m k detected physical pw huge in
    (
      gone,
      rw (move_cursor_none start.local_screen (register link hello start) dx dy gone, ◌>>=◌) refl,
    )
