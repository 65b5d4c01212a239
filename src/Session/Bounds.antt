-- ===== src/Session/Bounds.antt =====
-- lib.rs, peer_session: on a screen whose sides fit an i32 no turn of the loop panics, and the
-- tracked cursor stays on the screen.
pub mod Handlers
pub mod Run
use kmflow.Session.{SessionContext}
use kmflow.Session.Captured.{drain}
use kmflow.Prelude.{
  Bool, Bool-cases, List, [], arith, false, inl, inr, not, refl, some, suc, true, zero, ℕ, ◌&&◌,
  ◌<◌, ◌>>=◌, ◌∷◌, ◌≡◌,
}
use kmflow.Prelude.Int.{pos, pos_part, sub_ℕ, ℤ, ◌≤ℤ◌}
use kmflow.Prelude.F64.{F64, f64_as_i32}
use kmflow.Prelude.Machine.{
  add_i32, clamp_total, half_i32_nat, sub_i32, sub_i32_nat, two31, two32, u32_as_i32,
  u32_as_i32-of_lt,
}
use kmflow.Proto.{InputEvent, ScreenInfo, key, mouse_button, mouse_move, scroll}
use kmflow.Edge.Regions.{IsScreen}
use kmflow.Edge.{hits}
use kmflow.Daemon.{DaemonState, center_cursor, track_key_state}
use kmflow.Daemon.Tracking.{IsTracked, track_key_state-IsTracked}
use kmflow.Session.Cursor.{move_axis, move_cursor, scan_events}

abbrev pub Within : ℕ → ℤ → Type 0
Within side c = (pos 0 ≤ℤ c) × (pos_part c < side)

pub record IsValid (screen : ScreenInfo) (s : DaemonState) : Type 0 where
  pub column : Within screen.width s.cursor_x
  pub row : Within screen.height s.cursor_y
  pub tracked : IsTracked s
  pub counter : s.seq_counter < two32

move_axis_total :
    (side : ℕ) (c : ℤ) (d : F64)
    → 0 < side
    → side < two31
    → (b : ℤ) × (move_axis side c d ≡ some b) × Within side b
unfolding move_axis
move_axis_total side c d hp hs =
    let e : sub_i32 (u32_as_i32 side) (pos 1) ≡ sub_ℕ side 1 =
      rw (u32_as_i32-of_lt side hs) (sub_i32_nat side 1 hs (omega arith)) in
    let (b, r, lo, hi) =
      clamp_total (add_i32 c (f64_as_i32 d)) (pos 0) (sub_ℕ side 1) (ground arith) in
    (b, rw e r, (lo, ground arith))

pub move_cursor_total :
    (screen : ScreenInfo) (s : DaemonState) (dx dy : F64)
    → IsScreen screen
    → (x y : ℤ) × (move_cursor screen s dx dy ≡ some (record s { cursor_x = x; cursor_y = y }))
      × Within screen.width x
      × Within screen.height y
unfolding move_cursor
move_cursor_total screen s dx dy v =
    let (x, ex, wx) = move_axis_total screen.width s.cursor_x dx v.width_pos v.width_i32 in
    let (y, ey, wy) = move_axis_total screen.height s.cursor_y dy v.height_pos v.height_i32 in
    (x, y, rw (ex, ◌>>=◌, ey) refl, wx, wy)

-- A scan only moves the cursor, to a pixel of the screen, and hits nothing during the cooldown.
pub scan_events_total :
    (ctx : SessionContext) (cooling : Bool) (s : DaemonState) (events : List InputEvent)
    → IsScreen ctx.local_screen
    → Within ctx.local_screen.width s.cursor_x
    → Within ctx.local_screen.height s.cursor_y
    → (x y : ℤ) × (hit : Bool) × (scan_events ctx cooling s events
        ≡ some (record s { cursor_x = x; cursor_y = y }, hit))
      × Within ctx.local_screen.width x
      × Within ctx.local_screen.height y
      × (cooling ≡ true → hit ≡ false)
unfolding scan_events
scan_events_total ctx cooling s [] v wx wy =
    (s.cursor_x, s.cursor_y, false, refl, wx, wy, λ _. refl)
scan_events_total ctx cooling s (mouse_move dx dy ∷ events) v wx wy =
    let (x, y, e, wx', wy') = move_cursor_total ctx.local_screen s dx dy v in
    let s' : DaemonState = record s { cursor_x = x; cursor_y = y } in
    let (x'', y'', hit, e', wx'', wy'', still) =
      scan_events_total ctx cooling s' events v wx' wy' in
    elim (Bool-cases (not cooling && hits ctx.edge_detector x y)) [
      | inl there ↦ (x, y, true, rw (e, ◌>>=◌, there) refl, wx', wy', λ c. ground arith)
      | inr on ↦ (x'', y'', hit, rw (e, ◌>>=◌, on) e', wx'', wy'', still)
    ]
scan_events_total ctx cooling s (mouse_button b p ∷ events) v wx wy =
    scan_events_total ctx cooling s events v wx wy
scan_events_total ctx cooling s (scroll dx dy ∷ events) v wx wy =
    scan_events_total ctx cooling s events v wx wy
scan_events_total ctx cooling s (key c p ∷ events) v wx wy =
    scan_events_total ctx cooling s events v wx wy

pub center_cursor-IsValid :
    (screen : ScreenInfo) (s : DaemonState)
    → IsScreen screen
    → IsValid screen s
    → IsValid screen (center_cursor screen s)
unfolding center_cursor
center_cursor-IsValid screen s v h =
    rw
      (
        u32_as_i32-of_lt screen.width v.width_i32,
        u32_as_i32-of_lt screen.height v.height_i32,
        half_i32_nat screen.width,
        half_i32_nat screen.height,
      )
      (record { column = omega arith; row = omega arith; tracked = h.tracked; counter = h.counter })

pub track_key_state_cursor :
    (s : DaemonState) (e : InputEvent)
    → let s' = track_key_state s e in
      (s'.cursor_x ≡ s.cursor_x)
      × (s'.cursor_y ≡ s.cursor_y)
      × (s'.seq_counter ≡ s.seq_counter)
      × (s'.focus_is_remote ≡ s.focus_is_remote)
unfolding track_key_state
track_key_state_cursor s e = ground arith

pub track_key_state-IsValid :
    (screen : ScreenInfo) (s : DaemonState) (e : InputEvent)
    → IsValid screen s
    → IsValid screen (track_key_state s e)
track_key_state-IsValid screen s e h =
    let (x, y, n, _) = track_key_state_cursor s e in
    record {
      column = rw x h.column;
      row = rw y h.row;
      tracked = track_key_state-IsTracked s e h.tracked;
      counter = rw n h.counter;
    }

pub drain-IsValid :
    (screen : ScreenInfo) (room : ℕ) (s : DaemonState) (queue : List InputEvent)
    → IsValid screen s
    → IsValid screen (drain room s queue).0
unfolding drain
drain-IsValid screen zero s queue h = h
drain-IsValid screen (suc room) s [] h = h
drain-IsValid screen (suc room) s (ev ∷ queue) h =
    drain-IsValid screen room (track_key_state s ev) queue (track_key_state-IsValid screen s ev h)
