-- ===== src/Session/Cursor.antt =====
-- lib.rs: the cursor that the session tracks to find the edge.
use kmflow.Prelude.{
  Bool, List, Option, [], false, if◌then◌else◌, not, some, true, ℕ, ◌&&◌, ◌>>=◌, ◌∷◌,
}
use kmflow.Prelude.Int.{pos, ℤ}
use kmflow.Prelude.F64.{F64, f64_as_i32}
use kmflow.Prelude.Machine.{add_i32, clamp, sub_i32, u32_as_i32}
use kmflow.Proto.{InputEvent, ScreenInfo, mouse_move}
use kmflow.Edge.{hits}
use kmflow.Daemon.{DaemonState}
use kmflow.Session.{SessionContext}

-- One coordinate: `(c + d as i32).clamp(0, side as i32 - 1)`.
unfoldable pub move_axis : ℕ → ℤ → F64 → Option ℤ
move_axis side c d = clamp (add_i32 c (f64_as_i32 d)) (pos 0) (sub_i32 (u32_as_i32 side) (pos 1))

unfoldable pub move_cursor : ScreenInfo → DaemonState → F64 → F64 → Option DaemonState
move_cursor screen s dx dy = do
  x ← move_axis screen.width s.cursor_x dx
  y ← move_axis screen.height s.cursor_y dy
  some (record s { cursor_x = x; cursor_y = y })

-- The loop over a received frame: follow the motion until the edge is hit. `none` is a panic.
unfoldable pub scan_events :
    SessionContext → Bool → DaemonState → List InputEvent → Option (DaemonState × Bool)
scan_events ctx in_cooldown s [] = some (s, false)
scan_events ctx in_cooldown s (mouse_move dx dy ∷ events) = do
  s' ← move_cursor ctx.local_screen s dx dy
  let rest = scan_events ctx in_cooldown s' events
  if not in_cooldown && hits ctx.edge_detector s'.cursor_x s'.cursor_y
      then some (s', true)
      else rest
scan_events ctx in_cooldown s (_ ∷ events) = scan_events ctx in_cooldown s events
