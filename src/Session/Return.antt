-- ===== src/Session/Return.antt =====
-- lib.rs, peer_session: what keeps the focus from bouncing back after a switch.
use kmflow.Prelude.{
  Bool-cases, arith, false, inl, inr, lt→ltb, refl, some, true, ◌+◌, ◌-◌, ◌/◌, ◌<◌, ◌≡◌, ◌≤◌,
}
use kmflow.Prelude.Int.{pos, ℤ}
use kmflow.Prelude.Machine.{half_i32_nat, u32_as_i32-of_lt}
use kmflow.Proto.{Edge, EventFrame, ScreenInfo}
use kmflow.Edge.{hits, new}
use kmflow.Edge.Regions.{IsScreen, Region, hits-Region}
use kmflow.Daemon.{DaemonState, center_cursor}
use kmflow.Session.{Clock, SessionContext, edge_cooldown, proceed, replay}
use kmflow.Session.Cursor.{scan_events}
use kmflow.Session.Received.{in_cooldown, on_datagram, take_focus}
use kmflow.Session.ReceiveOnly.{leave_screen_ungrabbed, receive_only_datagram, take_focus_ungrabbed}
use kmflow.Session.Bounds.{Within, scan_events_total}

Region-center :
    (s : ScreenInfo) (e : Edge)
    → 3 ≤ s.width
    → 3 ≤ s.height
    → ¬ Region s e (s.width / 2) (s.height / 2)
Region-center s Edge.left hw hh r = omega arith
Region-center s Edge.right hw hh r = omega arith
Region-center s Edge.top hw hh r = omega arith
Region-center s Edge.bottom hw hh r = omega arith

-- On a screen of at least 3 x 3 pixels whose sides fit an i32, no edge is hit where a switch puts the
-- cursor.
center_cursor_quiet :
    (screen : ScreenInfo) (e : Edge) (s : DaemonState)
    → IsScreen screen
    → 3 ≤ screen.width
    → 3 ≤ screen.height
    → let s' = center_cursor screen s in hits (new screen e) s'.cursor_x s'.cursor_y ≡ false
unfolding center_cursor
center_cursor_quiet screen e s v hw hh =
    rw
      (
        u32_as_i32-of_lt screen.width v.width_i32,
        u32_as_i32-of_lt screen.height v.height_i32,
        half_i32_nat screen.width,
        half_i32_nat screen.height,
      )
      (elim (Bool-cases (hits (new screen e) (pos (screen.width / 2)) (pos (screen.height / 2)))) [
        | inl hit ↦ absurd (
            Region-center screen e hw hh (
              (hits-Region screen v e (screen.width / 2) (screen.height / 2) (omega arith)
                  (omega arith)).0
                hit))
        | inr miss ↦ miss
      ])

center_cursor-Within :
    (screen : ScreenInfo) (s : DaemonState)
    → IsScreen screen
    → let s' = center_cursor screen s in
      Within screen.width s'.cursor_x × Within screen.height s'.cursor_y
unfolding center_cursor
center_cursor-Within screen s v =
    rw
      (
        u32_as_i32-of_lt screen.width v.width_i32,
        u32_as_i32-of_lt screen.height v.height_i32,
        half_i32_nat screen.width,
        half_i32_nat screen.height,
      )
      (omega arith)

center_cursor_focus :
    (screen : ScreenInfo) (s : DaemonState)
    → ((center_cursor screen s).focus_is_remote ≡ s.focus_is_remote)
      × ((center_cursor screen s).last_focus_switch ≡ s.last_focus_switch)
unfolding center_cursor
center_cursor_focus screen s = (refl, refl)

cooling_soon :
    (clk : Clock) (s : DaemonState)
    → clk.instant < s.last_focus_switch + edge_cooldown
    → in_cooldown clk s ≡ true
unfolding in_cooldown
cooling_soon clk s h = lt→ltb (clk.instant - s.last_focus_switch) edge_cooldown (omega arith)

cooling_over :
    (clk : Clock) (s : DaemonState)
    → s.last_focus_switch + edge_cooldown ≤ clk.instant
    → in_cooldown clk s ≡ false
unfolding in_cooldown
cooling_over clk s h = ground arith

-- On a screen whose sides are positive and fit an i32: within 500 ms of taking the focus, a received
-- frame is replayed whole and never sends the focus back, wherever its motion leads; only the cursor
-- moves, and stays on the screen.
pub take_focus_cooldown :
    (ctx : SessionContext) (clk clk' : Clock) (s : DaemonState) (frame : EventFrame)
    → IsScreen ctx.local_screen
    → clk'.instant < clk.instant + edge_cooldown
    → let s' = (take_focus ctx clk s).state in
      (x y : ℤ) × Within ctx.local_screen.width x
      × Within ctx.local_screen.height y
      × (on_datagram ctx clk' s' (some frame)
          ≡ some (record {
            state = record s' { cursor_x = x; cursor_y = y };
            actions = replay ctx frame.events;
            flow = proceed;
          }))
unfolding on_datagram take_focus
take_focus_cooldown ctx clk clk' s frame v soon =
    let handed : DaemonState = record s {
      focus_is_remote = false;
      last_focus_switch = clk.instant;
    } in
    let s' : DaemonState = center_cursor ctx.local_screen handed in
    let (wx, wy) = center_cursor-Within ctx.local_screen handed v in
    let (local, switched) = center_cursor_focus ctx.local_screen handed in
    let (x, y, hit, e, wx', wy', miss) =
      scan_events_total ctx (in_cooldown clk' s') s' frame.events v wx wy in
    let missed : hit ≡ false = miss (cooling_soon clk' s' (omega arith)) in
    (x, y, wx', wy', ground (arith, local, e, missed))

-- Once the capture is closed, taking the focus starts no cooldown: when 500 ms have passed since the
-- last switch that did, the first frame to reach the edge sends the focus back, however recently the
-- focus was taken.
pub receive_only_no_cooldown :
    (ctx : SessionContext) (clk : Clock) (s s' : DaemonState) (frame : EventFrame)
    → s.last_focus_switch + edge_cooldown ≤ clk.instant
    → scan_events ctx false (take_focus_ungrabbed ctx s).state frame.events ≡ some (s', true)
    → receive_only_datagram ctx clk (take_focus_ungrabbed ctx s).state (some frame)
      ≡ some (leave_screen_ungrabbed ctx s')
unfolding receive_only_datagram take_focus_ungrabbed
receive_only_no_cooldown ctx clk s s' frame late hit =
    let handed : DaemonState = record s { focus_is_remote = false } in
    let t : DaemonState = center_cursor ctx.local_screen handed in
    let (local, switched) = center_cursor_focus ctx.local_screen handed in
    let warm : in_cooldown clk t ≡ false = cooling_over clk t (omega arith) in
    ground (arith, local, warm)
