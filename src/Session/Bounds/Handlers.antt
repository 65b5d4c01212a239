-- ===== src/Session/Bounds/Handlers.antt =====
-- lib.rs, peer_session: every handler returns, in a valid state.
use kmflow.Session.Cursor.{scan_events}
use kmflow.Session.Received.{in_cooldown, on_control, on_datagram, take_focus}
use kmflow.Session.ReceiveOnly.{
  leave_screen_ungrabbed, receive_only_control, receive_only_datagram, take_focus_ungrabbed,
}
use kmflow.Prelude.{
  Bool, Bool-cases, List, Option, [], arith, false, if◌then◌else◌, inl, inr, none, refl, some, true,
  ℕ, ◌&&◌, ◌>>=◌, ◌≡◌,
}
use kmflow.Prelude.Int.{ℤ}
use kmflow.Proto.{
  ControlCommand, EventFrame, InputEvent, ScreenInfo, key, mouse_button, mouse_move, release_focus,
  scroll, switch_focus,
}
use kmflow.Edge.{hits}
use kmflow.Edge.Regions.{IsScreen}
use kmflow.Daemon.{DaemonState, center_cursor, check_emergency_hotkey, next_seq, track_key_state}
use kmflow.Session.{Clock, Outcome, SessionContext, proceed, replay, stop}
use kmflow.Session.Captured.{forward, leave_screen, on_captured, on_emergency, track_local}
use kmflow.Session.Bounds.{
  IsValid, Within, center_cursor-IsValid, drain-IsValid, move_cursor_total, scan_events_total,
  track_key_state-IsValid,
}

-- The focus and the time of its last switch are free.
refocus-IsValid :
    (screen : ScreenInfo) (s : DaemonState) (remote : Bool) (t : ℕ)
    → IsValid screen s
    → IsValid screen (record s { focus_is_remote = remote; last_focus_switch = t })
refocus-IsValid screen s remote t h = record {
  column = h.column;
  row = h.row;
  tracked = h.tracked;
  counter = h.counter;
}

next_seq-IsValid :
    (screen : ScreenInfo) (s : DaemonState) → IsValid screen s → IsValid screen (next_seq s).0
unfolding next_seq
next_seq-IsValid screen s h = record {
  column = h.column;
  row = h.row;
  tracked = h.tracked;
  counter = omega arith;
}

moved-IsValid :
    (screen : ScreenInfo) (s : DaemonState) (x y : ℤ)
    → Within screen.width x
    → Within screen.height y
    → IsValid screen s
    → IsValid screen (record s { cursor_x = x; cursor_y = y })
moved-IsValid screen s x y wx wy h = record {
  column = wx;
  row = wy;
  tracked = h.tracked;
  counter = h.counter;
}

-- What a handler must return.
abbrev pub Ends : ScreenInfo → Option Outcome → Type 0
Ends screen r = (o : Outcome) × (r ≡ some o) × IsValid screen o.state

module _ (ctx : SessionContext) (v : IsScreen ctx.local_screen) where
  recenter :
      (s : DaemonState) (remote : Bool) (t : ℕ)
      → IsValid ctx.local_screen s
      → IsValid ctx.local_screen (
          center_cursor ctx.local_screen
            (record s { focus_is_remote = remote; last_focus_switch = t }))
  recenter s remote t h =
      center_cursor-IsValid ctx.local_screen _ v (refocus-IsValid ctx.local_screen s remote t h)

  on_emergency-IsValid :
      (clk : Clock) (s : DaemonState)
      → IsValid ctx.local_screen s
      → IsValid ctx.local_screen (on_emergency clk s).state
  unfolding on_emergency
  on_emergency-IsValid clk s h =
      next_seq-IsValid ctx.local_screen _
        (refocus-IsValid ctx.local_screen s false s.last_focus_switch h)

  forward-IsValid :
      (clk : Clock) (sent : Bool) (s : DaemonState) (event : InputEvent) (queue : List InputEvent)
      → IsValid ctx.local_screen s
      → IsValid ctx.local_screen (forward clk sent s event queue).0.state
  unfolding forward
  forward-IsValid clk sent s event queue h =
      next_seq-IsValid ctx.local_screen _ (drain-IsValid ctx.local_screen 63 s queue h)

  track_local_total :
      (s : DaemonState) (event : InputEvent)
      → IsValid ctx.local_screen s
      → Ends ctx.local_screen (track_local ctx s event)
  unfolding track_local leave_screen
  track_local_total s (mouse_move dx dy) h =
      let (x, y, e, wx, wy) = move_cursor_total ctx.local_screen s dx dy v in
      let s' : DaemonState = record s { cursor_x = x; cursor_y = y } in
      let stay : Outcome = record { state = s'; actions = []; flow = proceed } in
      let h' : IsValid ctx.local_screen (record s { cursor_x = x; cursor_y = y }) =
        moved-IsValid ctx.local_screen s x y wx wy h in
      elim (Bool-cases (hits ctx.edge_detector x y)) [
        | inl there ↦ (
          leave_screen ctx s',
          rw (e, ◌>>=◌, there) refl,
          recenter s' true s.last_focus_switch h',
        )
        | inr on ↦ (stay, rw (e, ◌>>=◌, on) refl, h')
      ]
  track_local_total s (mouse_button b p) h = (_, refl, h)
  track_local_total s (scroll dx dy) h = (_, refl, h)
  track_local_total s (key c p) h = (_, refl, h)

  pub on_captured_total :
      (clk : Clock) (sent : Bool) (s : DaemonState) (event : InputEvent) (queue : List InputEvent)
      → IsValid ctx.local_screen s
      → (r : Outcome × List InputEvent) × (on_captured ctx clk sent s event queue ≡ some r)
        × IsValid ctx.local_screen r.0.state
  unfolding on_captured
  on_captured_total clk sent s event queue h =
      let s' : DaemonState = track_key_state s event in
      let h' : IsValid ctx.local_screen s' = track_key_state-IsValid ctx.local_screen s event h in
      elim (Bool-cases (check_emergency_hotkey s' && s'.focus_is_remote)) [
        | inl hot ↦ ((on_emergency clk s', queue), ground arith, on_emergency-IsValid clk s' h')
        | inr cold ↦ elim (Bool-cases s'.focus_is_remote) [
          | inl remote ↦ (
            forward clk sent s' event queue,
            ground arith,
            forward-IsValid clk sent s' event queue h',
          )
          | inr local ↦
              let (o, e, k) = track_local_total s' event h' in ((o, queue), ground arith, k)
        ]
      ]

  -- The two datagram handlers differ in what they do when the edge is hit.
  received_total :
      (clk : Clock) (s : DaemonState) (events : List InputEvent) (hit miss : DaemonState → Outcome)
      → ((s' : DaemonState) → IsValid ctx.local_screen s' → IsValid ctx.local_screen (hit s').state)
      → ((s' : DaemonState)
          → IsValid ctx.local_screen s'
          → IsValid ctx.local_screen (miss s').state)
      → IsValid ctx.local_screen s
      → Ends ctx.local_screen (
          scan_events ctx (in_cooldown clk s) s events >>= λ r.
          some (if r.1 then hit r.0 else miss r.0))
  received_total clk s events hit miss on_hit on_miss h =
      let (x, y, b, e, wx, wy, _) =
        scan_events_total ctx (in_cooldown clk s) s events v h.column h.row in
      let s' : DaemonState = record s { cursor_x = x; cursor_y = y } in
      let h' : IsValid ctx.local_screen s' = moved-IsValid ctx.local_screen s x y wx wy h in
      elim (Bool-cases b) [
        | inl there ↦ (hit s', rw (e, ◌>>=◌, there) refl, on_hit s' h')
        | inr on ↦ (miss s', rw (e, ◌>>=◌, on) refl, on_miss s' h')
      ]

  pub on_datagram_total :
      (clk : Clock) (s : DaemonState) (result : Option EventFrame)
      → IsValid ctx.local_screen s
      → Ends ctx.local_screen (on_datagram ctx clk s result)
  unfolding on_datagram leave_screen
  on_datagram_total clk s none h = (record { state = s; actions = []; flow = stop }, refl, h)
  on_datagram_total clk s (some frame) h = elim (Bool-cases s.focus_is_remote) [
    | inl remote ↦ (record { state = s; actions = []; flow = proceed }, ground arith, h)
    | inr local ↦ simp local (
        received_total clk s frame.events (leave_screen ctx)
          (λ s'. record { state = s'; actions = replay ctx frame.events; flow = proceed })
          (λ s' h'. recenter s' true s'.last_focus_switch h') (λ s' h'. h') h)
  ]

  pub receive_only_datagram_total :
      (clk : Clock) (s : DaemonState) (result : Option EventFrame)
      → IsValid ctx.local_screen s
      → Ends ctx.local_screen (receive_only_datagram ctx clk s result)
  unfolding receive_only_datagram leave_screen_ungrabbed
  receive_only_datagram_total clk s none h =
      (record { state = s; actions = []; flow = stop }, refl, h)
  receive_only_datagram_total clk s (some frame) h = elim (Bool-cases s.focus_is_remote) [
    | inl remote ↦ (record { state = s; actions = []; flow = proceed }, ground arith, h)
    | inr local ↦ simp local (
        received_total clk s frame.events (leave_screen_ungrabbed ctx)
          (λ s'. record { state = s'; actions = replay ctx frame.events; flow = proceed })
          (λ s' h'. recenter s' true s'.last_focus_switch h') (λ s' h'. h') h)
  ]

  pub on_control-IsValid :
      (clk : Clock) (s : DaemonState) (result : Option ControlCommand)
      → IsValid ctx.local_screen s
      → IsValid ctx.local_screen (on_control ctx clk s result).state
  unfolding on_control take_focus
  on_control-IsValid clk s none h = h
  on_control-IsValid clk s (some (switch_focus p)) h = recenter s false clk.instant h
  on_control-IsValid clk s (some release_focus) h = recenter s false clk.instant h
  on_control-IsValid clk s (some _) h = h

  pub receive_only_control-IsValid :
      (s : DaemonState) (result : Option ControlCommand)
      → IsValid ctx.local_screen s
      → IsValid ctx.local_screen (receive_only_control ctx s result).state
  unfolding receive_only_control take_focus_ungrabbed
  receive_only_control-IsValid s none h = h
  receive_only_control-IsValid s (some (switch_focus p)) h = recenter s false s.last_focus_switch h
  receive_only_control-IsValid s (some release_focus) h = recenter s false s.last_focus_switch h
  receive_only_control-IsValid s (some _) h = h
