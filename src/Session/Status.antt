-- ===== src/Session/Status.antt =====
-- lib.rs, peer_session: what a turn of the loop leaves alone.
use kmflow.Connection.{disconnected, transition_to}
use kmflow.Session.Loop.{
  Input, Loop, Mode, arrive, capture_closed, captured, clean_up, clipboard_outgoing,
  clipboard_received, close_capture, conclude, control, datagram, dispatch, ended, flush_at_end,
  main, receive_only, shutdown, step, take_captured,
}
use kmflow.Prelude.{
  Bool, Bool-cases, List, Option, Option-cases, [], arith, false, inl, inr, none, refl, some, suc,
  zero, ℕ, ◌&&◌, ◌>>=◌, ◌∷◌, ◌≡◌,
}
use kmflow.Prelude.F64.{F64}
use kmflow.Proto.{
  ButtonState, ControlCommand, EventFrame, InputEvent, KeyState, ScreenInfo, key, mouse_button,
  mouse_move, scroll,
}
use kmflow.Daemon.{
  DaemonState, center_cursor, check_emergency_hotkey, flush_pressed_keys, next_seq, track_key_state,
}
use kmflow.Session.{Action, Clock, Outcome, SessionContext}
use kmflow.Session.Cursor.{move_cursor, scan_events}
use kmflow.Session.Captured.{drain, forward, leave_screen, on_captured, on_emergency, track_local}
use kmflow.Session.Received.{in_cooldown, on_control, on_datagram, take_focus}
use kmflow.Session.ReceiveOnly.{
  leave_screen_ungrabbed, receive_only_control, receive_only_datagram, take_focus_ungrabbed,
}

-- The state of the connection and the two screens.
abbrev pub Same : DaemonState → DaemonState → Type 0
Same s s' =
    (s'.connection_state ≡ s.connection_state)
    × (s'.remote_screen ≡ s.remote_screen)
    × (s'.local_screen ≡ s.local_screen)

track_key_state-Same : (s : DaemonState) (e : InputEvent) → Same s (track_key_state s e)
unfolding track_key_state
track_key_state-Same s (key c KeyState.pressed) = (refl, refl, refl)
track_key_state-Same s (key c KeyState.released) = (refl, refl, refl)
track_key_state-Same s (mouse_button b ButtonState.pressed) = (refl, refl, refl)
track_key_state-Same s (mouse_button b ButtonState.released) = (refl, refl, refl)
track_key_state-Same s (mouse_move dx dy) = (refl, refl, refl)
track_key_state-Same s (scroll dx dy) = (refl, refl, refl)

drain-Same : (room : ℕ) (s : DaemonState) (queue : List InputEvent) → Same s (drain room s queue).0
unfolding drain
drain-Same zero s queue = (refl, refl, refl)
drain-Same (suc room) s [] = (refl, refl, refl)
drain-Same (suc room) s (e ∷ queue) =
    ground (arith, track_key_state-Same s e, drain-Same room (track_key_state s e) queue)

move_cursor-Same :
    (screen : ScreenInfo) (s : DaemonState) (dx dy : F64) (s' : DaemonState)
    → move_cursor screen s dx dy ≡ some s'
    → Same s s'
unfolding move_cursor
move_cursor-Same screen s dx dy s' h = ground arith

scan_events-Same :
    (ctx : SessionContext) (cooling : Bool) (s : DaemonState) (events : List InputEvent)
    (r : DaemonState × Bool)
    → scan_events ctx cooling s events ≡ some r
    → Same s r.0
unfolding scan_events
scan_events-Same ctx cooling s [] r h = ground arith
scan_events-Same ctx cooling s (mouse_move dx dy ∷ events) r h =
    elim (Option-cases (move_cursor ctx.local_screen s dx dy)) [
      | inl e ↦ ground arith
      | inr (s', e) ↦ ground (
        arith,
        scan_events-Same ctx cooling s' events r,
        move_cursor-Same ctx.local_screen s dx dy s' e,
      )
    ]
scan_events-Same ctx cooling s (mouse_button b p ∷ events) r h =
    scan_events-Same ctx cooling s events r h
scan_events-Same ctx cooling s (scroll dx dy ∷ events) r h =
    scan_events-Same ctx cooling s events r h
scan_events-Same ctx cooling s (key c p ∷ events) r h = scan_events-Same ctx cooling s events r h

track_local-Same :
    (ctx : SessionContext) (s : DaemonState) (event : InputEvent) (o : Outcome)
    → track_local ctx s event ≡ some o
    → Same s o.state
unfolding track_local leave_screen center_cursor
track_local-Same ctx s (mouse_move dx dy) o h =
    elim (Option-cases (move_cursor ctx.local_screen s dx dy)) [
      | inl e ↦ ground arith
      | inr (s', e) ↦ ground (arith, move_cursor-Same ctx.local_screen s dx dy s' e)
    ]
track_local-Same ctx s (mouse_button b p) o h = ground arith
track_local-Same ctx s (scroll dx dy) o h = ground arith
track_local-Same ctx s (key c p) o h = ground arith

on_captured-Same :
    (ctx : SessionContext) (clk : Clock) (sent : Bool) (s : DaemonState) (event : InputEvent)
    (queue : List InputEvent) (r : Outcome × List InputEvent)
    → on_captured ctx clk sent s event queue ≡ some r
    → Same s r.0.state
unfolding on_captured on_emergency next_seq forward
on_captured-Same ctx clk sent s event queue r h =
    let s' : DaemonState = track_key_state s event in
    elim (Bool-cases (check_emergency_hotkey s' && s'.focus_is_remote)) [
      | inl hot ↦ ground (arith, track_key_state-Same s event)
      | inr cold ↦ elim (Bool-cases s'.focus_is_remote) [
        | inl remote ↦ ground (arith, track_key_state-Same s event, drain-Same 63 s' queue)
        | inr local ↦ elim (Option-cases (track_local ctx s' event)) [
          | inl e ↦ ground arith
          | inr (o', e) ↦
              ground (arith, track_key_state-Same s event, track_local-Same ctx s' event o' e)
        ]
      ]
    ]

on_datagram-Same :
    (ctx : SessionContext) (clk : Clock) (s : DaemonState) (result : Option EventFrame)
    (o : Outcome)
    → on_datagram ctx clk s result ≡ some o
    → Same s o.state
unfolding on_datagram leave_screen center_cursor
on_datagram-Same ctx clk s none o h = ground arith
on_datagram-Same ctx clk s (some frame) o h =
    elim (Option-cases (scan_events ctx (in_cooldown clk s) s frame.events)) [
      | inl e ↦ ground arith
      | inr (r, e) ↦ ground (arith, scan_events-Same ctx (in_cooldown clk s) s frame.events r e)
    ]

receive_only_datagram-Same :
    (ctx : SessionContext) (clk : Clock) (s : DaemonState) (result : Option EventFrame)
    (o : Outcome)
    → receive_only_datagram ctx clk s result ≡ some o
    → Same s o.state
unfolding receive_only_datagram leave_screen_ungrabbed center_cursor
receive_only_datagram-Same ctx clk s none o h = ground arith
receive_only_datagram-Same ctx clk s (some frame) o h =
    elim (Option-cases (scan_events ctx (in_cooldown clk s) s frame.events)) [
      | inl e ↦ ground arith
      | inr (r, e) ↦ ground (arith, scan_events-Same ctx (in_cooldown clk s) s frame.events r e)
    ]

on_control-Same :
    (ctx : SessionContext) (clk : Clock) (s : DaemonState) (result : Option ControlCommand)
    → Same s (on_control ctx clk s result).state
unfolding on_control take_focus center_cursor
on_control-Same ctx clk s none = (refl, refl, refl)
on_control-Same ctx clk s (some c) = ground arith

receive_only_control-Same :
    (ctx : SessionContext) (s : DaemonState) (result : Option ControlCommand)
    → Same s (receive_only_control ctx s result).state
unfolding receive_only_control take_focus_ungrabbed center_cursor
receive_only_control-Same ctx s none = (refl, refl, refl)
receive_only_control-Same ctx s (some c) = ground arith

module _ (ctx : SessionContext) (clk : Clock) (l : Loop) where
  captured-Same :
      (sent : Bool) (queue : List InputEvent) (t : Loop × List Action)
      → take_captured ctx clk sent l queue ≡ some t
      → Same l.daemon t.0.daemon
  unfolding take_captured
  captured-Same sent [] t h = ground arith
  captured-Same sent (event ∷ queue) t h =
      elim (Option-cases (on_captured ctx clk sent l.daemon event queue)) [
        | inl e ↦ ground arith
        | inr (r, e) ↦ ground (arith, on_captured-Same ctx clk sent l.daemon event queue r e)
      ]

  concluded-Same :
      (m : Option Outcome) (t : Loop × List Action)
      → ((o : Outcome) → m ≡ some o → Same l.daemon o.state)
      → (m >>= λ o. some (conclude l o)) ≡ some t
      → Same l.daemon t.0.daemon
  concluded-Same none t keeps h = ground arith
  concluded-Same (some o) t keeps h = ground (arith, keeps o)

  close_capture-Same : (queue : List InputEvent) → Same l.daemon (close_capture l queue).daemon
  unfolding close_capture
  close_capture-Same [] = (refl, refl, refl)
  close_capture-Same (e ∷ es) = (refl, refl, refl)

  dispatch-Same :
      (m : Mode) (input : Input) (t : Loop × List Action)
      → dispatch ctx clk l m input ≡ some t
      → Same l.daemon t.0.daemon
  unfolding dispatch
  dispatch-Same main (captured sent) t h = captured-Same sent l.queue t h
  dispatch-Same main capture_closed t h = ground (arith, close_capture-Same l.queue)
  dispatch-Same main (datagram result) t h =
      concluded-Same (on_datagram ctx clk l.daemon result) t
        (on_datagram-Same ctx clk l.daemon result) h
  dispatch-Same main (control result) t h = ground (arith, on_control-Same ctx clk l.daemon result)
  dispatch-Same main (arrive e) t h = ground arith
  dispatch-Same main (clipboard_outgoing payload opened) t h = ground arith
  dispatch-Same main (clipboard_received payload) t h = ground arith
  dispatch-Same main shutdown t h = ground arith
  dispatch-Same receive_only (datagram result) t h =
      concluded-Same (receive_only_datagram ctx clk l.daemon result) t
        (receive_only_datagram-Same ctx clk l.daemon result) h
  dispatch-Same receive_only (control result) t h =
      ground (arith, receive_only_control-Same ctx l.daemon result)
  dispatch-Same receive_only _ t h = ground arith
  dispatch-Same ended input t h = ground arith

  pub step-Same :
      (input : Input) (t : Loop × List Action)
      → step ctx clk l input ≡ some t
      → Same l.daemon t.0.daemon
  unfolding step
  step-Same input t h = dispatch-Same l.mode input t h

flush_at_end-Same :
    (clk : Clock) (s : DaemonState) (es : List InputEvent) → Same s (flush_at_end clk s es).0
unfolding flush_at_end next_seq
flush_at_end-Same clk s [] = (refl, refl, refl)
flush_at_end-Same clk s (e ∷ es) = (refl, refl, refl)

pub clean_up-Same :
    (clk : Clock) (s : DaemonState)
    → let s' = (clean_up clk s).0 in
      (s'.connection_state ≡ (transition_to s.connection_state disconnected).0)
      × (s'.remote_screen ≡ none)
      × (s'.local_screen ≡ s.local_screen)
      × (s'.focus_is_remote ≡ false)
unfolding clean_up
clean_up-Same clk s = elim (Bool-cases s.focus_is_remote) [
  | inl remote ↦ ground (arith, remote, flush_at_end-Same clk s (flush_pressed_keys s))
  | inr local ↦ ground (arith, local)
]
