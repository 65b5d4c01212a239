-- ===== src/Session/Focus.antt =====
-- lib.rs, peer_session: how a turn of the loop moves the focus, and what it does outside.
use kmflow.Prelude.F64.{F64}
use kmflow.Session.Forwarding.{drain_lem, track_all_focus}
use kmflow.Prelude.Machine.{two32}
use kmflow.Session.Bounds.{track_key_state_cursor}
use kmflow.Session.Received.{in_cooldown, on_control, on_datagram, take_focus}
use kmflow.Session.ReceiveOnly.{
  leave_screen_ungrabbed, receive_only_control, receive_only_datagram, take_focus_ungrabbed,
}
use kmflow.Prelude.{
  Bool, Bool-cases, List, Option, Option-cases, [], ap, arith, false, if◌then◌else◌, inl, inr, map,
  none, not, refl, some, true, ℕ, ◌%◌, ◌&&◌, ◌++◌, ◌+◌, ◌∙◌, ◌∷◌, ◌≡◌,
}
use kmflow.Proto.{
  ControlCommand, EventFrame, InputEvent, ScreenInfo, key, mouse_button, mouse_move, release_focus,
  scroll, switch_focus,
}
use kmflow.Daemon.{
  DaemonState, center_cursor, check_emergency_hotkey, flush_pressed_keys, next_seq, track_key_state,
}
use kmflow.Session.{
  Action, Clock, Outcome, SessionContext, emit, release_frame, replay, send_control, send_datagram,
  set_grab,
}
use kmflow.Session.Cursor.{move_cursor, scan_events}
use kmflow.Session.Captured.{drain, forward, leave_screen, on_captured, on_emergency, track_local}

-- Whether something is replayed here, and whether input events are sent to the peer.
abbrev pub replays : List Action → Bool
replays [] = false
replays (emit _ ∷ _) = true
replays (_ ∷ actions) = replays actions

abbrev pub forwards : List Action → Bool
forwards [] = false
forwards (send_datagram _ ∷ _) = true
forwards (_ ∷ actions) = forwards actions

abbrev pub is_switch : ControlCommand → Bool
is_switch (switch_focus _) = true
is_switch _ = false

-- How often the peer is told that it has the focus.
abbrev pub switches : List Action → ℕ
switches [] = 0
switches (send_control cmd ∷ actions) = (if is_switch cmd then 1 else 0) + switches actions
switches (_ ∷ actions) = switches actions

-- The grab that the capture thread is asked for in the end.
abbrev pub grab_after : Bool → List Action → Bool
grab_after g [] = g
grab_after g (set_grab g' ∷ actions) = grab_after g' actions
grab_after g (_ ∷ actions) = grab_after g actions

-- What a turn that takes the focus from `f` to `f'` does outside.
pub record FocusMove (f f' : Bool) (actions : List Action) : Type 0 where
  pub told : switches actions ≡ (if not f && f' then 1 else 0)
  pub replayed_here : replays actions ≡ true → f ≡ false
  pub sent_there : forwards actions ≡ true → f ≡ true

replay_moves :
    (ctx : SessionContext) (events : List InputEvent)
    → (switches (replay ctx events) ≡ 0)
      × (forwards (replay ctx events) ≡ false)
      × ((g : Bool) → grab_after g (replay ctx events) ≡ g)
unfolding replay
replay_moves ctx events = elim (Bool-cases ctx.has_emulator) [
  | inl there ↦ rw there (emits events)
  | inr no_emulator ↦ rw no_emulator (refl, refl, λ g. refl)
]
  where
    emits :
        (es : List InputEvent)
        → (switches (map emit es) ≡ 0)
          × (forwards (map emit es) ≡ false)
          × ((g : Bool) → grab_after g (map emit es) ≡ g)
    emits [] = (refl, refl, λ g. refl)
    emits (e ∷ es) = emits es

track_local-FocusMove :
    (ctx : SessionContext) (s : DaemonState) (event : InputEvent) (o : Outcome)
    → s.focus_is_remote ≡ false
    → track_local ctx s event ≡ some o
    → FocusMove false o.state.focus_is_remote o.actions
      × (grab_after false o.actions ≡ o.state.focus_is_remote)
unfolding track_local leave_screen center_cursor move_cursor
track_local-FocusMove ctx s (mouse_move dx dy) o f h = ground arith
track_local-FocusMove ctx s _ o f h = ground arith

forward_focus :
    (clk : Clock) (sent : Bool) (s : DaemonState) (event : InputEvent) (queue : List InputEvent)
    → (forward clk sent s event queue).0.state.focus_is_remote ≡ s.focus_is_remote
unfolding forward next_seq
forward_focus clk sent s event queue =
    let (_, _, tracked) = drain_lem 63 s queue in
    ap (λ (x : DaemonState). x.focus_is_remote) tracked ∙ (track_all_focus s (drain 63 s queue).1).0

forward_actions :
    (clk : Clock) (sent : Bool) (s : DaemonState) (event : InputEvent) (queue : List InputEvent)
    → let actions = (forward clk sent s event queue).0.actions in
      (switches actions ≡ 0) × (replays actions ≡ false) × (grab_after true actions ≡ true)
unfolding forward
forward_actions clk sent s event queue = (refl, refl, refl)

released_actions :
    (clk : Clock) (seq : ℕ) (releases : List InputEvent)
    → let actions =
        set_grab false ∷ (release_frame clk seq releases ++ send_control release_focus ∷ []) in
      (switches actions ≡ 0) × (replays actions ≡ false) × (grab_after true actions ≡ false)
unfolding release_frame
released_actions clk seq [] = (refl, refl, refl)
released_actions clk seq (e ∷ es) = (refl, refl, refl)

emergency_actions :
    (clk : Clock) (s : DaemonState)
    → let o = on_emergency clk s in
      (switches o.actions ≡ 0)
      × (replays o.actions ≡ false)
      × (grab_after true o.actions ≡ false)
      × (o.state.focus_is_remote ≡ false)
unfolding on_emergency next_seq
emergency_actions clk s =
    let (a, b, c) =
      released_actions clk ((s.seq_counter + 1) % two32)
        (flush_pressed_keys (record s { focus_is_remote = false })) in
    (a, b, c, refl)

move_cursor_focus :
    (screen : ScreenInfo) (s : DaemonState) (dx dy : F64) (s' : DaemonState)
    → move_cursor screen s dx dy ≡ some s'
    → s'.focus_is_remote ≡ s.focus_is_remote
unfolding move_cursor
move_cursor_focus screen s dx dy s' h = ground arith

pub scan_events_focus :
    (ctx : SessionContext) (cooling : Bool) (s : DaemonState) (events : List InputEvent)
    (r : DaemonState × Bool)
    → scan_events ctx cooling s events ≡ some r
    → r.0.focus_is_remote ≡ s.focus_is_remote
unfolding scan_events
scan_events_focus ctx cooling s [] r h = ground arith
scan_events_focus ctx cooling s (mouse_move dx dy ∷ events) r h =
    elim (Option-cases (move_cursor ctx.local_screen s dx dy)) [
      | inl e ↦ ground arith
      | inr (s', e) ↦ ground (
        arith,
        scan_events_focus ctx cooling s' events r,
        move_cursor_focus ctx.local_screen s dx dy s' e,
      )
    ]
scan_events_focus ctx cooling s (mouse_button b p ∷ events) r h =
    scan_events_focus ctx cooling s events r h
scan_events_focus ctx cooling s (scroll dx dy ∷ events) r h =
    scan_events_focus ctx cooling s events r h
scan_events_focus ctx cooling s (key c p ∷ events) r h = scan_events_focus ctx cooling s events r h

pub on_captured-FocusMove :
    (ctx : SessionContext) (clk : Clock) (sent : Bool) (s : DaemonState) (event : InputEvent)
    (queue : List InputEvent) (o : Outcome) (left_over : List InputEvent)
    → on_captured ctx clk sent s event queue ≡ some (o, left_over)
    → FocusMove s.focus_is_remote o.state.focus_is_remote o.actions
      × (grab_after s.focus_is_remote o.actions ≡ o.state.focus_is_remote)
unfolding on_captured on_emergency
on_captured-FocusMove ctx clk sent s event queue o left_over h =
    let s' : DaemonState = track_key_state s event in
    let (_, _, _, focus) = track_key_state_cursor s event in
    elim (Bool-cases (check_emergency_hotkey s' && s'.focus_is_remote)) [
      | inl hot ↦ ground (arith, emergency_actions clk s', focus)
      | inr cold ↦ elim (Bool-cases s'.focus_is_remote) [
        | inl remote ↦ ground (
          arith,
          focus,
          forward_focus clk sent s' event queue,
          forward_actions clk sent s' event queue,
        )
        | inr local ↦ elim (Option-cases (track_local ctx s' event)) [
          | inl e ↦ ground arith
          | inr (o', e) ↦ ground (arith, focus, track_local-FocusMove ctx s' event o' local e)
        ]
      ]
    ]

pub on_datagram-FocusMove :
    (ctx : SessionContext) (clk : Clock) (s : DaemonState) (result : Option EventFrame)
    (o : Outcome)
    → on_datagram ctx clk s result ≡ some o
    → FocusMove s.focus_is_remote o.state.focus_is_remote o.actions
      × (grab_after s.focus_is_remote o.actions ≡ o.state.focus_is_remote)
unfolding on_datagram leave_screen center_cursor
on_datagram-FocusMove ctx clk s none o h = ground arith
on_datagram-FocusMove ctx clk s (some frame) o h =
    elim (Option-cases (scan_events ctx (in_cooldown clk s) s frame.events)) [
      | inl e ↦ ground arith
      | inr (r, e) ↦ ground (
        arith,
        scan_events_focus ctx (in_cooldown clk s) s frame.events r e,
        replay_moves ctx frame.events,
        (replay_moves ctx frame.events).2 s.focus_is_remote,
      )
    ]

pub on_control-FocusMove :
    (ctx : SessionContext) (clk : Clock) (s : DaemonState) (result : Option ControlCommand)
    → let o = on_control ctx clk s result in
      FocusMove s.focus_is_remote o.state.focus_is_remote o.actions
      × (grab_after s.focus_is_remote o.actions ≡ o.state.focus_is_remote)
unfolding on_control take_focus center_cursor
on_control-FocusMove ctx clk s none = ground arith
on_control-FocusMove ctx clk s (some c) = ground arith

pub receive_only_datagram-FocusMove :
    (ctx : SessionContext) (clk : Clock) (s : DaemonState) (result : Option EventFrame)
    (o : Outcome)
    → receive_only_datagram ctx clk s result ≡ some o
    → FocusMove s.focus_is_remote o.state.focus_is_remote o.actions
unfolding receive_only_datagram leave_screen_ungrabbed center_cursor
receive_only_datagram-FocusMove ctx clk s none o h = ground arith
receive_only_datagram-FocusMove ctx clk s (some frame) o h =
    elim (Option-cases (scan_events ctx (in_cooldown clk s) s frame.events)) [
      | inl e ↦ ground arith
      | inr (r, e) ↦ ground (
        arith,
        scan_events_focus ctx (in_cooldown clk s) s frame.events r e,
        replay_moves ctx frame.events,
      )
    ]

pub receive_only_control-FocusMove :
    (ctx : SessionContext) (s : DaemonState) (result : Option ControlCommand)
    → let o = receive_only_control ctx s result in
      FocusMove s.focus_is_remote o.state.focus_is_remote o.actions
unfolding receive_only_control take_focus_ungrabbed center_cursor
receive_only_control-FocusMove ctx s none = ground arith
receive_only_control-FocusMove ctx s (some c) = ground arith
