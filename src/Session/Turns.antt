-- ===== src/Session/Turns.antt =====
-- lib.rs, peer_session: what holds of every turn of the loop, whatever the input.
use kmflow.Session.ReceiveOnly.{receive_only_datagram}
use kmflow.Prelude.{
  Bool, List, Option, Option-cases, [], ap, arith, false, inl, inr, refl, some, sym, true, ◌>>=◌,
  ◌∙◌, ◌∷◌, ◌≡◌,
}
use kmflow.Proto.{ClipboardPayload, EventFrame, InputEvent}
use kmflow.Session.{Action, Clock, SessionContext}
use kmflow.Session.Captured.{on_captured}
use kmflow.Session.Received.{on_clipboard_outgoing, on_datagram}
use kmflow.Session.Loop.{
  Input, Loop, Mode, arrive, capture_closed, captured, clipboard_outgoing, clipboard_received,
  close_capture, conclude, control, datagram, dispatch, ended, main, receive_only, shutdown, step,
  take_captured,
}
use kmflow.Session.Focus.{
  FocusMove, grab_after, on_captured-FocusMove, on_control-FocusMove, on_datagram-FocusMove,
  receive_only_control-FocusMove, receive_only_datagram-FocusMove,
}

still : (f : Bool) → FocusMove f f []
still true = ground arith
still false = ground arith

clipboard_actions :
    (ctx : SessionContext) (opened : Bool) (payload : ClipboardPayload) (f : Bool)
    → FocusMove f f (on_clipboard_outgoing ctx opened payload)
      × (grab_after f (on_clipboard_outgoing ctx opened payload) ≡ f)
unfolding on_clipboard_outgoing
clipboard_actions ctx opened payload f = ground arith

module _ (ctx : SessionContext) (clk : Clock) (l : Loop) where
  captured-FocusMove :
      (sent : Bool) (queue : List InputEvent) (t : Loop × List Action)
      → take_captured ctx clk sent l queue ≡ some t
      → FocusMove l.daemon.focus_is_remote t.0.daemon.focus_is_remote t.1
        × (grab_after l.daemon.focus_is_remote t.1 ≡ t.0.daemon.focus_is_remote)
  unfolding take_captured
  captured-FocusMove sent [] t h = ground (arith, still l.daemon.focus_is_remote)
  captured-FocusMove sent (event ∷ queue) t h =
      elim (Option-cases (on_captured ctx clk sent l.daemon event queue)) [
        | inl e ↦ ground arith
        | inr ((o, left_over), e) ↦
            ground (arith, on_captured-FocusMove ctx clk sent l.daemon event queue o left_over e)
      ]

  datagram-FocusMove :
      (result : Option EventFrame) (t : Loop × List Action)
      → (on_datagram ctx clk l.daemon result >>= λ o. some (conclude l o)) ≡ some t
      → FocusMove l.daemon.focus_is_remote t.0.daemon.focus_is_remote t.1
        × (grab_after l.daemon.focus_is_remote t.1 ≡ t.0.daemon.focus_is_remote)
  datagram-FocusMove result t h = elim (Option-cases (on_datagram ctx clk l.daemon result)) [
    | inl e ↦ ground arith
    | inr (o, e) ↦ ground (arith, on_datagram-FocusMove ctx clk l.daemon result o e)
  ]

  receive_only_datagram_turn :
      (result : Option EventFrame) (t : Loop × List Action)
      → (receive_only_datagram ctx clk l.daemon result >>= λ o. some (conclude l o)) ≡ some t
      → FocusMove l.daemon.focus_is_remote t.0.daemon.focus_is_remote t.1
  receive_only_datagram_turn result t h =
      elim (Option-cases (receive_only_datagram ctx clk l.daemon result)) [
        | inl e ↦ ground arith
        | inr (o, e) ↦ ground (arith, receive_only_datagram-FocusMove ctx clk l.daemon result o e)
      ]

  closed_focus : (queue : List InputEvent) → (close_capture l queue).daemon ≡ l.daemon
  unfolding close_capture
  closed_focus [] = refl
  closed_focus (e ∷ es) = refl

  main_turn :
      (input : Input) (t : Loop × List Action)
      → dispatch ctx clk l main input ≡ some t
      → FocusMove l.daemon.focus_is_remote t.0.daemon.focus_is_remote t.1
        × (grab_after l.daemon.focus_is_remote t.1 ≡ t.0.daemon.focus_is_remote)
  unfolding dispatch
  main_turn shutdown t h = ground (arith, still l.daemon.focus_is_remote)
  main_turn (arrive event) t h = ground (arith, still l.daemon.focus_is_remote)
  main_turn (captured sent) t h = captured-FocusMove sent l.queue t h
  main_turn capture_closed t h =
      ground (arith, still l.daemon.focus_is_remote, closed_focus l.queue)
  main_turn (datagram result) t h = datagram-FocusMove result t h
  main_turn (control result) t h = ground (arith, on_control-FocusMove ctx clk l.daemon result)
  main_turn (clipboard_outgoing payload opened) t h =
      ground (arith, clipboard_actions ctx opened payload l.daemon.focus_is_remote)
  main_turn (clipboard_received payload) t h = ground arith

  receive_only_turn :
      (input : Input) (t : Loop × List Action)
      → dispatch ctx clk l receive_only input ≡ some t
      → FocusMove l.daemon.focus_is_remote t.0.daemon.focus_is_remote t.1
  unfolding dispatch
  receive_only_turn (datagram result) t h = receive_only_datagram_turn result t h
  receive_only_turn (control result) t h =
      ground (arith, receive_only_control-FocusMove ctx l.daemon result)
  receive_only_turn (clipboard_outgoing payload opened) t h =
      ground (arith, clipboard_actions ctx opened payload l.daemon.focus_is_remote)
  receive_only_turn (clipboard_received payload) t h = ground arith
  receive_only_turn _ t h = ground (arith, still l.daemon.focus_is_remote)

  ended_turn :
      (input : Input) (t : Loop × List Action)
      → dispatch ctx clk l ended input ≡ some t
      → FocusMove l.daemon.focus_is_remote t.0.daemon.focus_is_remote t.1
  unfolding dispatch
  ended_turn input t h = ground (arith, still l.daemon.focus_is_remote)

  turn_in :
      (m : Mode) (input : Input) (t : Loop × List Action)
      → dispatch ctx clk l m input ≡ some t
      → FocusMove l.daemon.focus_is_remote t.0.daemon.focus_is_remote t.1
  turn_in main input t h = (main_turn input t h).0
  turn_in receive_only input t h = receive_only_turn input t h
  turn_in ended input t h = ended_turn input t h

  -- In either loop: the peer is told of its focus exactly when the focus goes from here to there, and
  -- then once; events are replayed here only while the focus is local, and sent there only while it
  -- is remote.
  pub step-FocusMove :
      (input : Input) (t : Loop × List Action)
      → step ctx clk l input ≡ some t
      → FocusMove l.daemon.focus_is_remote t.0.daemon.focus_is_remote t.1
  unfolding step
  step-FocusMove input t h = turn_in l.mode input t h

  -- In the main loop the grab follows the focus: if the pointer was grabbed exactly when the focus
  -- was remote, then so it is after the turn.
  pub step_grab :
      (input : Input) (t : Loop × List Action)
      → l.mode ≡ main
      → step ctx clk l input ≡ some t
      → grab_after l.daemon.focus_is_remote t.1 ≡ t.0.daemon.focus_is_remote
  unfolding step
  step_grab input t m h =
      (main_turn input t (sym (ap (λ (k : Mode). dispatch ctx clk l k input) m) ∙ h)).1
