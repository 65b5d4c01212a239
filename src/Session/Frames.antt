-- ===== src/Session/Frames.antt =====
-- lib.rs, peer_session: what becomes of the events of one received frame.
use kmflow.Prelude.{
  List, Option-cases, [], arith, false, inl, inr, map, refl, some, true, ◌∷◌, ◌≡◌, ◌⊎◌,
}
use kmflow.Proto.{EventFrame, InputEvent}
use kmflow.Daemon.{DaemonState, center_cursor}
use kmflow.Session.{Action, Clock, Outcome, SessionContext, emit, replay}
use kmflow.Session.Cursor.{scan_events}
use kmflow.Session.Captured.{leave_screen}
use kmflow.Session.Received.{in_cooldown, on_datagram}
use kmflow.Session.Focus.{scan_events_focus}

-- What the actions replay on the local machine.
abbrev pub replayed : List Action → List InputEvent
replayed [] = []
replayed (emit e ∷ actions) = e ∷ replayed actions
replayed (_ ∷ actions) = replayed actions

replayed-emits : (events : List InputEvent) → replayed (map emit events) ≡ events
replayed-emits [] = refl
replayed-emits (e ∷ events) = rw (replayed-emits events) refl

-- With an emulator and the focus here, a received frame is replayed whole or not at all: whole if the
-- focus stays here, and if it goes to the peer not even the events that come before the motion to
-- the edge, nor the releases that come after it.
pub on_datagram_all_or_nothing :
    (ctx : SessionContext) (clk : Clock) (s : DaemonState) (frame : EventFrame) (o : Outcome)
    → ctx.has_emulator ≡ true
    → s.focus_is_remote ≡ false
    → on_datagram ctx clk s (some frame) ≡ some o
    → ((o.state.focus_is_remote ≡ false) × (replayed o.actions ≡ frame.events))
      ⊎ ((o.state.focus_is_remote ≡ true) × (replayed o.actions ≡ []))
unfolding on_datagram leave_screen center_cursor replay
on_datagram_all_or_nothing ctx clk s frame o emulator local h =
    elim (Option-cases (scan_events ctx (in_cooldown clk s) s frame.events)) [
      | inl e ↦ ground arith
      | inr (r, e) ↦ ground (
        arith,
        scan_events_focus ctx (in_cooldown clk s) s frame.events r e,
        replayed-emits frame.events,
      )
    ]
