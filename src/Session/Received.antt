-- ===== src/Session/Received.antt =====
-- lib.rs, the branches of the main loop that receive a datagram or a control message from the peer.
use kmflow.Prelude.{Bool, List, Option, [], false, if◌then◌else◌, ltb, none, some, ◌-◌, ◌>>=◌, ◌∷◌}
use kmflow.Wire.{clipboard_stream}
use kmflow.Proto.{
  ClipboardPayload, ControlCommand, EventFrame, peer_disconnecting, ping, pong, release_focus,
  switch_focus,
}
use kmflow.Daemon.{DaemonState, center_cursor}
use kmflow.Session.{
  Action, Clock, Outcome, SessionContext, edge_cooldown, proceed, replay, send_control, set_grab,
  stop, write_stream,
}
use kmflow.Session.Cursor.{scan_events}
use kmflow.Session.Captured.{leave_screen}

-- `last_focus_switch.elapsed() < EDGE_COOLDOWN`; `elapsed` stops at 0.
unfoldable pub in_cooldown : Clock → DaemonState → Bool
in_cooldown clk s = ltb (clk.instant - s.last_focus_switch) edge_cooldown

-- A frame that does not bring the cursor to the edge is replayed; one that does is dropped, and the
-- focus goes back to the peer. A failed receive ends the loop.
unfoldable pub on_datagram :
    SessionContext → Clock → DaemonState → Option EventFrame → Option Outcome
on_datagram ctx clk s none = some (record { state = s; actions = []; flow = stop })
on_datagram ctx clk s (some frame) =
    if s.focus_is_remote then some (record { state = s; actions = []; flow = proceed }) else (do
      (s', hit_edge) ← scan_events ctx (in_cooldown clk s) s frame.events
      some (
          if hit_edge
          then leave_screen ctx s'
          else record { state = s'; actions = replay ctx frame.events; flow = proceed }))

-- The peer hands the focus over, or gives it back.
unfoldable pub take_focus : SessionContext → Clock → DaemonState → Outcome
take_focus ctx clk s = record {
  state =
      center_cursor ctx.local_screen
        (record s { focus_is_remote = false; last_focus_switch = clk.instant });
  actions = set_grab false ∷ [];
  flow = proceed;
}

unfoldable pub on_control : SessionContext → Clock → DaemonState → Option ControlCommand → Outcome
on_control ctx clk s none = record { state = s; actions = []; flow = stop }
on_control ctx clk s (some (switch_focus to_peer)) = take_focus ctx clk s
on_control ctx clk s (some release_focus) = take_focus ctx clk s
on_control ctx clk s (some peer_disconnecting) = record { state = s; actions = []; flow = stop }
on_control ctx clk s (some (ping timestamp_us)) = record {
  state = s;
  actions = send_control (pong timestamp_us) ∷ [];
  flow = proceed;
}
on_control ctx clk s (some _) = record { state = s; actions = []; flow = proceed }

-- A payload of the local clipboard: a stream of its own, if it encodes and the stream opens.
unfoldable pub on_clipboard_outgoing : SessionContext → Bool → ClipboardPayload → List Action
on_clipboard_outgoing ctx opened payload = elim (ctx.encode_clipboard payload) [
  | none ↦ []
  | some bytes ↦ if opened then write_stream (clipboard_stream bytes) ∷ [] else []
]
