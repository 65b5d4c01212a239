-- ===== src/Session/ReceiveOnly.antt =====
-- lib.rs, the inner loop that a session runs once its capture channel is closed: no grab, and no
-- cooldown is started.
use kmflow.Prelude.{Option, [], false, if◌then◌else◌, none, some, true, ◌>>=◌, ◌∷◌}
use kmflow.Proto.{
  ControlCommand, EventFrame, peer_disconnecting, ping, pong, release_focus, switch_focus,
}
use kmflow.Daemon.{DaemonState, center_cursor}
use kmflow.Session.{
  Clock, Outcome, SessionContext, proceed, replay, send_control, stop, switch_to_remote,
}
use kmflow.Session.Cursor.{scan_events}
use kmflow.Session.Received.{in_cooldown}

unfoldable pub leave_screen_ungrabbed : SessionContext → DaemonState → Outcome
leave_screen_ungrabbed ctx s = record {
  state = center_cursor ctx.local_screen (record s { focus_is_remote = true });
  actions = send_control switch_to_remote ∷ [];
  flow = proceed;
}

unfoldable pub receive_only_datagram :
    SessionContext → Clock → DaemonState → Option EventFrame → Option Outcome
receive_only_datagram ctx clk s none = some (record { state = s; actions = []; flow = stop })
receive_only_datagram ctx clk s (some frame) =
    if s.focus_is_remote then some (record { state = s; actions = []; flow = proceed }) else (do
      (s', hit_edge) ← scan_events ctx (in_cooldown clk s) s frame.events
      some (
          if hit_edge
          then leave_screen_ungrabbed ctx s'
          else record { state = s'; actions = replay ctx frame.events; flow = proceed }))

unfoldable pub take_focus_ungrabbed : SessionContext → DaemonState → Outcome
take_focus_ungrabbed ctx s = record {
  state = center_cursor ctx.local_screen (record s { focus_is_remote = false });
  actions = [];
  flow = proceed;
}

unfoldable pub receive_only_control : SessionContext → DaemonState → Option ControlCommand → Outcome
receive_only_control ctx s none = record { state = s; actions = []; flow = stop }
receive_only_control ctx s (some (switch_focus to_peer)) = take_focus_ungrabbed ctx s
receive_only_control ctx s (some release_focus) = take_focus_ungrabbed ctx s
receive_only_control ctx s (some peer_disconnecting) = record {
  state = s;
  actions = [];
  flow = stop;
}
receive_only_control ctx s (some (ping timestamp_us)) = record {
  state = s;
  actions = send_control (pong timestamp_us) ∷ [];
  flow = proceed;
}
receive_only_control ctx s (some _) = record { state = s; actions = []; flow = proceed }
