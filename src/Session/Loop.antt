-- ===== src/Session/Loop.antt =====
-- lib.rs, peer_session: the select loop, its inner receive-only loop and the clean-up after them.
use kmflow.Prelude.{Bool, List, Option, [], false, if◌then◌else◌, none, some, ◌++◌, ◌>>=◌, ◌∷◌}
use kmflow.Proto.{ClipboardPayload, ControlCommand, EventFrame, InputEvent}
use kmflow.Connection.{disconnected, transition_to}
use kmflow.Daemon.{DaemonState, flush_pressed_keys, next_seq}
use kmflow.Session.{
  Action, Clock, Flow, Outcome, SessionContext, deliver_clipboard, proceed, release_frame, stop,
}
use kmflow.Session.Captured.{on_captured}
use kmflow.Session.Received.{on_clipboard_outgoing, on_control, on_datagram}
use kmflow.Session.ReceiveOnly.{receive_only_control, receive_only_datagram}

pub data Mode : Type 0 where
  main receive_only ended : Mode

-- `queue` is what the capture channel holds, oldest first.
pub record Loop : Type 0 where
  pub daemon : DaemonState
  pub queue : List InputEvent
  pub mode : Mode

-- What becomes ready, with the results of the calls that its branch makes. `arrive` is a send of
-- the capture thread; `captured` takes the oldest captured event.
pub data Input : Type 0 where
  shutdown : Input
  arrive : InputEvent → Input
  captured : Bool → Input
  capture_closed : Input
  datagram : Option EventFrame → Input
  control : Option ControlCommand → Input
  clipboard_outgoing : ClipboardPayload → Bool → Input
  clipboard_received : ClipboardPayload → Input

abbrev pub after : Mode → Flow → Mode
after m proceed = m
after m stop = ended

abbrev pub conclude : Loop → Outcome → Loop × List Action
conclude l o = (record l { daemon = o.state; mode = after l.mode o.flow }, o.actions)

abbrev pub conclude_captured : Loop → Outcome × List InputEvent → Loop × List Action
conclude_captured l (o, queue) =
    (record { daemon = o.state; queue = queue; mode = after l.mode o.flow }, o.actions)

unfoldable pub take_captured :
    SessionContext → Clock → Bool → Loop → List InputEvent → Option (Loop × List Action)
take_captured ctx clk sent l [] = some (l, [])
take_captured ctx clk sent l (event ∷ queue) = do
  r ← on_captured ctx clk sent l.daemon event queue
  some (conclude_captured l r)

-- `recv` gives `None` only once the channel is closed and empty.
unfoldable pub close_capture : Loop → List InputEvent → Loop
close_capture l [] = record l { mode = receive_only }
close_capture l (_ ∷ _) = l

unfoldable pub dispatch : SessionContext → Clock → Loop → Mode → Input → Option (Loop × List Action)
unfolding take_captured close_capture
dispatch ctx clk l ended input = some (l, [])
dispatch ctx clk l mode shutdown = some (record l { mode = ended }, [])
dispatch ctx clk l mode (clipboard_outgoing payload opened) =
    some (l, on_clipboard_outgoing ctx opened payload)
dispatch ctx clk l mode (clipboard_received payload) = some (l, deliver_clipboard payload ∷ [])
dispatch ctx clk l main (arrive event) = some (record l { queue = l.queue ++ event ∷ [] }, [])
dispatch ctx clk l main (captured sent) = take_captured ctx clk sent l l.queue
dispatch ctx clk l main capture_closed = some (close_capture l l.queue, [])
dispatch ctx clk l main (datagram result) = do
  o ← on_datagram ctx clk l.daemon result
  some (conclude l o)
dispatch ctx clk l main (control result) = some (conclude l (on_control ctx clk l.daemon result))
dispatch ctx clk l receive_only (datagram result) = do
  o ← receive_only_datagram ctx clk l.daemon result
  some (conclude l o)
dispatch ctx clk l receive_only (control result) =
    some (conclude l (receive_only_control ctx l.daemon result))
dispatch ctx clk l receive_only _ = some (l, [])

-- One turn of the loop; `none` is a panic of the session's task.
unfoldable pub step : SessionContext → Clock → Loop → Input → Option (Loop × List Action)
unfolding dispatch
step ctx clk l input = dispatch ctx clk l l.mode input

unfoldable pub run : SessionContext → Loop → List (Clock × Input) → Option (Loop × List Action)
run ctx l [] = some (l, [])
run ctx l ((clk, input) ∷ inputs) = do
  (l', actions) ← step ctx clk l input
  (l'', more) ← run ctx l' inputs
  some (l'', actions ++ more)

-- The number is drawn only for a frame that is sent.
unfoldable pub flush_at_end : Clock → DaemonState → List InputEvent → DaemonState × List Action
flush_at_end clk s [] = (s, [])
flush_at_end clk s (e ∷ es) = let (s', seq) = next_seq s in (s', release_frame clk seq (e ∷ es))

-- The clean-up: release what is held at the peer, then forget the session.
unfoldable pub clean_up : Clock → DaemonState → DaemonState × List Action
unfolding flush_at_end
clean_up clk s =
    let (s', sent) =
      if s.focus_is_remote then flush_at_end clk s (flush_pressed_keys s) else (s, []) in
    (
      record s' {
        connection_state = (transition_to s'.connection_state disconnected).0;
        remote_screen = none;
        focus_is_remote = false;
        pressed_keys = [];
        pressed_buttons = [];
      },
      sent,
    )
