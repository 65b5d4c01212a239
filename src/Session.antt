-- ===== src/Session.antt =====
-- crates/kmflow-daemon/src/lib.rs, peer_session: what one session with a peer is set up with, and
-- what its handlers do besides changing the daemon's state. The children hold the handlers.
pub mod Cursor
pub mod Captured
pub mod Received
pub mod ReceiveOnly
pub mod Loop
pub mod Bounds
pub mod Forwarding
pub mod Emergency
pub mod Focus
pub mod Frames
pub mod Turns
pub mod Return
pub mod Status
pub mod Oversized
use kmflow.Prelude.{Bool, List, Option, [], if◌then◌else◌, map, ℕ, ◌*◌, ◌∷◌}
use kmflow.Proto.{
  ClipboardPayload, ControlCommand, Edge, EventFrame, InputEvent, ScreenInfo, switch_focus,
}
use kmflow.Edge.{EdgeDetector, new}
use kmflow.Daemon.{DaemonState}

-- What is fixed when the loop begins. The encoder is serde_json's.
pub record SessionContext : Type 0 where
  pub edge_detector : EdgeDetector
  pub local_screen : ScreenInfo
  pub has_emulator : Bool
  pub encode_clipboard : ClipboardPayload → Option (List ℕ)

-- `EdgeDetector::new(local_screen.clone(), target_edge)` over the daemon's screen.
unfoldable pub session_context :
    DaemonState → Edge → Bool → (ClipboardPayload → Option (List ℕ)) → SessionContext
session_context s target_edge has_emulator encode = record {
  edge_detector = new s.local_screen target_edge;
  local_screen = s.local_screen;
  has_emulator = has_emulator;
  encode_clipboard = encode;
}

-- The two clocks at a step: Instant::now() in nanoseconds, and now_us().
pub record Clock : Type 0 where
  pub instant : ℕ
  pub now_us : ℕ

-- EDGE_COOLDOWN, in nanoseconds.
abbrev pub edge_cooldown : ℕ
edge_cooldown = 500 * 1000000

abbrev pub event_batch_limit : ℕ
event_batch_limit = 64

-- The calls that leave the session, in order; their results are ignored unless a handler says so.
pub data Action : Type 0 where
  send_datagram : EventFrame → Action
  send_control : ControlCommand → Action
  set_grab : Bool → Action
  emit : InputEvent → Action
  write_stream : List ℕ → Action
  deliver_clipboard : ClipboardPayload → Action

-- Whether the loop goes on or breaks.
pub data Flow : Type 0 where
  proceed stop : Flow

pub record Outcome : Type 0 where
  pub state : DaemonState
  pub actions : List Action
  pub flow : Flow

-- A frame of releases, unless there is nothing to release.
unfoldable pub release_frame : Clock → ℕ → List InputEvent → List Action
release_frame clk seq [] = []
release_frame clk seq (e ∷ es) =
    send_datagram (record { seq = seq; timestamp_us = clk.now_us; events = e ∷ es }) ∷ []

abbrev pub switch_to_remote : ControlCommand
switch_to_remote = switch_focus "remote"

-- Replay on the local machine, if there is an emulator.
unfoldable pub replay : SessionContext → List InputEvent → List Action
replay ctx events = if ctx.has_emulator then map emit events else []
