-- ===== src/Tests.antt =====
-- Concrete data for the tests and for the witnesses in the children.
mod Focus
mod Held
mod Peer
mod Streams
mod Net
mod Devices
mod Server
mod Screen
mod Tasks
mod Hosts
use kmflow.Prelude.{List, Option, arith, none, true, ℕ}
use kmflow.Prelude.Int.{pos}
use kmflow.Prelude.F64.{F64, dyadic}
use kmflow.Proto.{ClipboardPayload, Edge, ScreenInfo}
use kmflow.Edge.Regions.{IsScreen}
use kmflow.Daemon.{DaemonState, initial}
use kmflow.Session.{Clock, SessionContext, session_context}

abbrev pub full_hd : ScreenInfo
full_hd = record {
  width = 1920;
  height = 1080;
  scale_factor = dyadic (pos 1) 0;
  position = record { edge = Edge.right; monitor_id = 0 };
}

pub full_hd-IsScreen : IsScreen full_hd
full_hd-IsScreen = record {
  width_pos = omega arith;
  width_i32 = omega arith;
  height_pos = omega arith;
  height_i32 = omega arith;
}

abbrev pub start : DaemonState
start = initial full_hd 0

abbrev pub no_encoder : ClipboardPayload → Option (List ℕ)
no_encoder payload = none

abbrev pub to_the_right : SessionContext
to_the_right = session_context start Edge.right true no_encoder

abbrev pub px : ℕ → F64
px n = dyadic (pos n) 0

-- One second after the start, and 400 ms after that.
abbrev pub one_second : Clock
one_second = record { instant = 1000000000; now_us = 1000000 }

abbrev pub soon_after : Clock
soon_after = record { instant = 1400000000; now_us = 1400000 }
