-- ===== src/Sessions.antt =====
-- crates/kmflow-daemon/src/lib.rs: the tasks of one daemon that share its state. Sessions begin with
-- a handshake, take turns and end; connect_to asks for the state `Reconnecting` between its
-- attempts. A session whose task panics is left out: see Session/Bounds.
pub mod States
pub mod Alone
use kmflow.Prelude.{Bool, List, [], false, some, ℕ, ◌+◌, ◌-◌, ◌<◌, ◌≡◌}
use kmflow.Prelude.Eq.{string_eq}
use kmflow.HashMap.{insert}
use kmflow.Proto.{Hello, ScreenInfo}
use kmflow.Connection.{reconnecting, transition_to}
use kmflow.Daemon.{DaemonState, initial}
use kmflow.Handshake.{Link, Peers, peer_status, register}
use kmflow.Session.{Action, Clock, SessionContext}
use kmflow.Session.Loop.{Input, Loop, clean_up, step}

-- What the tasks share, and how many sessions run.
pub record Node : Type 0 where
  pub daemon : DaemonState
  pub peers : Peers
  pub running : ℕ

abbrev pub initial_node : ScreenInfo → ℕ → Node
initial_node screen now = record { daemon = initial screen now; peers = []; running = 0 }

-- The end of a handshake: the state and the table of peers that the session starts with.
abbrev pub opened_node : Link → Hello → Node → Node
opened_node link hello n = record {
  daemon = register link hello n.daemon;
  peers = insert hello.hostname (peer_status link hello) n.peers;
  running = n.running + 1;
}

-- A failed attempt of connect_to.
abbrev pub retried_node : Node → Node
retried_node n = record n {
  daemon = record n.daemon {
    connection_state = (transition_to n.daemon.connection_state reconnecting).0;
  };
}

-- The end of a session empties the table, whoever else is in it.
abbrev pub closed_node : Clock → Node → Node
closed_node clk n = record {
  daemon = (clean_up clk n.daemon).0;
  peers = [];
  running = n.running - 1;
}

-- A step of one task. `several` is whether a session may begin, or an attempt fail, while a session
-- runs.
pub data TaskStep (several : Bool) : Node → Node → Type 0 where
  opened :
      {n : Node} (link : Link) (hello : Hello)
      → (several ≡ false → n.running ≡ 0)
      → TaskStep several n (opened_node link hello n)
  retried : {n : Node} → (several ≡ false → n.running ≡ 0) → TaskStep several n (retried_node n)
  turned :
      {n : Node} (ctx : SessionContext) (clk : Clock) (l : Loop) (input : Input)
      (t : Loop × List Action)
      → 0 < n.running
      → l.daemon ≡ n.daemon
      → step ctx clk l input ≡ some t
      → TaskStep several n (record n { daemon = t.0.daemon })
  closed : {n : Node} (clk : Clock) → 0 < n.running → TaskStep several n (closed_node clk n)

pub data TaskSteps (several : Bool) (n : Node) : Node → Type 0 where
  start : TaskSteps several n n
  then_step : {m k : Node} → TaskSteps several n m → TaskStep several m k → TaskSteps several n k
