-- ===== src/Sessions/States.antt =====
-- lib.rs: what the reported state of the connection says of the sessions that run.
use kmflow.Session.Loop.{Input, Loop, clean_up, step}
use kmflow.Proto.{ScreenInfo}
use kmflow.Daemon.{DaemonState, initial}
use kmflow.Handshake.{register}
use kmflow.HashMap.{values}
use kmflow.Ipc.{IpcResponse, Printing, Target, handle_ipc_request, status}
use kmflow.Session.{Action, Clock, SessionContext}
use kmflow.Session.Status.{clean_up-Same, step-Same}
use kmflow.Prelude.{Bool, List, Option, [], ap, arith, refl, some, true, ℕ, ◌+◌, ◌<◌, ◌∙◌, ◌≡◌}
use kmflow.Connection.{
  ConnectionState, active, disconnected, reconnecting, to_string, transition_to,
}
use kmflow.Sessions.{
  Node, TaskStep, TaskSteps, closed, closed_node, initial_node, opened, retried, start, then_step,
  turned,
}

-- Only three of the seven states occur, and two of these only while a session runs.
abbrev pub Truthful : ConnectionState → ℕ → Type 0
Truthful disconnected running = Unit {0}
Truthful active running = 0 < running
Truthful reconnecting running = 0 < running
Truthful _ running = ⊥

opened-Truthful :
    (s : ConnectionState) (r : ℕ) → Truthful s r → Truthful (transition_to s active).0 (r + 1)
unfolding transition_to
opened-Truthful disconnected r h = omega arith
opened-Truthful active r h = omega arith
opened-Truthful reconnecting r h = omega arith
opened-Truthful _ r h = absurd h

retried-Truthful :
    (s : ConnectionState) (r : ℕ) → Truthful s r → Truthful (transition_to s reconnecting).0 r
unfolding transition_to
retried-Truthful disconnected r h = tt
retried-Truthful active r h = h
retried-Truthful reconnecting r h = h
retried-Truthful _ r h = absurd h

closed_disconnects :
    (s : ConnectionState) (r : ℕ) → Truthful s r → (transition_to s disconnected).0 ≡ disconnected
unfolding transition_to
closed_disconnects disconnected r h = refl
closed_disconnects active r h = refl
closed_disconnects reconnecting r h = refl
closed_disconnects _ r h = absurd h

abbrev pub IsTruthful : Node → Type 0
IsTruthful n = Truthful n.daemon.connection_state n.running

pub turned_state :
    (n : Node) (ctx : SessionContext) (clk : Clock) (l : Loop) (input : Input)
    (t : Loop × List Action)
    → l.daemon ≡ n.daemon
    → step ctx clk l input ≡ some t
    → t.0.daemon.connection_state ≡ n.daemon.connection_state
turned_state n ctx clk l input t same e =
    (step-Same ctx clk l input t e).0 ∙ ap (λ (d : DaemonState). d.connection_state) same

TaskStep-IsTruthful :
    {several : Bool} {n m : Node} → TaskStep several n m → IsTruthful n → IsTruthful m
unfolding register
TaskStep-IsTruthful (opened {n} link hello alone) h =
    opened-Truthful n.daemon.connection_state n.running h
TaskStep-IsTruthful (retried {n} alone) h = retried-Truthful n.daemon.connection_state n.running h
TaskStep-IsTruthful (turned {n} ctx clk l input t running same e) h =
    rw (turned_state n ctx clk l input t same e) h
TaskStep-IsTruthful (closed {n} clk running) h =
    rw ((clean_up-Same clk n.daemon).0, closed_disconnects n.daemon.connection_state n.running h) tt

pub TaskSteps-IsTruthful :
    {several : Bool} (screen : ScreenInfo) (now : ℕ) {n : Node}
    → TaskSteps several (initial_node screen now) n
    → IsTruthful n
unfolding initial
TaskSteps-IsTruthful screen now start = tt
TaskSteps-IsTruthful screen now (then_step r s) =
    TaskStep-IsTruthful s (TaskSteps-IsTruthful screen now r)

-- If of several sessions one ends, the daemon reports that it is disconnected and has no peers,
-- while another session still runs.
pub closed_hides_others :
    (printing : Printing) (parse_v6 : List ℕ → Option Target) (is_open : Bool) (screen : ScreenInfo)
    (now : ℕ) {n : Node} (clk : Clock)
    → TaskSteps true (initial_node screen now) n
    → 1 < n.running
    → let m = closed_node clk n in
      TaskSteps true (initial_node screen now) m
      × (0 < m.running)
      × ((handle_ipc_request printing parse_v6 is_open m.daemon.connection_state m.peers
            status).response
          ≡ IpcResponse.status "disconnected" [])
unfolding handle_ipc_request to_string values
closed_hides_others printing parse_v6 is_open screen now {n = n} clk r several =
    let gone : (clean_up clk n.daemon).0.connection_state ≡ disconnected =
      (clean_up-Same clk n.daemon).0
      ∙ closed_disconnects n.daemon.connection_state n.running
          (TaskSteps-IsTruthful screen now r) in
    (then_step r (closed clk (omega arith)), omega arith, rw gone refl)
