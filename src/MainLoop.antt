-- ===== src/MainLoop.antt =====
-- crates/kmflow-daemon/src/lib.rs, Daemon::run: the loop that accepts peers and connects to the ones
-- that are asked for, with handle_accepted_peer and handle_initiated_peer. Each session is a task of
-- its own; the loop waits for connect_to, but not for the sessions.
pub mod Trusted
pub mod Waits
use kmflow.Prelude.{Bool, List, Option, [], false, if◌then◌else◌, true, ℕ, ◌+◌, ◌∷◌}
use kmflow.Proto.{Edge, KmflowConfig}
use kmflow.Connection.{ConnectionState}
use kmflow.Tls.{KnownPeers, trust_on_first_use}
use kmflow.Reconnect.{Ending, World, connect_to, session}
use kmflow.Cli.{configured_edge}

-- A task that was spawned: peer_session with a peer of this fingerprint.
pub record Spawned : Type 0 where
  pub fingerprint : List ℕ
  pub edge : Option Edge
  pub is_initiator : Bool

-- `waited` counts the seconds that connect_to has slept.
pub record Main : Type 0 where
  pub state : ConnectionState
  pub known : KnownPeers
  pub sessions : List Spawned
  pub waited : ℕ
  pub stopped : Bool

-- What the select yields, with what surrounds it: an accepted peer comes with the accesses to the file
-- of known peers and the clock, an address with the world of connect_to. `moved` is what the other
-- tasks do to the shared state between two turns.
pub data Wake : Type 0 where
  shutdown : Wake
  accepted : Bool → Bool → ℕ → List ℕ → Wake
  accept_failed : Wake
  asked : World → Wake
  moved : ConnectionState → Wake

abbrev pub total : List ℕ → ℕ
total [] = 0
total (n ∷ ns) = n + total ns

unfoldable pub spawn : KmflowConfig → Bool → List ℕ → Main → Main
unfolding configured_edge
spawn config is_initiator fingerprint m = record m {
  sessions =
      record {
        fingerprint = fingerprint;
        edge = configured_edge config;
        is_initiator = is_initiator;
      }
      ∷ m.sessions;
}

unfoldable pub handle_accepted_peer : KmflowConfig → Bool → Bool → ℕ → List ℕ → Main → Main
unfolding spawn trust_on_first_use
handle_accepted_peer config readable writable now fingerprint m =
    spawn config false fingerprint
      (record m { known = trust_on_first_use readable writable now m.known fingerprint })

-- An error of connect_to is only logged.
unfoldable pub after_connect : KmflowConfig → Ending → Main → Main
unfolding spawn
after_connect config (session fingerprint) m = spawn config true fingerprint m
after_connect config _ m = m

unfoldable pub handle_address : KmflowConfig → World → Main → Main
unfolding after_connect connect_to
handle_address config w m =
    let t = connect_to w m.state m.known in
    after_connect config t.ending
      (record m { state = t.state; known = t.known; waited = m.waited + total t.sleeps })

unfoldable pub on_wake : KmflowConfig → Wake → Main → Main
unfolding handle_accepted_peer handle_address
on_wake config shutdown m = record m { stopped = true }
on_wake config (accepted readable writable now fingerprint) m =
    handle_accepted_peer config readable writable now fingerprint m
on_wake config accept_failed m = m
on_wake config (asked w) m = handle_address config w m
on_wake config (moved s) m = record m { state = s }

-- The loop, until it has seen the shutdown.
unfoldable pub main_run : KmflowConfig → List Wake → Main → Main
unfolding on_wake
main_run config [] m = m
main_run config (wake ∷ wakes) m =
    if m.stopped then m else main_run config wakes (on_wake config wake m)
