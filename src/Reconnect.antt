-- ===== src/Reconnect.antt =====
-- crates/kmflow-daemon/src/lib.rs, Daemon::connect_to: attempts to reach a peer, with a growing delay
-- between them.
pub mod Backoff
pub mod Busy
use kmflow.Prelude.{Bool, List, [], false, if◌then◌else◌, min, suc, true, zero, ℕ, ◌*◌, ◌==◌, ◌∷◌}
use kmflow.Connection.{ConnectionState, active, reconnecting, transition_to}
use kmflow.Tls.{KnownPeers, trust_on_first_use}

-- RECONNECT_BASE_DELAY, RECONNECT_MAX_DELAY (in seconds) and RECONNECT_MAX_ATTEMPTS.
abbrev pub reconnect_base_delay : ℕ
reconnect_base_delay = 1

abbrev pub reconnect_max_delay : ℕ
reconnect_max_delay = 30

abbrev pub reconnect_max_attempts : ℕ
reconnect_max_attempts = 10

-- What an attempt gives: the fingerprint of the peer that answered, or an error.
pub data Attempt : Type 0 where
  answered : List ℕ → Attempt
  refused : ℕ → Attempt

-- How a call ends: nothing to do, a session with a peer, or the error of the last attempt.
pub data Ending : Type 0 where
  skipped : Ending
  session : List ℕ → Ending
  gave_up : ℕ → Ending
  unreachable : Ending

-- What surrounds a call: the attempts by number; what other tasks make of the connection state while
-- a call sleeps; the clock and the file of known peers, by attempt.
pub record World : Type 0 where
  pub connect : ℕ → Attempt
  pub others : ℕ → ConnectionState → ConnectionState
  pub now_us : ℕ → ℕ
  pub readable : Bool
  pub writable : Bool

pub record Trace : Type 0 where
  pub ending : Ending
  pub sleeps : List ℕ
  pub state : ConnectionState
  pub known : KnownPeers

-- `left` attempts, the next of which has the number `attempt`.
unfoldable pub attempts : World → ℕ → ℕ → ℕ → ConnectionState → KnownPeers → Trace
attempts w zero attempt delay s known = record {
  ending = unreachable;
  sleeps = [];
  state = s;
  known = known;
}
attempts w (suc left) attempt delay s known =
    let again =
      attempts w left (suc attempt) (min (delay * 2) reconnect_max_delay)
        (w.others attempt (transition_to s reconnecting).0) known in
    elim (w.connect attempt) [
      | answered fingerprint ↦ record {
        ending = session fingerprint;
        sleeps = [];
        state = s;
        known = trust_on_first_use w.readable w.writable (w.now_us attempt) known fingerprint;
      }
      | refused e ↦
          if attempt == reconnect_max_attempts
          then record { ending = gave_up e; sleeps = []; state = s; known = known }
          else record again { sleeps = delay ∷ again.sleeps }
    ]

abbrev is_active : ConnectionState → Bool
is_active active = true
is_active _ = false

unfoldable pub connect_to : World → ConnectionState → KnownPeers → Trace
unfolding attempts
connect_to w s known =
    if is_active s
    then record { ending = skipped; sleeps = []; state = s; known = known }
    else attempts w reconnect_max_attempts 1 reconnect_base_delay s known
