-- ===== src/Sessions/Alone.antt =====
-- lib.rs: with one session at a time, a daemon is a switch between idle and one peer.
use Prim.Native.String.{String}
use kmflow.Prelude.{[], ℕ, ◌∷◌, ◌≡◌}
use kmflow.Prelude.Eq.{string_eq}
use kmflow.Connection.{ConnectionState, active, disconnected}
use kmflow.Handshake.{PeerStatus, Peers}
use kmflow.Ipc.{IpcResponse, status}
use kmflow.Sessions.{Node}

-- What a user sees: nobody, or one peer under its name.
pub data View : Type 0 where
  idle : View
  with_peer : String → PeerStatus → View

pub data ViewStep : View → View → Type 0 where
  meet : (name : String) (p : PeerStatus) → ViewStep idle (with_peer name p)
  stay : (v : View) → ViewStep v v
  part : (name : String) (p : PeerStatus) → ViewStep (with_peer name p) idle

pub data ViewSteps (v : View) : View → Type 0 where
  first : ViewSteps v v
  then_view : {w u : View} → ViewSteps v w → ViewStep w u → ViewSteps v u

-- What a status request is to be answered.
abbrev pub report_of : View → IpcResponse
report_of idle = IpcResponse.status "disconnected" []
report_of (with_peer name p) = IpcResponse.status "active" (p ∷ [])

-- How the daemon represents a view.
pub record Shows (n : Node) (state : ConnectionState) (peers : Peers) (running : ℕ) : Type 0 where
  pub in_state : n.daemon.connection_state ≡ state
  pub lists : n.peers ≡ peers
  pub runs : n.running ≡ running

abbrev pub Represents : Node → View → Type 0
Represents n idle = Shows n disconnected [] 0
Represents n (with_peer name p) = Shows n active ((name, p) ∷ []) 1
