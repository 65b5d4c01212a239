-- ===== src/Handshake.antt =====
-- crates/kmflow-daemon/src/lib.rs, peer_session: the handshake on both sides, and the table of peers
-- that the status request lists.
pub mod Agreement
use Prim.Native.String.{String}
use kmflow.Prelude.{Bool, List, Option, if◌then◌else◌, none, some, ℕ}
use kmflow.Prelude.F64.{F64}
use kmflow.Prelude.Eq.{string_eq, nat_eq, ◌==◌}
use kmflow.HashMap.{insert}
use kmflow.Proto.{
  ControlCommand, Edge, Hello, ScreenInfo, handshake, handshake_ack, protocol_version,
}
use kmflow.Connection.{active, transition_to}
use kmflow.Daemon.{DaemonState, opposite_edge}

pub record PeerStatus : Type 0 where
  pub hostname : String
  pub addr : String
  pub state : String
  pub rtt_ms : F64
  pub screen : String

abbrev pub Peers : Type 0
Peers = List (String × PeerStatus)

-- What the session knows of its connection: gethostname(), the address and round-trip time of the
-- peer. `screen_text` is the standard formatting "{w}x{h} @{s}x".
pub record Link : Type 0 where
  pub hostname : String
  pub remote_addr : String
  pub rtt_ms : F64
  pub screen_text : ScreenInfo → String

pub data HandshakeError : Type 0 where
  version_mismatch : ℕ → HandshakeError  -- the remote version
  unexpected : HandshakeError
  failed_io : HandshakeError

pub data Handshake : Type 0 where
  active_session : Edge → DaemonState → Peers → Handshake
  failed : HandshakeError → Handshake

-- The edge of this side: its own configuration, else the opposite of what the peer says.
unfoldable pub target_edge : Option Edge → Option Edge → Edge
target_edge (some e) peer_edge = e
target_edge none (some pe) = opposite_edge pe
target_edge none none = Edge.right

unfoldable pub peer_status : Link → Hello → PeerStatus
peer_status link hello = record {
  hostname = hello.hostname;
  addr = link.remote_addr;
  state = "active";
  rtt_ms = link.rtt_ms;
  screen = link.screen_text hello.screen_info;
}

-- The session becomes active: the remote screen is stored, the transition tried, the peer listed.
unfoldable pub register : Link → Hello → DaemonState → DaemonState
register link hello s = record s {
  remote_screen = some hello.screen_info;
  connection_state = (transition_to s.connection_state active).0;
}

unfoldable pub hello_of : Link → DaemonState → Option Edge → Hello
hello_of link s edge = record {
  protocol_version = protocol_version;
  hostname = link.hostname;
  screen_info = s.local_screen;
  edge = edge;
}

-- What the initiator sends.
unfoldable pub initiator_hello : Link → DaemonState → Option Edge → ControlCommand
initiator_hello link s configured_edge = handshake (hello_of link s configured_edge)

unfoldable pub complete : Option Edge → Link → DaemonState → Peers → Hello → Handshake
complete configured_edge link s peers hello =
    active_session (target_edge configured_edge hello.edge) (register link hello s)
      (insert hello.hostname (peer_status link hello) peers)

-- The initiator on the reply; `none` is a failed send or receive.
unfoldable pub initiate :
    Option Edge → Link → DaemonState → Peers → Option ControlCommand → Handshake
initiate configured_edge link s peers (some (handshake_ack hello)) =
    if hello.protocol_version == protocol_version
    then complete configured_edge link s peers hello
    else failed (version_mismatch hello.protocol_version)
initiate configured_edge link s peers (some _) = failed unexpected
initiate configured_edge link s peers none = failed failed_io

-- The acknowledgement of the acceptor.
unfoldable pub acceptor_ack : Option Edge → Link → DaemonState → Hello → ControlCommand
acceptor_ack configured_edge link s hello =
    handshake_ack (hello_of link s (some (target_edge configured_edge hello.edge)))

-- The acceptor on the first message: what it answers, if anything, and its end; `sent` is whether
-- the answer could be sent.
unfoldable pub accept :
    Option Edge
    → Link
    → Bool
    → DaemonState
    → Peers
    → Option ControlCommand
    → Option ControlCommand × Handshake
accept configured_edge link sent s peers (some (handshake hello)) =
    if hello.protocol_version == protocol_version
    then (
      some (acceptor_ack configured_edge link s hello),
      if sent then complete configured_edge link s peers hello else failed failed_io,
    )
    else (none, failed (version_mismatch hello.protocol_version))
accept configured_edge link sent s peers (some _) = (none, failed unexpected)
accept configured_edge link sent s peers none = (none, failed failed_io)
