-- ===== src/Ipc.antt =====
-- crates/kmflow-daemon/src/ipc.rs and handle_ipc_request of crates/kmflow-daemon/src/lib.rs: the
-- requests of the command line tool to the daemon. Texts are bytes.
pub mod Addresses
pub mod Exchange
use Prim.Native.String.{String}
use kmflow.Prelude.{
  Bool, List, Option, [], false, if◌then◌else◌, none, some, true, ℕ, ◌++◌, ◌>>=◌, ◌∷◌,
}
use kmflow.Prelude.Eq.{string_eq, nat_eq, ◌==◌}
use kmflow.Text.{bytes_eq, ascii, before_first, contains_text, decimal, parse_digits}
use kmflow.HashMap.{values}
use kmflow.Proto.{default_port}
use kmflow.Connection.{ConnectionState, to_string}
use kmflow.Handshake.{PeerStatus, Peers}
use kmflow.Lan.{parse_ipv4}
use kmflow.Discovery.{SocketAddr}

pub data IpcRequest : Type 0 where
  status : IpcRequest
  pair : List ℕ → IpcRequest  -- addr
  layout : List ℕ → List ℕ → IpcRequest  -- peer, edge
  stop : IpcRequest
  setup_firewall : IpcRequest

pub data IpcResponse : Type 0 where
  ok : List ℕ → IpcResponse
  error : List ℕ → IpcResponse
  status : String → List PeerStatus → IpcResponse

-- Where to connect: IPv4, or another form that the standard library's parser knows.
pub data Target : Type 0 where
  v4 : SocketAddr → Target
  other : List ℕ → Target

-- What stands behind the first separator, if there is one.
unfoldable pub after_first : ℕ → List ℕ → Option (List ℕ)
after_first sep [] = none
after_first sep (c ∷ chars) =
    let rest = after_first sep chars in if c == sep then some chars else rest

-- The port of an address: digits of a u16, at least one.
unfoldable pub parse_port : List ℕ → Option ℕ
parse_port [] = none
parse_port (c ∷ chars) = parse_digits 65536 0 (c ∷ chars)

unfoldable pub parse_v4 : List ℕ → Option Target
unfolding after_first parse_port
parse_v4 chars = do
  ip ← parse_ipv4 (before_first b':' chars)
  digits ← after_first b':' chars
  port ← parse_port digits
  some (v4 (record { ip = ip; port = port }))

-- `parse::<SocketAddr>`; what is not IPv4 is left to `parse_v6`.
abbrev or_else : {A : Type 0} → Option A → Option A → Option A
or_else none b = b
or_else (some a) b = some a

unfoldable pub parse_socket_addr : (List ℕ → Option Target) → List ℕ → Option Target
unfolding parse_v4
parse_socket_addr parse_v6 chars = or_else (parse_v4 chars) (parse_v6 chars)

-- Without a colon the default port is added.
unfoldable pub pair_address : List ℕ → List ℕ
pair_address addr =
    if contains_text addr (b':' ∷ []) then addr else addr ++ b':' ∷ decimal default_port

-- What the standard library prints for an address, and for the error of its parser.
pub record Printing : Type 0 where
  pub show_target : Target → List ℕ
  pub show_error : List ℕ → List ℕ

pub record Answer : Type 0 where
  pub response : IpcResponse
  pub shutdown : Bool
  pub connect : Option Target

-- `open` is whether the daemon still receives on its channel of addresses.
unfoldable pub answer_pair : Printing → Bool → List ℕ → Option Target → Answer
answer_pair printing is_open addr (some target) =
    if is_open
    then record {
      response = ok (ascii "connecting to " ++ (printing.show_target target ++ ascii "..."));
      shutdown = false;
      connect = some target;
    }
    else record {
      response = error (ascii "daemon channel closed");
      shutdown = false;
      connect = none;
    }
answer_pair printing is_open addr none = record {
  response =
      error (ascii "invalid address '" ++ (addr ++ (ascii "': " ++ printing.show_error addr)));
  shutdown = false;
  connect = none;
}

unfoldable pub handle_ipc_request :
    Printing → (List ℕ → Option Target) → Bool → ConnectionState → Peers → IpcRequest → Answer
unfolding answer_pair
handle_ipc_request printing parse_v6 is_open state peers status = record {
  response = IpcResponse.status (to_string state) (values peers);
  shutdown = false;
  connect = none;
}
handle_ipc_request printing parse_v6 is_open state peers stop = record {
  response = ok (ascii "daemon stopping");
  shutdown = true;
  connect = none;
}
handle_ipc_request printing parse_v6 is_open state peers (pair addr) =
    answer_pair printing is_open addr (parse_socket_addr parse_v6 (pair_address addr))
handle_ipc_request printing parse_v6 is_open state peers (layout peer edge) = record {
  response = ok (ascii "layout set: " ++ (peer ++ (ascii " on " ++ edge)));
  shutdown = false;
  connect = none;
}
handle_ipc_request printing parse_v6 is_open state peers setup_firewall = record {
  response = ok (ascii "use `kmflow setup-firewall` directly");
  shutdown = false;
  connect = none;
}
