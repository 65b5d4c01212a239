-- ===== src/Tests/Tasks.antt =====
-- Runs of the tasks of a daemon, and of the command line against its socket, with a codec for the
-- messages that they exchange.
use Prim.Native.String.{String}
use kmflow.Lan.{parse_ipv4}
use kmflow.Text.{ascii, before_first, bytes_beq, contains_text, decimal, parse_digits}
use kmflow.Prelude.{
  Bool, List, Option, [], arith, false, none, refl, some, true, ℕ, ◌++◌, ◌<◌, ◌∷◌, ◌≡◌,
}
use kmflow.Prelude.Eq.{nat_eq, string_eq}
use kmflow.Text.{bytes_eq, ascii, before_first, bytes_beq, contains_text, decimal, parse_digits}
use kmflow.Text.Words.{is_whitespace, trim, trim_end_if, trim_start}
use kmflow.Lan.Private.{dotted}
use kmflow.Wire.{Codec}
use kmflow.Proto.{Hello}
use kmflow.Connection.{disconnected}
use kmflow.Handshake.{Link}
use kmflow.Ipc.{
  Answer, IpcRequest, IpcResponse, Printing, Target, handle_ipc_request, pair_address,
  parse_socket_addr,
}
use kmflow.Ipc.Addresses.{ipv4_target}
use kmflow.Ipc.Exchange.{Carries}
use kmflow.Cli.Commands.{Command, out, run_command}
use kmflow.Cli.Pairing.{daemon_send, pair_reaches}
use kmflow.Sessions.{Node, TaskSteps, closed_node, initial_node, opened, opened_node, then_step}
use kmflow.Sessions.States.{closed_hides_others}
use kmflow.Tests.{full_hd, one_second, px}

abbrev desk : Link
desk = record {
  hostname = "desk";
  remote_addr = "10.0.0.2:4242";
  rtt_ms = px 2;
  screen_text = λ s. "1920x1080 @1x";
}

abbrev named : String → Hello
named hostname = record {
  protocol_version = 1;
  hostname = hostname;
  screen_info = full_hd;
  edge = none;
}

abbrev one_peer : Node
one_peer = opened_node desk (named "laptop") (initial_node full_hd 0)

abbrev two_peers : Node
two_peers = opened_node desk (named "tower") one_peer

one_peer_steps : (several : Bool) → TaskSteps several (initial_node full_hd 0) one_peer
one_peer_steps several = then_step TaskSteps.start (opened desk (named "laptop") (λ e. refl))

two_peers_steps : TaskSteps true (initial_node full_hd 0) two_peers
two_peers_steps = then_step (one_peer_steps true) (opened desk (named "tower") (λ e. cc e))

abbrev silent : Printing
silent = record { show_target = λ t. []; show_error = λ chars. [] }

abbrev no_v6 : List ℕ → Option Target
no_v6 chars = none

closed_hides_others_example :
    let m = closed_node one_second two_peers in
    TaskSteps true (initial_node full_hd 0) m
    × (0 < m.running)
    × ((handle_ipc_request silent no_v6 true m.daemon.connection_state m.peers
          IpcRequest.status).response
        ≡ IpcResponse.status "disconnected" [])
closed_hides_others_example =
    closed_hides_others silent no_v6 true full_hd 0 one_second two_peers_steps (omega arith)

-- The address of a pair request, or the message of a response, on its line.
abbrev encode_request : IpcRequest → Option (List ℕ)
encode_request (IpcRequest.pair addr) = some addr
encode_request _ = none

abbrev encode_response : IpcResponse → Option (List ℕ)
encode_response (IpcResponse.ok message) = some message
encode_response _ = none

abbrev requests : Codec IpcRequest
requests = record { encode = encode_request; decode = λ line. some (IpcRequest.pair (trim line)) }

abbrev responses : Codec IpcResponse
responses = record { encode = encode_response; decode = λ line. some (IpcResponse.ok (trim line)) }

abbrev asked : IpcRequest
asked = IpcRequest.pair (dotted 10 0 0 7)

abbrev answered : Answer
answered = handle_ipc_request silent no_v6 true disconnected [] asked

asked-Carries : Carries requests asked
unfolding trim trim_start trim_end_if is_whitespace decimal
asked-Carries = record {
  line = dotted 10 0 0 7;
  writes = refl;
  one_line = omega arith;
  reads = refl;
}

answered-Carries : Carries responses answered.response
unfolding trim trim_start trim_end_if is_whitespace decimal handle_ipc_request parse_socket_addr
    parse_ipv4 before_first pair_address contains_text bytes_beq parse_digits
answered-Carries = record {
  line = ascii "connecting to ...";
  writes = refl;
  one_line = omega arith;
  reads = refl;
}

pair_reaches_example :
    (run_command
        (λ r. (daemon_send requests responses silent no_v6 disconnected [] r).0)
        4242
        (Command.pair (dotted 10 0 0 7))
      ≡ some (
          out (
            ascii "connecting to "
            ++ (silent.show_target (ipv4_target 10 0 0 7 4242) ++ ascii "..."))
          ∷ []))
    × ((daemon_send requests responses silent no_v6 disconnected [] asked).1 ≡ some answered)
    × (answered.connect ≡ some (ipv4_target 10 0 0 7 4242))
    × (answered.shutdown ≡ false)
pair_reaches_example =
    pair_reaches requests responses silent no_v6 disconnected [] 4242 10 0 0 7 (omega arith)
      (omega arith) (omega arith) (omega arith) asked-Carries answered-Carries
