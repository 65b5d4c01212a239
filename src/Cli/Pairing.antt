-- ===== src/Cli/Pairing.antt =====
-- main.rs, ipc.rs and lib.rs together: what `kmflow pair` does to the daemon.
use kmflow.Prelude.{List, Option, [], arith, false, none, refl, some, true, ℕ, ◌++◌, ◌<◌, ◌∷◌, ◌≡◌}
use kmflow.Text.{ascii}
use kmflow.Wire.{Codec}
use kmflow.Connection.{ConnectionState}
use kmflow.Handshake.{Peers}
use kmflow.Lan.Private.{dotted}
use kmflow.Ipc.{
  Answer, IpcRequest, IpcResponse, Printing, Target, answer_pair, handle_ipc_request, pair_address,
  parse_socket_addr,
}
use kmflow.Ipc.Addresses.{handle_ipc_request-pair, ipv4_target}
use kmflow.Ipc.Exchange.{Carries, send, send_lem}
use kmflow.Cli.Commands.{Command, out, print_message, run_command}

-- An answer that connects says so.
answer_pair_response :
    (printing : Printing) (addr : List ℕ) (r : Option Target) (t : Target)
    → (answer_pair printing true addr r).connect ≡ some t
    → (answer_pair printing true addr r).response
      ≡ IpcResponse.ok (ascii "connecting to " ++ (printing.show_target t ++ ascii "..."))
unfolding answer_pair
answer_pair_response printing addr none t e = absurd (cc)
answer_pair_response printing addr (some target) t e = cc

module _ (requests : Codec IpcRequest) (responses : Codec IpcResponse) (printing : Printing)
    (parse_v6 : List ℕ → Option Target) (state : ConnectionState) (peers : Peers) where
  -- The daemon of the machine, which still receives addresses to connect to.
  abbrev pub daemon_send : IpcRequest → Option IpcResponse × Option Answer
  daemon_send = send requests responses (handle_ipc_request printing parse_v6 true state peers)

  -- If JSON carries the request and its response: `kmflow pair a.b.c.d` prints that the daemon
  -- connects to port 4242 of that address, and the daemon has been asked to, and to nothing else.
  pub pair_reaches :
      (port a b c d : ℕ)
      → a < 256
      → b < 256
      → c < 256
      → d < 256
      → let request = IpcRequest.pair (dotted a b c d) in
        let answer = handle_ipc_request printing parse_v6 true state peers request in
        Carries requests request
        → Carries responses answer.response
        → (run_command (λ r. (daemon_send r).0) port (Command.pair (dotted a b c d))
            ≡ some (
                out (
                  ascii "connecting to "
                  ++ (printing.show_target (ipv4_target a b c d 4242) ++ ascii "..."))
                ∷ []))
          × ((daemon_send request).1 ≡ some answer)
          × (answer.connect ≡ some (ipv4_target a b c d 4242))
          × (answer.shutdown ≡ false)
  unfolding run_command print_message handle_ipc_request
  pair_reaches port a b c d ha hb hc hd q r =
      let handle = handle_ipc_request printing parse_v6 true state peers in
      let request = IpcRequest.pair (dotted a b c d) in
      let sent = send_lem requests responses handle request q r in
      let (_, _, connects, runs) =
        handle_ipc_request-pair printing parse_v6 state peers a b c d 4242 ha hb hc hd
          (omega arith) in
      let says =
        answer_pair_response printing (dotted a b c d)
          (parse_socket_addr parse_v6 (pair_address (dotted a b c d))) (ipv4_target a b c d 4242)
          connects in
      (rw (sent, says) refl, rw sent refl, connects, runs)
