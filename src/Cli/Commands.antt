-- ===== src/Cli/Commands.antt =====
-- crates/kmflow-cli/src/main.rs: the commands but `start`, and what they print.
use kmflow.Prelude.{List, Option, [], length, map, replicate, some, ℕ, ◌++◌, ◌-◌, ◌>>=◌, ◌∷◌}
use kmflow.Prelude.Double.{double_as_u32, of_f64}
use kmflow.Text.{ascii, decimal}
use kmflow.Handshake.{PeerStatus}
use kmflow.Ipc.{IpcRequest, IpcResponse}
use kmflow.Cli.{layout_request}

pub data Command : Type 0 where
  stop : Command
  pair : List ℕ → Command
  layout : Option (List ℕ) → Option (List ℕ) → Option (List ℕ) → Option (List ℕ) → Command
  status : Command
  setup_firewall : Command

-- A line to the standard output or to the standard error.
pub data Printed : Type 0 where
  out : List ℕ → Printed
  err : List ℕ → Printed

abbrev pub error_line : List ℕ → Printed
error_line message = err (ascii "Error: " ++ message)

-- Of `stop`, `pair` and `layout`.
unfoldable pub print_message : IpcResponse → List Printed
print_message (IpcResponse.ok message) = out message ∷ []
print_message (IpcResponse.error message) = error_line message ∷ []
print_message (IpcResponse.status state peers) = []

-- `{:<n}`.
unfoldable pub pad_right : ℕ → List ℕ → List ℕ
pad_right n cell = cell ++ replicate (n - length cell) 32

unfoldable pub table_row : List ℕ → List ℕ → List ℕ → List ℕ → List ℕ → List ℕ
unfolding pad_right
table_row hostname addr state rtt screen =
    pad_right 16 hostname
    ++ 32
      ∷ (pad_right 18 addr ++ 32 ∷ (pad_right 12 state ++ 32 ∷ (pad_right 8 rtt ++ 32 ∷ screen)))

-- The texts of an entry, as characters.
unfoldable pub print_peer : PeerStatus → Printed
unfolding table_row double_as_u32 of_f64
print_peer p = out (
    table_row (ascii p.hostname) (ascii p.addr) (ascii p.state)
      (decimal (double_as_u32 (of_f64 p.rtt_ms)) ++ ascii "ms") (ascii p.screen))

unfoldable pub print_peers : List PeerStatus → List Printed
unfolding print_peer table_row
print_peers [] = out (ascii "No peers connected") ∷ []
print_peers (p ∷ peers) =
    out (
      table_row (ascii "HOSTNAME") (ascii "ADDRESS") (ascii "STATE") (ascii "RTT") (ascii "SCREEN"))
    ∷ map print_peer (p ∷ peers)

unfoldable pub print_status : IpcResponse → List Printed
unfolding print_peers
print_status (IpcResponse.status state peers) =
    out (ascii "State: " ++ ascii state) ∷ print_peers peers
print_status (IpcResponse.error message) =
    error_line message ∷ err (ascii "Is the daemon running? Try: kmflow start") ∷ []
print_status (IpcResponse.ok message) = []

unfoldable pub firewall_rules : ℕ → List Printed
unfolding decimal
firewall_rules port =
    out (ascii "# KMFlow firewall rules")
    ∷ out (ascii "# Run the appropriate command for your system:\n")
    ∷ out (ascii "# UFW (Ubuntu/Debian):")
    ∷ out (ascii "sudo ufw allow " ++ (decimal port ++ ascii "/udp comment 'KMFlow QUIC'\n"))
    ∷ out (ascii "# firewalld (Fedora/RHEL):")
    ∷ out (ascii "sudo firewall-cmd --permanent --add-port=" ++ (decimal port ++ ascii "/udp"))
    ∷ out (ascii "sudo firewall-cmd --reload\n")
    ∷ out (ascii "# iptables:")
    ∷ out (ascii "sudo iptables -A INPUT -p udp --dport " ++ (decimal port ++ ascii " -j ACCEPT"))
    ∷ []

-- A command over the client's `send`; `none` is an error that ends the program.
unfoldable pub run_command : (IpcRequest → Option IpcResponse) → ℕ → Command → Option (List Printed)
unfolding print_message print_status firewall_rules layout_request
run_command send port stop = do response ← send IpcRequest.stop; some (print_message response)
run_command send port (pair addr) = do
  response ← send (IpcRequest.pair addr)
  some (print_message response)
run_command send port (layout to_right to_left to_top to_bottom) = do
  (peer, edge) ← layout_request to_right to_left to_top to_bottom
  response ← send (IpcRequest.layout peer (ascii edge))
  some (print_message response)
run_command send port status = do response ← send IpcRequest.status; some (print_status response)
run_command send port setup_firewall = some (firewall_rules port)
