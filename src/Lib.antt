-- ===== src/Lib.antt =====
-- kmflow shares one mouse and keyboard between machines of a local network. This library models its
-- own logic: the protocol, the daemon's state, the session with a peer, and what is around it.
--
-- Which file models which part (paths from the repository's root):
--   Proto                 crates/kmflow-proto/src/lib.rs: events, messages, configuration.
--   Edge, Edge/Regions    crates/kmflow-daemon/src/edge.rs: EdgeDetector::check.
--   Connection            crates/kmflow-daemon/src/state.rs: ConnectionState; Connection/Graph holds
--                         its diagram.
--   Wire, Wire/Roundtrip  crates/kmflow-net/src/quic.rs: messages in streams and datagrams;
--                         and the clipboard streams of crates/kmflow-daemon/src/lib.rs.
--   Daemon                crates/kmflow-daemon/src/lib.rs: DaemonState, track_key_state,
--                         check_emergency_hotkey, next_seq, flush_pressed_keys, opposite_edge.
--   Handshake             the same file, peer_session up to the loop, for both ends.
--   Session               the same file, peer_session from the loop on: Captured, Received,
--                         ReceiveOnly and Loop hold the branches of its two select loops and the
--                         clean-up; Bounds, Forwarding, Oversized, Emergency, Focus, Frames, Turns and
--                         Return what is proved of them.
--   Pair, Pair/Safety     two sessions, one on each machine, with the control stream between them.
--   Reconnect             the same lib.rs, connect_to: the attempts to reach a peer and the waiting
--                         between them; Reconnect/Backoff their number and lengths.
--   CaptureLoop           the same lib.rs, run_capture_loop: grabbing and releasing as the focus moves;
--                         and the choice of devices of crates/kmflow-input/src/lib.rs.
--   MainLoop              the same lib.rs, Daemon::run: accepting peers and connecting to addresses;
--                         Trusted and Waits hold what is proved.
--   Sessions              the same lib.rs, the sessions and calls of connect_to as tasks that share
--                         the state; States and Alone what is proved, Session/Status its lemmas.
--   Screen                the same lib.rs, query_screen_info and the parsers of the tools' reports;
--                         Query the order of the sources and Daemon::new's scale override; Sides,
--                         Start, Colours, ScaleLine, ModeLine and Report what is proved.
--   Ipc, Ipc/Addresses    the same lib.rs, handle_ipc_request, and crates/kmflow-daemon/src/ipc.rs;
--                         Ipc/Exchange the lines between client and daemon.
--   Clipboard             crates/kmflow-daemon/src/clipboard.rs: ClipboardManager and start_sync;
--                         Clipboard/Sync holds two machines that exchange their clipboards.
--   Lan, Lan/Private      crates/kmflow-net/src/discovery.rs: find_lan_info, on the output of `ip`.
--   Discovery             crates/kmflow-net/src/discovery.rs: the announcements and the peers found;
--                         Hearing two machines, of which one hears the other; Packets, Table and
--                         Listed hold what is proved.
--   Tls                   crates/kmflow-net/src/tls.rs: fingerprints and the trust on first use;
--                         Tls/KeyFiles the stored identity, and of quic.rs the fingerprint of a peer.
--   Devices               crates/kmflow-input/src/evdev_capture.rs, x11_capture.rs and
--                         evdev_emulate.rs: which entries of /dev/input are opened, and the set-up of
--                         the virtual device; Bits, Own and Chosen hold what is proved.
--   Evdev                 crates/kmflow-input/src/evdev_capture.rs and evdev_emulate.rs: raw events
--                         to input events and back; Motion, RawEvents and Replay hold what is
--                         proved.
--   X11                   crates/kmflow-input/src/x11_capture.rs and x11_emulate.rs: the same for an X
--                         server; Grab adds the requests around a grab; Replay, RawMotion,
--                         Keyboard and Grab hold what is proved.
--   Cli, Cli/Start        crates/kmflow-cli/src/main.rs: from the flags to the configuration and the
--                         requests to the daemon; Cli/OneFlag goes on to the handshake; Cli/Commands
--                         is the other commands and what they print, Cli/Pairing `kmflow pair`
--                         through the socket to the daemon.
--   Text                  what is used of Rust's strings, as lists of bytes or of characters: search,
--                         prefixes, lines, words, decimal and hexadecimal numbers, parse::<f64>.
--   Prelude               lists, Boolean tests, i32 and u32 with their wrap-around, f64 by value;
--                         Prelude/Double adds its rounding, for division and parsing.
--   HashSet, HashMap      the standard collections, as lists without repetition.
--   Tests                 concrete data, runs and examples.
--
-- How the state corresponds: the mutex-guarded DaemonState is passed from step to step. A step of the
-- loop is one branch of a select, with the results of the calls that it makes as its input: whether a
-- datagram could be sent, what was received, the two clocks. A step returns the new state and the
-- list of outside calls in their order, or nothing where the code panics (a clamp with crossed
-- bounds). Arithmetic is that of a release build: i32 and u32 wrap.
--
-- Parameters: serde_json (a codec), SHA-256, the hash of the clipboard manager and its tools, the lossy
-- decoding of UTF-8, the parser and the printing of IPv6 addresses, the system calls and the clocks.
-- Every loop runs over a list, or over the attempts that the source allows. The printing of numbers
-- has fuel: twenty digits, as many as the largest u64 has. The rounding to an f64 searches for the
-- exponent among 1025 and 1022 of them, all that a finite f64 has above and below 1. Pending evdev
-- motion is an f64 that holds whole numbers, which is exact below 2^53, and X11's Fp3232 is read
-- exactly.
--
-- Not modelled: tokio's scheduling beyond the order of steps (each step holds the lock of the state
-- as long as it needs it), the loss of a half-read control message when another branch of the select
-- wins, the set-up of TLS, QUIC, epoll and the X connection, which are calls of their libraries, the
-- parsing of arguments and of config.toml by clap and toml, and the text of log lines.
pub mod CaptureLoop
pub mod Cli
pub mod Clipboard
pub mod Connection
pub mod Daemon
pub mod Devices
pub mod Discovery
pub mod Edge
pub mod Evdev
pub mod Handshake
pub mod HashMap
pub mod HashSet
pub mod Ipc
pub mod Lan
pub mod MainLoop
pub mod Pair
pub mod Prelude
pub mod Proto
pub mod Reconnect
pub mod Screen
pub mod Session
pub mod Sessions
pub mod Tests
pub mod Text
pub mod Tls
pub mod Wire
pub mod X11
