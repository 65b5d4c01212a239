-- ===== src/Tests/Peer.antt =====
-- Witnesses of the handshake.
use Prim.Native.String.{String}
use kmflow.Prelude.{Option, [], none, some, true, ◌≡◌, ◌⊎◌}
use kmflow.Prelude.Eq.{string_eq, nat_eq}
use kmflow.Proto.{Edge, default_config}
use kmflow.Cli.{configured_edge, start_config, start_edge}
use kmflow.Daemon.{DaemonState, opposite_edge}
use kmflow.Handshake.{Link, Peers, accept, active_session, initiate, initiator_hello}
use kmflow.Handshake.Agreement.{Joined, ListsPeer, handshake_agrees}
use kmflow.Cli.OneFlag.{LeadsTo, one_flag_is_enough}
use kmflow.Tests.{px, start}

abbrev link : String → Link
link name = record {
  hostname = name;
  remote_addr = "10.0.0.2:4242";
  rtt_ms = px 2;
  screen_text = λ s. "1920x1080 @1x";
}

abbrev desk : Link
desk = link "desk"

abbrev laptop : Link
laptop = link "laptop"

-- Only the laptop, which accepts, knows where the other lies.
handshake_agrees_example :
    let sent = initiator_hello desk start none in
    let (answer, there) = accept (some Edge.left) laptop true start [] (some sent) in
    let here = initiate none desk start [] answer in
    (ei ea : Edge) × (si' sa' : DaemonState) × (pi' pa' : Peers) × (here
      ≡ active_session ei si' pi')
    × (there ≡ active_session ea sa' pa')
    × Joined start start.local_screen si'
    × Joined start start.local_screen sa'
    × ListsPeer desk "laptop" start.local_screen [] pi'
    × ListsPeer laptop "desk" start.local_screen [] pa'
    × (((◌≡◌ {A = Option Edge} none none) ⊎ (◌≡◌ {A = Option Edge} (some Edge.left) none))
        → ei ≡ opposite_edge ea)
handshake_agrees_example = handshake_agrees none (some Edge.left) desk laptop start start [] []

one_flag_is_enough_example :
    LeadsTo desk laptop start start (some Edge.left) none Edge.left Edge.right
    × LeadsTo desk laptop start start none (some Edge.left) Edge.right Edge.left
unfolding opposite_edge configured_edge start_config start_edge default_config
one_flag_is_enough_example = one_flag_is_enough desk laptop start start Edge.left 4242 none none
