-- ===== src/Cli/OneFlag.antt =====
-- main.rs and lib.rs: one machine is started with a flag for an edge, the other without.
use kmflow.Prelude.{Option, [], none, refl, some, true, ℕ, ◌≡◌}
use kmflow.Prelude.F64.{F64}
use kmflow.Proto.{Edge, KmflowConfig, default_config}
use kmflow.Daemon.{DaemonState, opposite_edge}
use kmflow.Handshake.{
  Link, Peers, accept, acceptor_ack, active_session, complete, hello_of, initiate, initiator_hello,
  target_edge,
}
use kmflow.Cli.{configured_edge, start_config, start_edge}
use kmflow.Cli.Start.{configured_edge-start_config, no_sides, only}

-- A handshake of the two ends, with these configured edges, leads to two sessions at these edges.
abbrev pub LeadsTo :
    Link → Link → DaemonState → DaemonState → Option Edge → Option Edge → Edge → Edge → Type 0
LeadsTo li la si sa ci ca ei ea =
    let (answer, there) = accept ca la true sa [] (some (initiator_hello li si ci)) in
    ((s : DaemonState) × (p : Peers) × (initiate ci li si [] answer ≡ active_session ei s p))
    × ((s : DaemonState) × (p : Peers) × (there ≡ active_session ea s p))

flag_here :
    (li la : Link) (si sa : DaemonState) (e : Edge)
    → LeadsTo li la si sa (some e) none e (opposite_edge e)
unfolding accept initiate initiator_hello acceptor_ack complete hello_of target_edge
flag_here li la si sa e = ((_, _, refl), (_, _, refl))

flag_there :
    (li la : Link) (si sa : DaemonState) (e : Edge)
    → LeadsTo li la si sa none (some e) (opposite_edge e) e
unfolding accept initiate initiator_hello acceptor_ack complete hello_of target_edge
flag_there li la si sa e = ((_, _, refl), (_, _, refl))

-- One flag is enough: if one machine starts with one of the four flags and the other with none and
-- without a file, then whichever of them calls the other, the first has its session at the edge of
-- the flag and the other at the opposite edge.
pub one_flag_is_enough :
    (li la : Link) (si sa : DaemonState) (e : Edge) (port : ℕ) (scale : Option F64)
    (file : Option KmflowConfig)
    → let flagged = configured_edge (start_config port (start_edge (only e)) scale file) in
      let plain = configured_edge (start_config port (start_edge no_sides) scale none) in
      LeadsTo li la si sa flagged plain e (opposite_edge e)
      × LeadsTo li la si sa plain flagged (opposite_edge e) e
one_flag_is_enough li la si sa e port scale file =
    let config = configured_edge-start_config port e scale file default_config in
    rw (config.0, config.1) (flag_here li la si sa e, flag_there li la si sa e)
