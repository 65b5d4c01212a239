-- ===== src/Handshake/Agreement.antt =====
-- lib.rs: what the two ends of a handshake agree on.
use Prim.Native.String.{String}
use kmflow.Connection.{active, transition_to}
use kmflow.Prelude.{Option, arith, none, refl, some, sym, true, ◌≡◌, ◌≢◌, ◌⊎◌}
use kmflow.Prelude.Eq.{string_eq, nat_eq, beq_refl}
use kmflow.HashMap.{insert, lookup, lookup-insert}
use kmflow.Proto.{Edge, Hello, ScreenInfo}
use kmflow.Daemon.{DaemonState, opposite_edge}
use kmflow.Handshake.{
  Link, PeerStatus, Peers, accept, acceptor_ack, active_session, complete, hello_of, initiate,
  initiator_hello, peer_status, register, target_edge,
}

pub opposite_edge-opposite_edge : (e : Edge) → opposite_edge (opposite_edge e) ≡ e
unfolding opposite_edge
opposite_edge-opposite_edge e = ground arith

targets_opposite :
    (ci ca : Option Edge)
    → (ci ≡ none) ⊎ (ca ≡ none)
    → target_edge ci (some (target_edge ca ci)) ≡ opposite_edge (target_edge ca ci)
unfolding target_edge
targets_opposite none none h = refl
targets_opposite none (some e) h = refl
targets_opposite (some e) none h = sym (opposite_edge-opposite_edge e)
targets_opposite (some e) (some e') h = ground arith

-- Of the daemon's state, a handshake sets the peer's screen and asks for the state active.
abbrev pub Joined : DaemonState → ScreenInfo → DaemonState → Type 0
Joined s screen s' = s' ≡ record s {
  remote_screen = some screen;
  connection_state = (transition_to s.connection_state active).0;
}

-- The table lists the peer under its name, at the connection's address and round-trip time, and every
-- other name as before.
abbrev pub ListsPeer : Link → String → ScreenInfo → Peers → Peers → Type 0
ListsPeer link peer screen peers peers' =
    (lookup peer peers'
      ≡ some (record {
        hostname = peer;
        addr = link.remote_addr;
        state = "active";
        rtt_ms = link.rtt_ms;
        screen = link.screen_text screen;
      }))
    × ((other : String) → peer ≢ other → lookup other peers' ≡ lookup other peers)

inserted_found :
    (name : String) (peer : PeerStatus) (peers : Peers)
    → lookup name (insert name peer peers) ≡ some peer
inserted_found name peer peers = ground (arith, lookup-insert name name peer peers, beq_refl name)

inserted_others :
    (name other : String) (peer : PeerStatus) (peers : Peers)
    → name ≢ other
    → lookup other (insert name peer peers) ≡ lookup other peers
inserted_others name other peer peers differs =
    ground (arith, lookup-insert name other peer peers, string_eq.beq_iff name other)

completed :
    (link : Link) (hello : Hello) (s : DaemonState) (peers : Peers)
    → Joined s hello.screen_info (register link hello s)
      × ListsPeer link hello.hostname hello.screen_info peers
          (insert hello.hostname (peer_status link hello) peers)
unfolding register peer_status
completed link hello s peers = (
  refl,
  (
    inserted_found hello.hostname (peer_status link hello) peers,
    λ other differs. inserted_others hello.hostname other (peer_status link hello) peers differs,
  ),
)

-- A whole handshake, in which the initiator's message reaches the acceptor and the acknowledgement
-- comes back: both ends succeed. Of its state, each changes only that it stores the other's screen
-- and asks for the state active; in its table, only that it lists the other under its name, as active,
-- with the address and round-trip time of the connection and the text of the other's screen. Unless
-- both sides configured an edge the two edges are opposite.
pub handshake_agrees :
    (ci ca : Option Edge) (li la : Link) (si sa : DaemonState) (pi pa : Peers)
    → let sent = initiator_hello li si ci in
      let (answer, there) = accept ca la true sa pa (some sent) in
      let here = initiate ci li si pi answer in
      (ei ea : Edge) × (si' sa' : DaemonState) × (pi' pa' : Peers) × (here
        ≡ active_session ei si' pi')
      × (there ≡ active_session ea sa' pa')
      × Joined si sa.local_screen si'
      × Joined sa si.local_screen sa'
      × ListsPeer li la.hostname sa.local_screen pi pi'
      × ListsPeer la li.hostname si.local_screen pa pa'
      × (((ci ≡ none) ⊎ (ca ≡ none)) → ei ≡ opposite_edge ea)
unfolding accept initiate initiator_hello acceptor_ack complete hello_of
handshake_agrees ci ca li la si sa pi pa =
    let edge = target_edge ca ci in
    let at_i = completed li (hello_of la sa (some edge)) si pi in
    let at_a = completed la (hello_of li si ci) sa pa in
    (
      target_edge ci (some edge),
      edge,
      _,
      _,
      _,
      _,
      refl,
      refl,
      at_i.0,
      at_a.0,
      at_i.1,
      at_a.1,
      λ h. targets_opposite ci ca h,
    )
