-- ===== src/Discovery/Listed.antt =====
-- discovery.rs on two machines: who announces itself is listed, and stays listed.
use kmflow.Prelude.{
  All, Bool-cases, List, [], arith, false, inl, inr, length, some, suc, true, zero, ℕ, ◌*◌, ◌+◌,
  ◌<◌, ◌∷◌, ◌≡◌, ◌≢◌, ◌≤◌,
}
use kmflow.Prelude.Eq.{nat_eq}
use kmflow.Text.{bytes_eq}
use kmflow.HashMap.{lookup}
use kmflow.Lan.{LanInfo}
use kmflow.Discovery.{
  DiscoveredPeer, Found, buffer_size, build_announce, hear, hear_if, on_packet, peer_key, peer_ttl,
}
use kmflow.Discovery.Packets.{parse_announce-build_announce}
use kmflow.Discovery.Table.{hear_lists}
use kmflow.Discovery.Hearing.{
  IsHeard, IsHeard-lost, IsHeard-next, Slot, announce_interval, announcements, clean_ups_keep,
  hear_slot, hear_slots,
}

-- What is announced: valid texts that fit the packet, under another name than the hearer's.
pub record IsAnnounced (from_utf8_lossy : List ℕ → List ℕ) (my_hostname hostname : List ℕ)
    (port : ℕ) (fingerprint : List ℕ) : Type 0 where
  pub fingerprint_valid : from_utf8_lossy fingerprint ≡ fingerprint
  pub hostname_valid : from_utf8_lossy hostname ≡ hostname
  pub named : hostname ≢ []
  pub port_fits : port < 65536
  pub fingerprint_fits : length fingerprint < 256
  pub packet_fits : 9 + length fingerprint + length hostname ≤ buffer_size
  pub other_name : hostname ≢ my_hostname

module _ (from_utf8_lossy : List ℕ → List ℕ) (my_hostname : List ℕ) (src_ip : ℕ) (hostname : List ℕ)
    (port : ℕ) (fingerprint : List ℕ)
    (ok : IsAnnounced from_utf8_lossy my_hostname hostname port fingerprint) where
  abbrev packet : List ℕ
  packet = build_announce hostname port fingerprint

  packet_heard :
      (now : ℕ) (peers : Found)
      → on_packet from_utf8_lossy my_hostname now src_ip packet peers
        ≡ hear now src_ip (hostname, port, fingerprint) peers
  unfolding on_packet hear_if
  packet_heard now peers =
      let read =
        parse_announce-build_announce from_utf8_lossy hostname port fingerprint ok.fingerprint_valid
          ok.hostname_valid ok.named ok.port_fits ok.fingerprint_fits ok.packet_fits in
      rw (read, hear_if) (ground (arith, ok.other_name, bytes_eq.beq_iff hostname my_hostname))

  -- A packet that arrives lists its sender, and the clean-ups of its slot keep it.
  delivered_lists :
      (now : ℕ) (slot : Slot) (peers : Found)
      → slot.delivered ≡ true
      → All (λ offset. offset < announce_interval) slot.cleanups
      → (q : DiscoveredPeer) × (lookup
            (peer_key hostname port)
            (hear_slot from_utf8_lossy my_hostname src_ip now packet slot peers)
          ≡ some q)
        × (q.last_seen ≡ now)
  unfolding hear_slot
  delivered_lists now slot peers arrived h =
      let (q, listed, seen, _) = hear_lists now src_ip hostname port fingerprint peers in
      (
        q,
        rw (arrived, packet_heard now peers)
            (clean_ups_keep (peer_key hostname port) now slot.cleanups
              (hear now src_ip (hostname, port, fingerprint) peers).0 q listed h
              (omega (arith, seen))),
        seen,
      )

  lost_keeps :
      (now : ℕ) (slot : Slot) (peers : Found) (p : DiscoveredPeer)
      → slot.delivered ≡ false
      → lookup (peer_key hostname port) peers ≡ some p
      → All (λ offset. offset < announce_interval) slot.cleanups
      → now + announce_interval ≤ p.last_seen + peer_ttl
      → lookup
          (peer_key hostname port)
          (hear_slot from_utf8_lossy my_hostname src_ip now packet slot peers)
        ≡ some p
  unfolding hear_slot
  lost_keeps now slot peers p missed listed h fresh =
      rw missed (clean_ups_keep (peer_key hostname port) now slot.cleanups peers p listed h fresh)

  slots_keep :
      (info : LanInfo) (now rounds lost : ℕ) (slots : List Slot) (peers : Found)
      (p : DiscoveredPeer)
      → lookup (peer_key hostname port) peers ≡ some p
      → p.last_seen ≤ now
      → now ≤ p.last_seen + announce_interval * suc lost
      → lost ≤ 2
      → IsHeard lost slots
      → (q : DiscoveredPeer) × (lookup (peer_key hostname port) (
            hear_slots from_utf8_lossy my_hostname src_ip
              (announcements info true packet now rounds)
              slots
              peers)
          ≡ some q)
  unfolding announcements hear_slots
  slots_keep info now zero lost slots peers p listed past near few h = (p, listed)
  slots_keep info now (suc rounds) lost [] peers p listed past near few h = (p, listed)
  slots_keep info now (suc rounds) lost (slot ∷ slots) peers p listed past near few h =
      let next = now + announce_interval in
      let peers' = hear_slot from_utf8_lossy my_hostname src_ip now packet slot peers in
      elim (Bool-cases slot.delivered) [
        | inl arrived ↦
            let (q, listed', seen) = delivered_lists now slot peers arrived h.0 in
            slots_keep info next rounds 0 slots peers' q listed' (omega (arith, seen))
              (omega (arith, seen)) (omega arith) (IsHeard-next lost slot slots h arrived)
        | inr missed ↦
            let (again, h') = IsHeard-lost lost slot slots h missed in
            slots_keep info next rounds (suc lost) slots peers' p
              (lost_keeps now slot peers p missed listed h.0 (omega arith)) (omega arith)
              (omega arith) (omega arith) h'
      ]

  -- Of a machine that announces itself every 3 seconds, under another name than the hearer's and with
  -- valid texts that fit the packet: once one of its packets arrives, it is listed at the hearer, and
  -- stays listed as long as it announces itself and never more than two announcements in a row are
  -- lost, whenever the hearer cleans up its table.
  pub announced_listed :
      (info : LanInfo) (now rounds : ℕ) (slot : Slot) (slots : List Slot) (peers : Found)
      → slot.delivered ≡ true
      → IsHeard 0 (slot ∷ slots)
      → (q : DiscoveredPeer) × (lookup (peer_key hostname port) (
            hear_slots from_utf8_lossy my_hostname src_ip
              (announcements info true packet now (suc rounds))
              (slot ∷ slots)
              peers)
          ≡ some q)
  unfolding announcements hear_slots
  announced_listed info now rounds slot slots peers arrived h =
      let (q, listed, seen) = delivered_lists now slot peers arrived h.0 in
      slots_keep info (now + announce_interval) rounds 0 slots
        (hear_slot from_utf8_lossy my_hostname src_ip now packet slot peers) q listed
        (omega (arith, seen)) (omega (arith, seen)) (omega arith)
        (IsHeard-next 0 slot slots h arrived)
