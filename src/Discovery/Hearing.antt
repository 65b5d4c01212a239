-- ===== src/Discovery/Hearing.antt =====
-- discovery.rs, browse_with_notify on two machines: one sends its announcements, the other hears them,
-- unless they are lost, and cleans up its table.
use kmflow.Prelude.{
  All, Bool, List, [], arith, false, if◌then◌else◌, ltb, lt→ltb, some, suc, true, zero, ℕ, ◌*◌, ◌+◌,
  ◌-◌, ◌<◌, ◌∷◌, ◌≡◌, ◌≤◌,
}
use kmflow.Prelude.Eq.{nat_eq}
use kmflow.Text.{bytes_eq}
use kmflow.HashMap.{lookup, lookup-retain}
use kmflow.Lan.{LanInfo}
use kmflow.Discovery.{DiscoveredPeer, Found, SocketAddr, expire, on_packet, peer_ttl}

abbrev pub discovery_port : ℕ
discovery_port = 4243

-- In nanoseconds.
abbrev pub announce_interval : ℕ
announce_interval = 3 * 1000000000

-- The task that sends, for so many rounds from a time on, if its socket could be bound: when, where to
-- and what. A send that fails is as one that is lost.
unfoldable pub announcements : LanInfo → Bool → List ℕ → ℕ → ℕ → List (ℕ × SocketAddr × List ℕ)
announcements info bound packet now zero = []
announcements info bound packet now (suc rounds) =
    let later = announcements info bound packet (now + announce_interval) rounds in
    if bound
    then (now, record { ip = info.broadcast_addr; port = discovery_port }, packet) ∷ later
    else []

-- What becomes of an announcement, and when the other machine cleans up before the next one.
pub record Slot : Type 0 where
  pub delivered : Bool
  pub cleanups : List ℕ

unfoldable pub clean_ups : ℕ → List ℕ → Found → Found
unfolding expire
clean_ups now [] peers = peers
clean_ups now (offset ∷ offsets) peers = clean_ups now offsets (expire (now + offset) peers)

module _ (from_utf8_lossy : List ℕ → List ℕ) (my_hostname : List ℕ) (src_ip : ℕ) where
  unfoldable pub hear_slot : ℕ → List ℕ → Slot → Found → Found
  unfolding clean_ups on_packet
  hear_slot now packet slot peers = clean_ups now slot.cleanups (
      if slot.delivered
      then (on_packet from_utf8_lossy my_hostname now src_ip packet peers).0
      else peers)

  unfoldable pub hear_slots : List (ℕ × SocketAddr × List ℕ) → List Slot → Found → Found
  unfolding hear_slot
  hear_slots [] slots peers = peers
  hear_slots (a ∷ as_sent) [] peers = peers
  hear_slots ((now, dest, packet) ∷ later) (slot ∷ slots) peers =
      hear_slots later slots (hear_slot now packet slot peers)

-- At most two announcements in a row are lost, so many of them already; the clean-ups of a slot come
-- before the next announcement.
abbrev pub IsHeard : ℕ → List Slot → Type 0
IsHeard lost [] = Unit {0}
IsHeard lost (slot ∷ slots) =
    All (λ offset. offset < announce_interval) slot.cleanups × (elim slot.delivered [
      | true ↦ IsHeard 0 slots
      | false ↦ (lost < 2) × IsHeard (suc lost) slots
    ])

pub clean_ups_keep :
    (key : List ℕ) (now : ℕ) (offsets : List ℕ) (peers : Found) (p : DiscoveredPeer)
    → lookup key peers ≡ some p
    → All (λ offset. offset < announce_interval) offsets
    → now + announce_interval ≤ p.last_seen + peer_ttl
    → lookup key (clean_ups now offsets peers) ≡ some p
unfolding clean_ups expire
clean_ups_keep key now [] peers p e h fresh = e
clean_ups_keep key now (offset ∷ offsets) peers p e h fresh =
    clean_ups_keep key now offsets (expire (now + offset) peers) p
      (lookup-retain key p (λ q. ltb (now + offset - q.last_seen) peer_ttl) peers e
        (lt→ltb (now + offset - p.last_seen) peer_ttl (omega arith)))
      h.1 fresh

pub IsHeard-next :
    (lost : ℕ) (slot : Slot) (slots : List Slot)
    → IsHeard lost (slot ∷ slots)
    → slot.delivered ≡ true
    → IsHeard 0 slots
IsHeard-next lost slot slots (_, h) arrived = go slot.delivered h arrived
  where
    go :
        (b : Bool)
        → (elim b as (λ x. Type 0) [
          | true ↦ IsHeard 0 slots
          | false ↦ (lost < 2) × IsHeard (suc lost) slots
        ])
        → b ≡ true
        → IsHeard 0 slots
    go true h e = h
    go false h e = absurd (cc e)

pub IsHeard-lost :
    (lost : ℕ) (slot : Slot) (slots : List Slot)
    → IsHeard lost (slot ∷ slots)
    → slot.delivered ≡ false
    → (lost < 2) × IsHeard (suc lost) slots
IsHeard-lost lost slot slots (_, h) missed = go slot.delivered h missed
  where
    go :
        (b : Bool)
        → (elim b as (λ x. Type 0) [
          | true ↦ IsHeard 0 slots
          | false ↦ (lost < 2) × IsHeard (suc lost) slots
        ])
        → b ≡ false
        → (lost < 2) × IsHeard (suc lost) slots
    go true h e = absurd (cc e)
    go false h e = h
