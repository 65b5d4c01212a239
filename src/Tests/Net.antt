-- ===== src/Tests/Net.antt =====
-- Witnesses of discovery and of the attempts to connect.
use kmflow.Prelude.{
  List, [], arith, drop, false, if◌then◌else◌, ltb, none, refl, some, take, true, ℕ, ◌+◌, ◌<◌, ◌∷◌,
  ◌≡◌, ◌≤◌, ◌⊎◌,
}
use kmflow.Prelude.Eq.{nat_eq}
use kmflow.Text.{bytes_eq, ascii, bytes_beq, decimal}
use kmflow.HashMap.{contains_key, insert, lookup, retain}
use kmflow.Connection.{disconnected}
use kmflow.Tls.{trust_on_first_use}
use kmflow.Discovery.{
  DiscoveredPeer, buffer_size, build_announce, expire, hear, parse_announce, peer_key,
}
use kmflow.Discovery.Packets.{parse_announce-build_announce}
use kmflow.Lan.{LanInfo}
use kmflow.Discovery.Hearing.{Slot, announcements, hear_slots}
use kmflow.Discovery.Listed.{IsAnnounced, announced_listed}
use kmflow.Discovery.Table.{Event, announced, cleaned, events_run, on_event}
use kmflow.Reconnect.{Attempt, World, answered, attempts, connect_to, gave_up, refused, session}
use kmflow.Reconnect.Backoff.{Refused, connect_to_lem, delays}

abbrev utf8 : List ℕ → List ℕ
utf8 chars = chars

parse_announce-build_announce_example :
    parse_announce utf8 (take buffer_size (build_announce (ascii "desk") 4242 (ascii "ab:cd")))
    ≡ some (ascii "desk", 4242, ascii "ab:cd")
parse_announce-build_announce_example =
    parse_announce-build_announce utf8 (ascii "desk") 4242 (ascii "ab:cd") refl refl (λ e. cc)
      (omega arith) (omega arith) (omega arith)

abbrev seen : ℕ → DiscoveredPeer
seen now = record {
  hostname = ascii "desk";
  addr = record { ip = 3232235522; port = 4242 };
  fingerprint = ascii "ab";
  last_seen = now;
}

-- An announcement after three seconds, and a clean-up at ten.
abbrev day : List (ℕ × Event)
day =
    (3000000000, announced 3232235522 (ascii "desk") 4242 (ascii "ab"))
    ∷ (10000000000, cleaned)
    ∷ []

-- Two packets are lost, with a clean-up just before the one after them.
abbrev slots : List Slot
slots =
    record { delivered = true; cleanups = 2999999999 ∷ [] }
    ∷ record { delivered = false; cleanups = [] }
    ∷ record { delivered = false; cleanups = 1 ∷ 2999999999 ∷ [] }
    ∷ record { delivered = true; cleanups = [] }
    ∷ []

abbrev network : LanInfo
network = record { local_addr = 3232235522; broadcast_addr = 3232235775 }

desk-IsAnnounced : IsAnnounced utf8 (ascii "laptop") (ascii "desk") 4242 (ascii "ab")
desk-IsAnnounced = record {
  fingerprint_valid = refl;
  hostname_valid = refl;
  named = λ e. cc e;
  port_fits = omega arith;
  fingerprint_fits = omega arith;
  packet_fits = omega arith;
  other_name = λ e. cc e;
}

announced_listed_example :
    (q : DiscoveredPeer) × (lookup (peer_key (ascii "desk") 4242) (
        hear_slots utf8
          (ascii "laptop")
          3232235522
          (announcements network true (build_announce (ascii "desk") 4242 (ascii "ab")) 0 4)
          slots
          [])
      ≡ some q)
announced_listed_example =
    announced_listed utf8 (ascii "laptop") 3232235522 (ascii "desk") 4242 (ascii "ab")
      desk-IsAnnounced network 0 3 (record { delivered = true; cleanups = 2999999999 ∷ [] })
      (drop 1 slots) [] refl (omega arith)

heard_once : lookup (peer_key (ascii "desk") 4242) (events_run day []) ≡ some (seen 3000000000)
unfolding lookup events_run on_event hear expire retain insert contains_key bytes_beq peer_key
    decimal
heard_once = refl

-- The third attempt is answered.
abbrev third : ℕ → Attempt
third k = if ltb k 3 then refused 111 else answered (ascii "ab")

abbrev world : World
world = record {
  connect = third;
  others = λ k s. s;
  now_us = λ k. k;
  readable = true;
  writable = true;
}

connect_to_lem_example :
    let t = connect_to world disconnected none in
    ((n : ℕ) × (fingerprint : List ℕ) × (n < 10)
      × ((k : ℕ) → 1 ≤ k → k ≤ n → Refused world k)
      × (third (1 + n) ≡ answered fingerprint)
      × (t.ending ≡ session fingerprint)
      × (t.sleeps ≡ take n delays)
      × (t.known ≡ trust_on_first_use true true (1 + n) none fingerprint))
    ⊎ ((e : ℕ) × ((k : ℕ) → 1 ≤ k → k < 10 → Refused world k)
        × (third 10 ≡ refused e)
        × (t.ending ≡ gave_up e)
        × (t.sleeps ≡ delays)
        × (t.known ≡ none))
connect_to_lem_example = connect_to_lem world disconnected none (λ e. cc)

three_attempts : (connect_to world disconnected none).sleeps ≡ 1 ∷ 2 ∷ []
unfolding connect_to attempts
three_attempts = refl
