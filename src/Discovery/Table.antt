-- ===== src/Discovery/Table.antt =====
-- discovery.rs: what the table of peers holds over time.
use kmflow.Prelude.{
  Bool, Bool-cases, List, Option, Option-cases, [], arith, false, if◌then◌else◌, inl, inr, ltb,
  lt→ltb, none, refl, some, sym, ℕ, ◌+◌, ◌-◌, ◌<◌, ◌∙◌, ◌∷◌, ◌≡◌, ◌≢◌, ◌≤◌,
}
use kmflow.Prelude.Eq.{nat_eq, beq_refl, ◌==◌}
use kmflow.Text.{bytes_eq, bytes_beq_iff}
use kmflow.HashMap.{
  HasDistinctKeys, contains_key, contains_key-lookup, insert-HasDistinctKeys, lookup, lookup-insert,
  lookup-retain, lookup-retain_distinct, lookup-update, retain-HasDistinctKeys,
  update-HasDistinctKeys,
}
use kmflow.Discovery.{DiscoveredPeer, Found, SocketAddr, expire, hear, peer_key, peer_ttl}

-- What happens to the table, with its time: a peer announces itself, or the clean-up runs.
pub data Event : Type 0 where
  announced : ℕ → List ℕ → ℕ → List ℕ → Event  -- ip, hostname, port, fingerprint
  cleaned : Event

unfoldable pub on_event : ℕ → Event → Found → Found × Option SocketAddr
on_event now (announced ip hostname port fingerprint) peers =
    hear now ip (hostname, port, fingerprint) peers
on_event now cleaned peers = (expire now peers, none)

unfoldable pub events_run : List (ℕ × Event) → Found → Found
events_run [] peers = peers
events_run ((now, event) ∷ events) peers = events_run events (on_event now event peers).0

abbrev pub is_from : List ℕ → Event → Bool
is_from key (announced ip hostname port fingerprint) = peer_key hostname port == key
is_from key cleaned = false

-- Between two announcements of the peer less than the time to live passes, and less before the end.
abbrev pub IsRegular : List ℕ → ℕ → List (ℕ × Event) → Type 0
IsRegular key last [] = Unit {0}
IsRegular key last ((now, event) ∷ events) =
    (last ≤ now)
    × (now < last + peer_ttl)
    × IsRegular key (if is_from key event then now else last) events

module _ (now ip : ℕ) (hostname : List ℕ) (port : ℕ) (fingerprint : List ℕ) (peers : Found) where
  pub hear_lists :
      (p : DiscoveredPeer) × (lookup
          (peer_key hostname port)
          (hear now ip (hostname, port, fingerprint) peers).0
        ≡ some p)
      × (p.last_seen ≡ now)
      × (p.addr ≡ record { ip = ip; port = port })
  unfolding hear
  hear_lists =
      let key : List ℕ = peer_key hostname port in
      let addr : SocketAddr = record { ip = ip; port = port } in
      elim (Bool-cases (contains_key key peers)) [
        | inl known ↦ elim (Option-cases (lookup key peers)) [
          | inl absent ↦ absurd ((contains_key-lookup key peers).0 known absent)
          | inr (p, e) ↦ (
            record p { last_seen = now; addr = addr },
            ground (
              arith,
              known,
              lookup-update key key (λ p. record p { last_seen = now; addr = addr }) peers,
              beq_refl key,
              e,
            ),
            refl,
            refl,
          )
        ]
        | inr new ↦
            let p : DiscoveredPeer = record {
              hostname = hostname;
              addr = addr;
              fingerprint = fingerprint;
              last_seen = now;
            } in
            (p, ground (arith, new, lookup-insert key key p peers, beq_refl key), refl, refl)
      ]

  hear_others :
      (other : List ℕ)
      → other ≢ peer_key hostname port
      → lookup other (hear now ip (hostname, port, fingerprint) peers).0 ≡ lookup other peers
  unfolding hear
  hear_others other differs =
      let key : List ℕ = peer_key hostname port in
      let addr : SocketAddr = record { ip = ip; port = port } in
      let p : DiscoveredPeer = record {
        hostname = hostname;
        addr = addr;
        fingerprint = fingerprint;
        last_seen = now;
      } in
      ground (
        arith,
        differs,
        lookup-update key other (λ p. record p { last_seen = now; addr = addr }) peers,
        lookup-insert key other p peers,
        bytes_beq_iff key other,
      )

-- An announcement is sent on exactly if its peer is not listed; then or else, the peer is listed
-- with the time and address of the announcement, and the others stay as they are.
hear_lem :
    (now ip : ℕ) (hostname : List ℕ) (port : ℕ) (fingerprint : List ℕ) (peers : Found)
    (other : List ℕ)
    → let key = peer_key hostname port in
      let addr : SocketAddr = record { ip = ip; port = port } in
      let (peers', told) = hear now ip (hostname, port, fingerprint) peers in
      (told ≡ (if contains_key key peers then none else some addr))
      × ((p : DiscoveredPeer) × (lookup key peers' ≡ some p)
          × (p.last_seen ≡ now)
          × (p.addr ≡ addr))
      × (other ≢ key → lookup other peers' ≡ lookup other peers)
unfolding hear
hear_lem now ip hostname port fingerprint peers other = (
  ground arith,
  hear_lists now ip hostname port fingerprint peers,
  hear_others now ip hostname port fingerprint peers other,
)

hear-HasDistinctKeys :
    (now ip : ℕ) (hostname : List ℕ) (port : ℕ) (fingerprint : List ℕ) (peers : Found)
    → HasDistinctKeys peers
    → HasDistinctKeys (hear now ip (hostname, port, fingerprint) peers).0
unfolding hear
hear-HasDistinctKeys now ip hostname port fingerprint peers d =
    let key : List ℕ = peer_key hostname port in
    let addr : SocketAddr = record { ip = ip; port = port } in
    let p : DiscoveredPeer = record {
      hostname = hostname;
      addr = addr;
      fingerprint = fingerprint;
      last_seen = now;
    } in
    ground (
      arith,
      update-HasDistinctKeys key (λ p. record p { last_seen = now; addr = addr }) peers d,
      insert-HasDistinctKeys key p peers d,
    )

event_keeps :
    (key : List ℕ) (now : ℕ) (event : Event) (peers : Found) (p : DiscoveredPeer)
    → lookup key peers ≡ some p
    → now < p.last_seen + peer_ttl
    → (q : DiscoveredPeer) × (lookup key (on_event now event peers).0 ≡ some q)
      × (q.last_seen ≡ (if is_from key event then now else p.last_seen))
unfolding on_event expire
event_keeps key now cleaned peers p h fresh = (
  p,
  lookup-retain key p (λ q. ltb (now - q.last_seen) peer_ttl) peers h
      (lt→ltb (now - p.last_seen) peer_ttl (omega arith)),
  refl,
)
event_keeps key now (announced ip hostname port fingerprint) peers p h fresh =
    elim (Bool-cases (peer_key hostname port == key)) [
      | inl ours ↦
          let (q, e, seen, _) = hear_lists now ip hostname port fingerprint peers in
          (
            q,
            cc (e, (bytes_beq_iff (peer_key hostname port) key).0 ours),
            ground (arith, ours, seen),
          )
      | inr other ↦ (
        p,
        hear_others now ip hostname port fingerprint peers key
              (λ e. cc ((bytes_beq_iff (peer_key hostname port) key).1 (sym e)))
            ∙ h,
        ground (arith, other),
      )
    ]

-- A listed peer that goes on announcing itself, with less than the time to live of 10 s between one
-- announcement and the next, stays listed whatever else is heard and however often the clean-up runs.
events_run_keeps :
    (key : List ℕ) (events : List (ℕ × Event)) (peers : Found) (p : DiscoveredPeer)
    → lookup key peers ≡ some p
    → IsRegular key p.last_seen events
    → (q : DiscoveredPeer) × (lookup key (events_run events peers) ≡ some q)
unfolding events_run
events_run_keeps key [] peers p h regular = (p, h)
events_run_keeps key ((now, event) ∷ events) peers p h regular =
    let (q, e, seen) = event_keeps key now event peers p h regular.1 in
    events_run_keeps key events (on_event now event peers).0 q e (rw seen regular.2)

pub events_run-HasDistinctKeys :
    (events : List (ℕ × Event)) (peers : Found)
    → HasDistinctKeys peers
    → HasDistinctKeys (events_run events peers)
unfolding events_run on_event expire
events_run-HasDistinctKeys [] peers d = d
events_run-HasDistinctKeys ((now, event) ∷ events) peers d =
    events_run-HasDistinctKeys events (on_event now event peers).0 (kept event)
  where
    kept : (event : Event) → HasDistinctKeys (on_event now event peers).0
    kept cleaned = retain-HasDistinctKeys (λ p. ltb (now - p.last_seen) peer_ttl) peers d
    kept (announced ip hostname port fingerprint) =
        hear-HasDistinctKeys now ip hostname port fingerprint peers d

-- Whatever happened to an empty table, a clean-up after it drops exactly the entries that were last
-- seen 10 s ago or earlier.
expire-events_run :
    (events : List (ℕ × Event)) (key : List ℕ) (now : ℕ) (p : DiscoveredPeer)
    → let peers = events_run events [] in
      lookup key peers ≡ some p
      → lookup key (expire now peers) ≡ (if ltb (now - p.last_seen) peer_ttl then some p else none)
unfolding expire
expire-events_run events key now p h =
    lookup-retain_distinct key p (λ p. ltb (now - p.last_seen) peer_ttl) (events_run events [])
      (events_run-HasDistinctKeys events [] tt) h
