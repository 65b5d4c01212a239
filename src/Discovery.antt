-- ===== src/Discovery.antt =====
-- crates/kmflow-net/src/discovery.rs: announce packets, and the table of peers that were heard.
-- Names are the bytes of their UTF-8 text; `String::from_utf8_lossy` is a parameter.
pub mod Packets
pub mod Table
pub mod Hearing
pub mod Listed
use kmflow.Prelude.{
  List, Option, [], drop, if◌then◌else◌, length, ltb, none, some, take, ℕ, ◌%◌, ◌*◌, ◌++◌, ◌+◌, ◌-◌,
  ◌/◌, ◌>>=◌, ◌∷◌,
}
use kmflow.Prelude.Eq.{nat_eq, ◌==◌}
use kmflow.Text.{bytes_eq, ascii, decimal, strip_prefix}
use kmflow.HashMap.{contains_key, insert, retain, update}

abbrev pub magic : List ℕ
magic = ascii "KMFLOW"

-- PEER_TTL in nanoseconds.
abbrev pub peer_ttl : ℕ
peer_ttl = 10 * 1000000000

unfoldable pub build_announce : List ℕ → ℕ → List ℕ → List ℕ
build_announce hostname port fingerprint =
    magic ++ (port / 256 ∷ port % 256 ∷ length fingerprint % 256 ∷ (fingerprint ++ hostname))

unfoldable pub parse_body : (List ℕ → List ℕ) → ℕ → ℕ → List ℕ → Option (List ℕ × ℕ × List ℕ)
parse_body from_utf8_lossy port fp_len body =
    let fingerprint = from_utf8_lossy (take fp_len body) in
    let hostname = from_utf8_lossy (drop fp_len body) in
    if ltb (length body) fp_len
    then none
    else if hostname == []
    then none
    else some (hostname, port, fingerprint)

-- After the magic: the port, the length, and the rest; fewer than three bytes are too few.
unfoldable pub parse_header : (List ℕ → List ℕ) → List ℕ → Option (List ℕ × ℕ × List ℕ)
unfolding parse_body
parse_header from_utf8_lossy (hi ∷ lo ∷ fp_len ∷ body) =
    parse_body from_utf8_lossy (256 * hi + lo) fp_len body
parse_header from_utf8_lossy _ = none

-- A hostname, a port and a fingerprint.
unfoldable pub parse_announce : (List ℕ → List ℕ) → List ℕ → Option (List ℕ × ℕ × List ℕ)
unfolding parse_header
parse_announce from_utf8_lossy packet = do
  rest ← strip_prefix magic packet
  parse_header from_utf8_lossy rest

-- The buffer of the receiver cuts what is longer.
abbrev pub buffer_size : ℕ
buffer_size = 512

pub record SocketAddr : Type 0 where
  pub ip : ℕ
  pub port : ℕ

pub record DiscoveredPeer : Type 0 where
  pub hostname : List ℕ
  pub addr : SocketAddr
  pub fingerprint : List ℕ
  pub last_seen : ℕ  -- an Instant, in nanoseconds

abbrev pub Found : Type 0
Found = List (List ℕ × DiscoveredPeer)

-- `format!("{}:{}", peer_hostname, peer_port)`.
unfoldable pub peer_key : List ℕ → ℕ → List ℕ
peer_key hostname port = hostname ++ b':' ∷ decimal port

-- An announcement: a new peer is entered and its address sent on, a known one is refreshed.
unfoldable pub hear : ℕ → ℕ → List ℕ × ℕ × List ℕ → Found → Found × Option SocketAddr
hear now src_ip (hostname, port, fingerprint) peers =
    let addr : SocketAddr = record { ip = src_ip; port = port } in
    let key = peer_key hostname port in
    if contains_key key peers
    then (update key (λ p. record p { last_seen = now; addr = addr }) peers, none)
    else (
      insert key
          (record { hostname = hostname; addr = addr; fingerprint = fingerprint; last_seen = now })
          peers,
      some addr,
    )

-- A packet, cut to the buffer: nothing comes of one that does not parse, or that is our own.
unfoldable pub hear_if :
    List ℕ → ℕ → ℕ → Option (List ℕ × ℕ × List ℕ) → Found → Found × Option SocketAddr
unfolding hear
hear_if my_hostname now src_ip none peers = (peers, none)
hear_if my_hostname now src_ip (some (hostname, port, fingerprint)) peers =
    if hostname == my_hostname
    then (peers, none)
    else hear now src_ip (hostname, port, fingerprint) peers

unfoldable pub on_packet :
    (List ℕ → List ℕ) → List ℕ → ℕ → ℕ → List ℕ → Found → Found × Option SocketAddr
on_packet from_utf8_lossy my_hostname now src_ip packet peers =
    hear_if my_hostname now src_ip (parse_announce from_utf8_lossy (take buffer_size packet)) peers

-- The clean-up task; `elapsed` stops at 0.
unfoldable pub expire : ℕ → Found → Found
expire now peers = retain (λ p. ltb (now - p.last_seen) peer_ttl) peers
