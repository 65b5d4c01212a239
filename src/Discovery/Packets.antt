-- ===== src/Discovery/Packets.antt =====
-- discovery.rs: an announcement is read back as it was built.
use kmflow.Prelude.{
  All, List, [], ap, arith, drop, length, length-append, refl, some, suc, take, zero, ℕ, ◌%◌, ◌*◌,
  ◌++◌, ◌+◌, ◌/◌, ◌<◌, ◌∷◌, ◌≡◌, ◌≢◌, ◌≤◌,
}
use kmflow.Prelude.Eq.{nat_eq}
use kmflow.Text.{bytes_eq, decimal, strip_prefix}
use kmflow.Text.Decimal.{decimal-injective, decimal-without}
use kmflow.Discovery.{
  buffer_size, build_announce, parse_announce, parse_body, parse_header, peer_key,
}

take-length : (xs ys : List ℕ) → take (length xs) (xs ++ ys) ≡ xs
take-length [] ys = refl
take-length (x ∷ xs) ys = ap (◌∷◌ x) (take-length xs ys)

drop-length : (xs ys : List ℕ) → drop (length xs) (xs ++ ys) ≡ ys
drop-length [] ys = refl
drop-length (x ∷ xs) ys = drop-length xs ys

take_all : (n : ℕ) (xs : List ℕ) → length xs ≤ n → take n xs ≡ xs
take_all zero [] h = refl
take_all zero (x ∷ xs) h = absurd (omega arith)
take_all (suc n) [] h = refl
take_all (suc n) (x ∷ xs) h = ap (◌∷◌ x) (take_all n xs (omega arith))

body_read :
    (from_utf8_lossy : List ℕ → List ℕ) (port : ℕ) (fingerprint hostname : List ℕ)
    → from_utf8_lossy fingerprint ≡ fingerprint
    → from_utf8_lossy hostname ≡ hostname
    → hostname ≢ []
    → parse_body from_utf8_lossy port (length fingerprint) (fingerprint ++ hostname)
      ≡ some (hostname, port, fingerprint)
unfolding parse_body
body_read from_utf8_lossy port fingerprint hostname fp host some_host =
    rw
      (
        take-length fingerprint hostname,
        drop-length fingerprint hostname,
        length-append fingerprint hostname,
        fp,
        host,
      )
      (ground (arith, some_host, bytes_eq.beq_iff hostname []))

-- If the texts are valid UTF-8, the hostname is not empty and the packet fits the receiver's buffer
-- of 512 bytes, then what was announced is what is read: hostname, 16-bit port and fingerprint of
-- fewer than 256 bytes.
pub parse_announce-build_announce :
    (from_utf8_lossy : List ℕ → List ℕ) (hostname : List ℕ) (port : ℕ) (fingerprint : List ℕ)
    → from_utf8_lossy fingerprint ≡ fingerprint
    → from_utf8_lossy hostname ≡ hostname
    → hostname ≢ []
    → port < 65536
    → length fingerprint < 256
    → 9 + length fingerprint + length hostname ≤ buffer_size
    → parse_announce from_utf8_lossy (take buffer_size (build_announce hostname port fingerprint))
      ≡ some (hostname, port, fingerprint)
unfolding parse_announce build_announce parse_header strip_prefix
parse_announce-build_announce from_utf8_lossy hostname port fingerprint fp host named p short fits =
    let e : 256 * (port / 256) + port % 256 ≡ port = omega arith in
    let e' : length fingerprint % 256 ≡ length fingerprint = omega arith in
    let whole =
      take_all 503 (fingerprint ++ hostname) (omega (arith, length-append fingerprint hostname)) in
    rw (e, e', whole) (body_read from_utf8_lossy port fingerprint hostname fp host named)

last_separator :
    (sep : ℕ) (xs ys ds es : List ℕ)
    → All (λ c. c ≢ sep) ds
    → All (λ c. c ≢ sep) es
    → xs ++ sep ∷ ds ≡ ys ++ sep ∷ es
    → (xs ≡ ys) × (ds ≡ es)
last_separator sep [] [] ds es hd he h = (refl, cc)
last_separator sep [] (y ∷ ys) ds es hd he h = absurd (inside ys ds hd (cc))
  where
    inside : (ys ds : List ℕ) → All (λ c. c ≢ sep) ds → ¬ (ds ≡ ys ++ sep ∷ es)
    inside [] [] none_in e = cc
    inside [] (d ∷ ds) none_in e = none_in.0 (cc)
    inside (y ∷ ys) [] none_in e = cc
    inside (y ∷ ys) (d ∷ ds) none_in e = inside ys ds none_in.1 (cc)
last_separator sep (x ∷ xs) [] ds es hd he h = absurd (inside xs es he (cc))
  where
    inside : (ys es : List ℕ) → All (λ c. c ≢ sep) es → ¬ (es ≡ ys ++ sep ∷ ds)
    inside [] [] none_in e = cc
    inside [] (d ∷ es) none_in e = none_in.0 (cc)
    inside (y ∷ ys) [] none_in e = cc
    inside (y ∷ ys) (d ∷ es) none_in e = inside ys es none_in.1 (cc)
last_separator sep (x ∷ xs) (y ∷ ys) ds es hd he h =
    let (front, back) = last_separator sep xs ys ds es hd he (cc) in (cc, back)

-- Peers with different hostnames or ports have different keys in the table, whatever the names
-- contain.
peer_key-injective :
    (hostname hostname' : List ℕ) (port port' : ℕ)
    → port < 65536
    → port' < 65536
    → peer_key hostname port ≡ peer_key hostname' port'
    → (hostname ≡ hostname') × (port ≡ port')
unfolding peer_key
peer_key-injective hostname hostname' port port' p p' e =
    let (host, digits) =
      last_separator b':' hostname hostname' (decimal port) (decimal port')
        (decimal-without b':' port (λ _. omega arith) (omega arith))
        (decimal-without b':' port' (λ _. omega arith) (omega arith)) e in
    (host, decimal-injective port port' (omega arith) (omega arith) digits)
