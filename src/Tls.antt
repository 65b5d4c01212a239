-- ===== src/Tls.antt =====
-- crates/kmflow-net/src/tls.rs: certificate fingerprints, and the file of trusted peers
-- (TofuVerifier); and what crates/kmflow-daemon/src/lib.rs does with a new peer. SHA-256 is a
-- parameter.
pub mod Fingerprints
pub mod Trust
pub mod KeyFiles
pub mod Restart
use kmflow.Prelude.{
  Bool, List, Option, [], false, if◌then◌else◌, ltb, none, some, suc, true, ℕ, ◌++◌, ◌∷◌,
}
use kmflow.Text.{ascii, contains_text, decimal, hex_byte}

abbrev pub colon : ℕ
colon = b':'

-- The loop over the digest, from byte number i on.
unfoldable pub format_digest : ℕ → List ℕ → List ℕ
format_digest i [] = []
format_digest i (b ∷ digest) =
    let rest = hex_byte b ++ format_digest (suc i) digest in if ltb 0 i then colon ∷ rest else rest

unfoldable pub compute_fingerprint : (List ℕ → List ℕ) → List ℕ → List ℕ
compute_fingerprint sha256 cert_der = format_digest 0 (sha256 cert_der)

-- The identity of a peer in bytes.
pub record Identity : Type 0 where
  pub fingerprint : List ℕ
  pub hostname : List ℕ
  pub last_seen : ℕ

-- `known_peers.toml`: its bytes, if it exists.
abbrev pub KnownPeers : Type 0
KnownPeers = Option (List ℕ)

-- `readable` is whether the file can be read; `none` is an error.
unfoldable pub is_known : Bool → KnownPeers → List ℕ → Option Bool
is_known readable none fingerprint = some false
is_known readable (some content) fingerprint =
    if readable then some (contains_text content fingerprint) else none

unfoldable pub entry : Identity → List ℕ
entry identity =
    ascii "[[peers]]\nfingerprint = \""
    ++ (identity.fingerprint
        ++ (ascii "\"\nhostname = \""
            ++ (identity.hostname
                ++ (ascii "\"\nlast_seen = " ++ (decimal identity.last_seen ++ ascii "\n\n")))))

abbrev pub heading : List ℕ
heading = ascii "# KMFlow known peers\n\n"

-- The file as it is written back; `writable` is whether that succeeds.
unfoldable pub append_entry : Bool → List ℕ → Identity → Option (List ℕ)
append_entry writable content identity = if writable then some (content ++ entry identity) else none

unfoldable pub trust_peer : Bool → Bool → KnownPeers → Identity → Option (List ℕ)
unfolding append_entry
trust_peer readable writable none identity = append_entry writable heading identity
trust_peer readable writable (some content) identity =
    if readable then append_entry writable content identity else none

-- The daemon on a peer, accepted or connected to: one that is not known, or cannot be looked up, is
-- trusted; an error of that is ignored, and a file that could not be written stays.
abbrev kept : KnownPeers → Option (List ℕ) → KnownPeers
kept old none = old
kept old (some new) = some new

unfoldable pub trust_on_first_use : Bool → Bool → ℕ → KnownPeers → List ℕ → KnownPeers
trust_on_first_use readable writable now file fingerprint =
    elim (is_known readable file fingerprint) [
      | some true ↦ file
      | some false ↦ kept file (
          trust_peer readable writable file
            (record { fingerprint = fingerprint; hostname = []; last_seen = now }))
      | none ↦ kept file (
          trust_peer readable writable file
            (record { fingerprint = fingerprint; hostname = []; last_seen = now }))
    ]
