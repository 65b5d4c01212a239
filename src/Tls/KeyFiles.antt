-- ===== src/Tls/KeyFiles.antt =====
-- crates/kmflow-net/src/tls.rs, TlsIdentity: the certificate and the key in their files; and
-- crates/kmflow-net/src/quic.rs, extract_peer_fingerprint. The key pair and its certificate, which
-- rcgen makes, are an input, as is what succeeds of the accesses to the files.
use kmflow.Prelude.{Bool, List, Option, [], if◌then◌else◌, none, some, ℕ, ◌&&◌, ◌>>=◌, ◌∷◌}
use kmflow.Text.{ascii}
use kmflow.Tls.{compute_fingerprint}

pub record TlsIdentity : Type 0 where
  pub cert_der : List ℕ
  pub key_der : List ℕ
  pub fingerprint : List ℕ

-- `cert.der` and `key.der`, as far as they exist.
pub record IdentityFiles : Type 0 where
  pub cert : Option (List ℕ)
  pub key : Option (List ℕ)

-- A write, or what a failed one leaves behind.
pub data Write : Type 0 where
  written : Write
  failed_write : Option (List ℕ) → Write

pub record Access : Type 0 where
  pub reads_cert : Bool
  pub reads_key : Bool
  pub creates_dir : Bool
  pub cert_write : Write
  pub key_write : Write

module _ (sha256 : List ℕ → List ℕ) where
  unfoldable pub identity_of : List ℕ → List ℕ → TlsIdentity
  unfolding compute_fingerprint
  identity_of cert key = record {
    cert_der = cert;
    key_der = key;
    fingerprint = compute_fingerprint sha256 cert;
  }

  -- rcgen's certificate and key, unless it fails.
  unfoldable pub generate : Option (List ℕ × List ℕ) → Option TlsIdentity
  unfolding identity_of
  generate made = do (cert, key) ← made; some (identity_of cert key)

-- The certificate is written first.
unfoldable pub store_identity :
    Access → IdentityFiles → TlsIdentity → IdentityFiles × Option TlsIdentity
store_identity access files identity =
    if access.creates_dir
    then elim access.cert_write [
      | failed_write left ↦ (record files { cert = left }, none)
      | written ↦ elim access.key_write [
        | failed_write left ↦ (record { cert = some identity.cert_der; key = left }, none)
        | written ↦
            (record { cert = some identity.cert_der; key = some identity.key_der }, some identity)
      ]
    ]
    else (files, none)

unfoldable pub create_identity :
    (List ℕ → List ℕ)
    → Access
    → IdentityFiles
    → Option (List ℕ × List ℕ)
    → IdentityFiles × Option TlsIdentity
unfolding identity_of generate store_identity
create_identity sha256 access files made = elim (generate sha256 made) [
  | none ↦ (files, none)
  | some identity ↦ store_identity access files identity
]

-- Both files, or a new identity: the files afterwards, and the identity unless there is an error.
unfoldable pub load_or_generate :
    (List ℕ → List ℕ)
    → Access
    → Option (List ℕ × List ℕ)
    → IdentityFiles
    → IdentityFiles × Option TlsIdentity
unfolding identity_of create_identity
load_or_generate sha256 access made files = elim files.cert [
  | none ↦ create_identity sha256 access files made
  | some cert ↦ elim files.key [
    | none ↦ create_identity sha256 access files made
    | some key ↦ (
      files,
      if access.reads_cert && access.reads_key then some (identity_of sha256 cert key) else none,
    )
  ]
]

-- What the peer has presented: its chain of certificates, if there is one.
unfoldable pub extract_peer_fingerprint : (List ℕ → List ℕ) → Option (List (List ℕ)) → List ℕ
unfolding compute_fingerprint
extract_peer_fingerprint sha256 none = ascii "unknown"
extract_peer_fingerprint sha256 (some []) = ascii "unknown"
extract_peer_fingerprint sha256 (some (cert ∷ certs)) = compute_fingerprint sha256 cert
