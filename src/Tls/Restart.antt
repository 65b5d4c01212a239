-- ===== src/Tls/Restart.antt =====
-- tls.rs and lib.rs: a daemon that starts again is the same to those who know it.
use kmflow.Tls.{KnownPeers, compute_fingerprint, is_known, trust_on_first_use}
use kmflow.Tls.Trust.{trust_on_first_use_once}
use kmflow.Prelude.{List, Option, [], arith, none, refl, some, true, ℕ, ◌∷◌, ◌≡◌}
use kmflow.Tls.KeyFiles.{
  Access, IdentityFiles, TlsIdentity, create_identity, extract_peer_fingerprint, generate,
  identity_of, load_or_generate, store_identity,
}

-- Both files hold the identity.
abbrev pub IsStored : (List ℕ → List ℕ) → IdentityFiles → TlsIdentity → Type 0
IsStored sha256 files identity =
    (cert : List ℕ) × (key : List ℕ) × (files.cert ≡ some cert)
    × (files.key ≡ some key)
    × (identity ≡ identity_of sha256 cert key)

module _ (sha256 : List ℕ → List ℕ) where
  store_identity-IsStored :
      (access : Access) (files files' : IdentityFiles) (cert key : List ℕ) (identity : TlsIdentity)
      → store_identity access files (identity_of sha256 cert key) ≡ (files', some identity)
      → IsStored sha256 files' identity
  unfolding store_identity identity_of
  store_identity-IsStored access files files' cert key identity e =
      (cert, key, ground (arith, e), ground (arith, e), ground (arith, e))

  create_identity-IsStored :
      (access : Access) (files files' : IdentityFiles) (made : Option (List ℕ × List ℕ))
      (identity : TlsIdentity)
      → create_identity sha256 access files made ≡ (files', some identity)
      → IsStored sha256 files' identity
  unfolding create_identity generate
  create_identity-IsStored access files files' none identity e = absurd (cc e)
  create_identity-IsStored access files files' (some (cert, key)) identity e =
      store_identity-IsStored access files files' cert key identity e

  load_or_generate-IsStored :
      (access : Access) (made : Option (List ℕ × List ℕ)) (c k : Option (List ℕ))
      (files' : IdentityFiles) (identity : TlsIdentity)
      → load_or_generate sha256 access made (record { cert = c; key = k }) ≡ (files', some identity)
      → IsStored sha256 files' identity
  unfolding load_or_generate
  load_or_generate-IsStored access made none k files' identity e =
      create_identity-IsStored access (record { cert = none; key = k }) files' made identity e
  load_or_generate-IsStored access made (some cert) none files' identity e =
      create_identity-IsStored access (record { cert = some cert; key = none }) files' made identity
        e
  load_or_generate-IsStored access made (some cert) (some key) files' identity e =
      (cert, key, ground (arith, e), ground (arith, e), ground (arith, e))

  loads :
      (access : Access) (made : Option (List ℕ × List ℕ)) (cert key : List ℕ)
      → access.reads_cert ≡ true
      → access.reads_key ≡ true
      → let files : IdentityFiles = record { cert = some cert; key = some key } in
        load_or_generate sha256 access made files ≡ (files, some (identity_of sha256 cert key))
  unfolding load_or_generate
  loads access made cert key rc rk = rw (rc, rk) refl

  stored_loads :
      (access : Access) (made : Option (List ℕ × List ℕ)) (files : IdentityFiles)
      (identity : TlsIdentity)
      → access.reads_cert ≡ true
      → access.reads_key ≡ true
      → IsStored sha256 files identity
      → load_or_generate sha256 access made files ≡ (files, some identity)
  stored_loads access made files identity rc rk (cert, key, has_cert, has_key, same) =
      let stored : IdentityFiles = record { cert = some cert; key = some key } in
      let whole : files ≡ stored = cc (has_cert, has_key) in
      rw (whole, same) (loads access made cert key rc rk)

  -- After a start that gave the daemon an identity, be it new or loaded, any start that can read the
  -- two files gives the same identity and leaves them as they are; and a peer that met the
  -- certificate, with its file of known peers readable and writable, knows the identity.
  pub restarted_is_known :
      (access later : Access) (made remade : Option (List ℕ × List ℕ))
      (files files' : IdentityFiles) (identity : TlsIdentity) (now : ℕ) (known : KnownPeers)
      → load_or_generate sha256 access made files ≡ (files', some identity)
      → later.reads_cert ≡ true
      → later.reads_key ≡ true
      → let known' =
          trust_on_first_use true true now known
            (extract_peer_fingerprint sha256 (some (identity.cert_der ∷ []))) in
        (load_or_generate sha256 later remade files' ≡ (files', some identity))
        × (extract_peer_fingerprint sha256 (some (identity.cert_der ∷ [])) ≡ identity.fingerprint)
        × (is_known true known' identity.fingerprint ≡ some true)
  unfolding extract_peer_fingerprint identity_of
  restarted_is_known access later made remade files files' identity now known e rc rk =
      let stored = load_or_generate-IsStored access made files.cert files.key files' identity e in
      let (cert, key, has_cert, has_key, same) = stored in
      let shown : compute_fingerprint sha256 identity.cert_der ≡ identity.fingerprint =
        rw same refl in
      (
        stored_loads later remade files' identity rc rk stored,
        shown,
        rw shown (trust_on_first_use_once now now known identity.fingerprint).0,
      )
