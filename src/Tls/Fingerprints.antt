-- ===== src/Tls/Fingerprints.antt =====
-- tls.rs, compute_fingerprint: the text shows the whole digest.
use kmflow.Prelude.{All, List, [], arith, length, refl, suc, ℕ, ◌%◌, ◌*◌, ◌/◌, ◌<◌, ◌∷◌, ◌≡◌}
use kmflow.Text.{hex_byte, hex_digit}
use kmflow.Tls.{compute_fingerprint, format_digest}

abbrev pub IsBytes : List ℕ → Type 0
IsBytes = All (λ b. b < 256)

hex_digit-injective : (a b : ℕ) → a < 16 → b < 16 → hex_digit a ≡ hex_digit b → a ≡ b
unfolding hex_digit
hex_digit-injective a b ha hb e = ground arith

hex_byte-injective :
    (a b : ℕ)
    → a < 256
    → b < 256
    → hex_digit (a / 16) ≡ hex_digit (b / 16)
    → hex_digit (a % 16) ≡ hex_digit (b % 16)
    → a ≡ b
hex_byte-injective a b ha hb e e' =
    let high = hex_digit-injective (a / 16) (b / 16) (omega arith) (omega arith) e in
    let low = hex_digit-injective (a % 16) (b % 16) (omega arith) (omega arith) e' in omega arith

length-format_digest :
    (i : ℕ) (digest : List ℕ) → length (format_digest (suc i) digest) ≡ 3 * length digest
unfolding format_digest hex_byte
length-format_digest i [] = refl
length-format_digest i (b ∷ digest) = ground (arith, length-format_digest (suc i) digest)

format_digest-injective :
    (i : ℕ) (xs ys : List ℕ)
    → IsBytes xs
    → IsBytes ys
    → format_digest i xs ≡ format_digest i ys
    → xs ≡ ys
unfolding format_digest hex_byte
format_digest-injective i [] [] hx hy e = refl
format_digest-injective i [] (y ∷ ys) hx hy e = absurd (ground arith)
format_digest-injective i (x ∷ xs) [] hx hy e = absurd (ground arith)
format_digest-injective i (x ∷ xs) (y ∷ ys) hx hy e =
    ground
      (arith, format_digest-injective (suc i) xs ys hx.1 hy.1, hex_byte-injective x y hx.0 hy.0)

-- A certificate's fingerprint is a text of 95 bytes that shows its whole digest: if two certificates
-- have the same fingerprint then they have the same digest, provided the hash gives 32 bytes.
compute_fingerprint_lem :
    (sha256 : List ℕ → List ℕ)
    → ((input : List ℕ) → IsBytes (sha256 input) × (length (sha256 input) ≡ 32))
    → (cert cert' : List ℕ)
    → (length (compute_fingerprint sha256 cert) ≡ 95)
      × (compute_fingerprint sha256 cert ≡ compute_fingerprint sha256 cert'
          → sha256 cert ≡ sha256 cert')
unfolding compute_fingerprint format_digest hex_byte
compute_fingerprint_lem sha256 hash cert cert' = (
  whole (sha256 cert) (hash cert).1,
  λ e. format_digest-injective 0 (sha256 cert) (sha256 cert') (hash cert).0 (hash cert').0 e,
)
  where
    whole : (digest : List ℕ) → length digest ≡ 32 → length (format_digest 0 digest) ≡ 95
    whole [] h = absurd (omega arith)
    whole (b ∷ digest) h = omega (arith, length-format_digest 0 digest)
