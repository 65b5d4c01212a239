-- ===== src/Wire/Roundtrip.antt =====
-- Framing laws of quic.rs and of the clipboard streams.
use kmflow.Prelude.{
  >>=-eq-some, All, List, [], arith, if◌then◌else◌, length, ltb, none, refl, some, suc, zero, ℕ,
  ◌%◌, ◌++◌, ◌<◌, ◌>>=◌, ◌∙◌, ◌∷◌, ◌≡◌,
}
use mathlib.Core.List.{append_assoc, append-nil}
use kmflow.Prelude.Machine.{two32}
use kmflow.Wire.{
  Codec, accept_clipboard, after_len, after_tag, clipboard_limit, clipboard_stream, clipboard_tag,
  read_exact, recv_all, recv_control, send_all, send_control, u32_from_le_bytes, u32_to_le_bytes,
}

-- What serde_json documents for one value: what it wrote for the value reads back as the value.
abbrev pub RoundTrips : {A : Type 0} → Codec A → A → Type 0
RoundTrips c a = (bytes : List ℕ) → c.encode a ≡ some bytes → c.decode bytes ≡ some a

-- The encoding of a value fits the length field.
abbrev pub Fits : {A : Type 0} → Codec A → A → Type 0
Fits c a = (bytes : List ℕ) → c.encode a ≡ some bytes → length bytes < two32

read_exact-append :
    (xs rest : List ℕ) (n : ℕ) → length xs ≡ n → read_exact n (xs ++ rest) ≡ some (xs, rest)
unfolding read_exact
read_exact-append [] rest zero h = refl
read_exact-append [] rest (suc n) h = absurd (omega arith)
read_exact-append (x ∷ xs) rest zero h = absurd (omega arith)
read_exact-append (x ∷ xs) rest (suc n) h =
    rw (read_exact-append xs rest n (omega arith), ◌>>=◌) refl

le_bytes-roundtrip : (n : ℕ) → n < two32 → u32_from_le_bytes (u32_to_le_bytes n) ≡ n
unfolding u32_from_le_bytes u32_to_le_bytes
le_bytes-roundtrip n h = omega arith

u32_to_le_bytes-append :
    (n : ℕ) (xs : List ℕ) → read_exact 4 (u32_to_le_bytes n ++ xs) ≡ some (u32_to_le_bytes n, xs)
unfolding u32_to_le_bytes read_exact
u32_to_le_bytes-append n xs = refl

-- A framed body is read back whole, whatever follows it.
framed :
    (bytes rest : List ℕ)
    → length bytes < two32
    → (u32_from_le_bytes (u32_to_le_bytes (length bytes % two32)) ≡ length bytes)
      × (read_exact (length bytes) (bytes ++ rest) ≡ some (bytes, rest))
framed bytes rest h = (
  le_bytes-roundtrip (length bytes % two32) (omega arith) ∙ omega arith,
  read_exact-append bytes rest (length bytes) refl,
)

read_exact_one : (b : ℕ) (xs : List ℕ) → read_exact 1 (b ∷ xs) ≡ some (b ∷ [], xs)
unfolding read_exact
read_exact_one b xs = refl

module _ {A : Type 0} (c : Codec A) where
  -- A message that was sent is received, and what follows it in the stream is left for the next.
  pub recv_control-send_control :
      (cmd : A) (frame rest : List ℕ)
      → RoundTrips c cmd
      → Fits c cmd
      → send_control c cmd ≡ some frame
      → recv_control c (frame ++ rest) ≡ some (cmd, rest)
  unfolding send_control recv_control
  recv_control-send_control cmd frame rest trips fits sent =
      let (bytes, encoded, e) = >>=-eq-some (c.encode cmd) _ sent in
      let (len, body) = framed bytes rest (fits bytes encoded) in
      let q : frame ≡ u32_to_le_bytes (length bytes % two32) ++ bytes = cc e in
      rw
        (
          q,
          append_assoc,
          u32_to_le_bytes-append (length bytes % two32) (bytes ++ rest),
          ◌>>=◌,
          len,
          body,
          trips bytes encoded,
        )
        refl

  -- If each message reads back from its own encoding, which fits a u32 length, then a sequence of
  -- messages is received in the order in which it was sent, none lost or merged, and what follows it
  -- on the stream stays.
  pub recv_all-send_all :
      (cmds : List A) (stream rest : List ℕ)
      → All (λ cmd. RoundTrips c cmd × Fits c cmd) cmds
      → send_all c cmds ≡ some stream
      → recv_all c (length cmds) (stream ++ rest) ≡ some (cmds, rest)
  unfolding send_all recv_all
  recv_all-send_all [] stream rest h sent = let q : stream ≡ [] = cc in rw q refl
  recv_all-send_all (cmd ∷ cmds) stream rest h sent =
      let (frame, one, e) = >>=-eq-some (send_control c cmd) _ sent in
      let (frames, more, e') = >>=-eq-some (send_all c cmds) _ e in
      let q : stream ≡ frame ++ frames = cc in
      rw
        (
          q,
          append_assoc,
          recv_control-send_control cmd frame (frames ++ rest) h.0.0 h.0.1 one,
          ◌>>=◌,
          recv_all-send_all cmds frames rest h.1 more,
        )
        refl

  -- If a payload reads back from its encoding, which is shorter than 4 GiB, then the acceptor of its
  -- clipboard stream gets it exactly if the encoding keeps to 10 MiB.
  pub accept_clipboard-clipboard_stream :
      (payload : A) (bytes : List ℕ)
      → RoundTrips c payload
      → c.encode payload ≡ some bytes
      → length bytes < two32
      → accept_clipboard c (clipboard_stream bytes)
        ≡ (if ltb clipboard_limit (length bytes) then none else some payload)
  unfolding accept_clipboard clipboard_stream after_tag after_len
  accept_clipboard-clipboard_stream payload bytes trips encoded h =
      let (len, body) = framed bytes [] h in
      let body' : read_exact (length bytes) bytes ≡ some (bytes, []) = rw append-nil at body in
      rw
        (
          read_exact_one clipboard_tag (u32_to_le_bytes (length bytes % two32) ++ bytes),
          ◌>>=◌,
          u32_to_le_bytes-append (length bytes % two32) bytes,
          len,
          body',
          trips bytes encoded,
        )
        refl
