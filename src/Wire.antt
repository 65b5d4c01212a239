-- ===== src/Wire.antt =====
-- How messages lie in QUIC streams and datagrams: send_control, send_datagram and their kin of
-- crates/kmflow-net/src/quic.rs, and the clipboard streams that crates/kmflow-daemon/src/lib.rs
-- writes and accepts. serde_json is a parameter: a codec.
pub mod Roundtrip
use kmflow.Prelude.Machine.{two32}
use kmflow.Prelude.{
  List, Option, [], if◌then◌else◌, leb, length, ltb, none, some, suc, zero, ℕ, ◌%◌, ◌*◌, ◌++◌, ◌+◌,
  ◌/◌, ◌==◌, ◌>>=◌, ◌∷◌,
}

-- `to_vec` and `from_slice` of one message type.
pub record Codec (A : Type 0) : Type 0 where
  pub encode : A → Option (List ℕ)
  pub decode : List ℕ → Option A

-- A u32 in little-endian bytes.
unfoldable pub u32_to_le_bytes : ℕ → List ℕ
u32_to_le_bytes n = n % 256 ∷ n / 256 % 256 ∷ n / 65536 % 256 ∷ n / 16777216 % 256 ∷ []

unfoldable pub u32_from_le_bytes : List ℕ → ℕ
u32_from_le_bytes (a ∷ b ∷ c ∷ d ∷ []) = a + 256 * b + 65536 * c + 16777216 * d
u32_from_le_bytes _ = 0

-- `read_exact` on what the stream still holds: it fails when the stream ends before n bytes.
unfoldable pub read_exact : ℕ → List ℕ → Option (List ℕ × List ℕ)
read_exact zero stream = some ([], stream)
read_exact (suc n) [] = none
read_exact (suc n) (b ∷ stream) = do (taken, rest) ← read_exact n stream; some (b ∷ taken, rest)

module _ {A : Type 0} (c : Codec A) where
  -- The bytes that one call writes; `none` if the encoder fails.
  unfoldable pub send_control : A → Option (List ℕ)
  send_control cmd = do bytes ← c.encode cmd; some (u32_to_le_bytes (length bytes % two32) ++ bytes)

  -- The message and the rest of the stream; `none` stands for each of the three errors.
  unfoldable pub recv_control : List ℕ → Option (A × List ℕ)
  recv_control stream = do
    (len_buf, body) ← read_exact 4 stream
    (buf, rest) ← read_exact (u32_from_le_bytes len_buf) body
    cmd ← c.decode buf
    some (cmd, rest)

  -- Several messages, one after the other.
  unfoldable pub send_all : List A → Option (List ℕ)
  send_all [] = some []
  send_all (cmd ∷ cmds) = do
    frame ← send_control cmd
    frames ← send_all cmds
    some (frame ++ frames)

  unfoldable pub recv_all : ℕ → List ℕ → Option (List A × List ℕ)
  recv_all zero stream = some ([], stream)
  recv_all (suc n) stream = do
    (cmd, rest) ← recv_control stream
    (cmds, end) ← recv_all n rest
    some (cmd ∷ cmds, end)

-- PeerConnection::send_datagram and recv_datagram: a datagram is one message, and quinn refuses one
-- that is longer than what the path carries.
module _ {A : Type 0} (c : Codec A) where
  unfoldable pub send_datagram : ℕ → A → Option (List ℕ)
  send_datagram max_datagram_size frame = do
    bytes ← c.encode frame
    if leb (length bytes) max_datagram_size then some bytes else none

  unfoldable pub recv_datagram : List ℕ → Option A
  recv_datagram bytes = c.decode bytes

abbrev pub clipboard_tag : ℕ
clipboard_tag = 0xCB

abbrev pub clipboard_limit : ℕ
clipboard_limit = 10 * 1024 * 1024

-- What the daemon writes to a fresh stream for an encoded payload.
unfoldable pub clipboard_stream : List ℕ → List ℕ
clipboard_stream bytes = clipboard_tag ∷ (u32_to_le_bytes (length bytes % two32) ++ bytes)

-- The task that accepts a stream: a payload, or nothing when a guard sends it to the next stream.
module _ {A : Type 0} (c : Codec A) where
  unfoldable pub after_len : ℕ → List ℕ → Option A
  after_len len body =
      if ltb clipboard_limit len
      then none
      else (do (data_bytes, rest) ← read_exact len body; c.decode data_bytes)

  unfoldable pub after_tag : List ℕ → List ℕ → Option A
  after_tag (tag ∷ []) body =
      if tag == clipboard_tag
      then (do (len_buf, body') ← read_exact 4 body; after_len (u32_from_le_bytes len_buf) body')
      else none
  after_tag _ body = none

  unfoldable pub accept_clipboard : List ℕ → Option A
  accept_clipboard stream = do (tag, body) ← read_exact 1 stream; after_tag tag body
