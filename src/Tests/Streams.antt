-- ===== src/Tests/Streams.antt =====
-- Witnesses of the framing, with a codec that writes a number below 256 as its one byte, and of the
-- length of datagrams.
use kmflow.Prelude.{
  List, Option, [], ap, arith, length, length-replicate, none, refl, replicate, some, true, ℕ, ◌*◌,
  ◌∷◌, ◌≡◌,
}
use kmflow.Wire
use kmflow.Text.{is_some}
use kmflow.Proto.{EventFrame, InputEvent, mouse_move}
use kmflow.HashSet.{contains}
use kmflow.Daemon.{DaemonState, check_emergency_hotkey, initial, track_key_state}
use kmflow.Session.{send_datagram, Outcome, stop}
use kmflow.Session.Captured.{on_captured}
use kmflow.Session.Oversized.{IsLengthy, burst_ends_session}
use kmflow.Tests.{one_second, px, start, to_the_right}
use kmflow.Wire.{
  Codec, accept_clipboard, clipboard_stream, recv_all, send_all, send_control, u32_to_le_bytes,
}
use kmflow.Wire.Roundtrip.{Fits, RoundTrips, accept_clipboard-clipboard_stream, recv_all-send_all}

abbrev read_byte : List ℕ → Option ℕ
read_byte (b ∷ []) = some b
read_byte _ = none

abbrev byte_codec : Codec ℕ
byte_codec = record { encode = λ n. some (n ∷ []); decode = read_byte }

byte-RoundTrips : (n : ℕ) → RoundTrips byte_codec n × Fits byte_codec n
byte-RoundTrips n = (λ bytes h. ground arith, λ bytes h. ground arith)

recv_all-send_all_example :
    recv_all byte_codec 2 (1 ∷ 0 ∷ 0 ∷ 0 ∷ 65 ∷ 1 ∷ 0 ∷ 0 ∷ 0 ∷ 66 ∷ 9 ∷ [])
    ≡ some (65 ∷ 66 ∷ [], 9 ∷ [])
unfolding send_all send_control u32_to_le_bytes
recv_all-send_all_example =
    recv_all-send_all byte_codec (65 ∷ 66 ∷ []) (1 ∷ 0 ∷ 0 ∷ 0 ∷ 65 ∷ 1 ∷ 0 ∷ 0 ∷ 0 ∷ 66 ∷ [])
      (9 ∷ []) (byte-RoundTrips 65, (byte-RoundTrips 66, tt)) refl

accept_clipboard-clipboard_stream_example :
    accept_clipboard byte_codec (clipboard_stream (65 ∷ [])) ≡ some 65
accept_clipboard-clipboard_stream_example =
    accept_clipboard-clipboard_stream byte_codec 65 (65 ∷ []) (byte-RoundTrips 65).0 refl
      (omega arith)

-- Thirty bytes for each event.
abbrev json_like : Codec EventFrame
json_like = record {
  encode = λ frame. some (replicate (30 * length frame.events) 0);
  decode = λ bytes. none;
}

json_like-IsLengthy : IsLengthy json_like
json_like-IsLengthy frame bytes e =
    let same : bytes ≡ replicate (30 * length frame.events) 0 = cc e in
    omega (
      arith,
      ap (λ (b : List ℕ). length b) same,
      length-replicate {A = ℕ} (30 * length frame.events) 0,
    )

abbrev at_peer : DaemonState
at_peer = record start { focus_is_remote = true }

abbrev moved : InputEvent
moved = mouse_move (px 1) (px 0)

-- 64 motions, and the longest datagram that quinn finds by default.
burst_ends_session_example :
    let waiting = replicate 63 moved in
    (frame : EventFrame) × (o : Outcome) × (left_over : List InputEvent) × (length frame.events
      ≡ 64)
    × (Wire.send_datagram json_like 1452 frame ≡ none)
    × (on_captured to_the_right one_second
          (is_some (Wire.send_datagram json_like 1452 frame))
          at_peer
          moved
          waiting
        ≡ some (o, left_over))
    × (o.actions ≡ send_datagram frame ∷ [])
    × (o.flow ≡ stop)
unfolding initial check_emergency_hotkey contains track_key_state
burst_ends_session_example =
    burst_ends_session json_like json_like-IsLengthy 1452 to_the_right one_second at_peer moved
      (replicate 63 moved) refl refl (omega arith) (omega arith)
