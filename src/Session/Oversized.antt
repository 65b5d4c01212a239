-- ===== src/Session/Oversized.antt =====
-- lib.rs, peer_session: a batch of captured events that is too long for a datagram.
use kmflow.Prelude.{
  List, Option-cases, [], arith, false, inl, inr, length, none, refl, some, suc, true, ℕ, ◌*◌, ◌<◌,
  ◌>>=◌, ◌∷◌, ◌≡◌, ◌≤◌,
}
use kmflow.Text.{is_some}
use kmflow.Proto.{EventFrame, InputEvent}
use kmflow.Wire
use kmflow.Wire.{Codec}
use kmflow.Daemon.{DaemonState, check_emergency_hotkey, track_key_state}
use kmflow.Session.{Clock, Outcome, SessionContext, send_datagram, stop}
use kmflow.Session.Bounds.{track_key_state_cursor}
use kmflow.Session.Captured.{forward, on_captured}
use kmflow.Session.Forwarding.{on_captured_forwards}

-- JSON takes 30 bytes at least for each event of a frame: {"Scroll":{"dx":0.0,"dy":1.0}}.
abbrev pub IsLengthy : Codec EventFrame → Type 0
IsLengthy c =
    (frame : EventFrame) (bytes : List ℕ)
    → c.encode frame ≡ some bytes
    → 30 * length frame.events ≤ length bytes

unsent_stops :
    (ctx : SessionContext) (clk : Clock) (s : DaemonState) (event : InputEvent)
    (queue left_over : List InputEvent) (o : Outcome)
    → s.focus_is_remote ≡ true
    → check_emergency_hotkey (track_key_state s event) ≡ false
    → on_captured ctx clk false s event queue ≡ some (o, left_over)
    → o.flow ≡ stop
unfolding on_captured forward
unsent_stops ctx clk s event queue left_over o remote up e =
    let (_, _, _, focus) = track_key_state_cursor s event in ground (arith, remote, up, focus, e)

module _ (c : Codec EventFrame) (lengthy : IsLengthy c) (max_datagram_size : ℕ) where
  too_long :
      (frame : EventFrame)
      → max_datagram_size < 30 * length frame.events
      → Wire.send_datagram c max_datagram_size frame ≡ none
  unfolding Wire.send_datagram
  too_long frame more = elim (Option-cases (c.encode frame)) [
    | inl unwritten ↦ rw unwritten refl
    | inr (bytes, written) ↦
        let longer = lengthy frame bytes written in
        rw (written, ◌>>=◌) (ground (arith, longer, more))
  ]

  -- While the focus is remote and the hotkey is up: if a captured event and the events that wait
  -- behind it, at most 64 together, take more JSON than a datagram can carry, at 30 bytes an event,
  -- then the frame with all of them is not sent, and the session ends.
  pub burst_ends_session :
      (ctx : SessionContext) (clk : Clock) (s : DaemonState) (event : InputEvent)
      (queue : List InputEvent)
      → s.focus_is_remote ≡ true
      → check_emergency_hotkey (track_key_state s event) ≡ false
      → length queue < 64
      → max_datagram_size < 30 * suc (length queue)
      → (frame : EventFrame) × (o : Outcome) × (left_over : List InputEvent) × (length frame.events
          ≡ suc (length queue))
        × (Wire.send_datagram c max_datagram_size frame ≡ none)
        × (on_captured ctx clk
              (is_some (Wire.send_datagram c max_datagram_size frame))
              s
              event
              queue
            ≡ some (o, left_over))
        × (o.actions ≡ send_datagram frame ∷ [])
        × (o.flow ≡ stop)
  burst_ends_session ctx clk s event queue remote up few more =
      let (frame, o, left_over, done, acts, _, size, _, _, _) =
        on_captured_forwards ctx clk false s event queue remote up in
      let count : length frame.events ≡ suc (length queue) = omega (arith, size) in
      let unsent = too_long frame (omega (arith, count)) in
      (
        frame,
        o,
        left_over,
        count,
        unsent,
        rw unsent done,
        acts,
        unsent_stops ctx clk s event queue left_over o remote up done,
      )
