-- ===== src/Session/Forwarding.antt =====
-- lib.rs, peer_session: what the captured events turn into while the focus is remote.
use kmflow.Prelude.{
  Bool, List, [], ap, arith, false, length, min, refl, some, suc, true, zero, ℕ, ◌%◌, ◌++◌, ◌+◌,
  ◌∙◌, ◌∷◌, ◌≡◌,
}
use kmflow.Prelude.Machine.{two32}
use kmflow.Proto.{EventFrame, InputEvent}
use kmflow.Daemon.{DaemonState, check_emergency_hotkey, next_seq, track_key_state}
use kmflow.Daemon.Tracking.{track_all}
use kmflow.Session.{Clock, Outcome, SessionContext, send_datagram}
use kmflow.Session.Bounds.{track_key_state_cursor}
use kmflow.Session.Captured.{drain, forward, on_captured}

pub drain_lem :
    (room : ℕ) (s : DaemonState) (queue : List InputEvent)
    → let (s', more, left_over) = drain room s queue in
      (more ++ left_over ≡ queue)
      × (length more ≡ min room (length queue))
      × (s' ≡ track_all s more)
unfolding drain track_all
drain_lem zero s queue = (refl, omega arith, refl)
drain_lem (suc room) s [] = (refl, omega arith, refl)
drain_lem (suc room) s (ev ∷ queue) =
    let (kept, size, tracked) = drain_lem room (track_key_state s ev) queue in
    (ap (◌∷◌ ev) kept, omega arith, tracked)

pub track_all_focus :
    (s : DaemonState) (events : List InputEvent)
    → ((track_all s events).focus_is_remote ≡ s.focus_is_remote)
      × ((track_all s events).seq_counter ≡ s.seq_counter)
unfolding track_all
track_all_focus s [] = (refl, refl)
track_all_focus s (e ∷ events) =
    let (f, c) = track_all_focus (track_key_state s e) events in
    let (_, _, n, r) = track_key_state_cursor s e in (f ∙ r, c ∙ n)

-- While the focus is remote and the hotkey is up, a captured event leaves in one datagram with the
-- events that wait behind it: in order, none lost, at most 64; the number is the next one, the state
-- has tracked exactly what was sent, and the focus stays remote.
pub on_captured_forwards :
    (ctx : SessionContext) (clk : Clock) (sent : Bool) (s : DaemonState) (event : InputEvent)
    (queue : List InputEvent)
    → s.focus_is_remote ≡ true
    → check_emergency_hotkey (track_key_state s event) ≡ false
    → (frame : EventFrame) × (o : Outcome) × (left_over : List InputEvent) × (on_captured ctx clk
          sent s event queue
        ≡ some (o, left_over))
      × (o.actions ≡ send_datagram frame ∷ [])
      × (frame.events ++ left_over ≡ event ∷ queue)
      × (length frame.events ≡ min 64 (length (event ∷ queue)))
      × (frame.seq ≡ (s.seq_counter + 1) % two32)
      × (o.state ≡ record (track_all s frame.events) { seq_counter = frame.seq })
      × (o.state.focus_is_remote ≡ true)
unfolding on_captured forward next_seq track_all
on_captured_forwards ctx clk sent s event queue remote up =
    let s' : DaemonState = track_key_state s event in
    let d : DaemonState × List InputEvent × List InputEvent = drain 63 s' queue in
    let n : ℕ = (d.0.seq_counter + 1) % two32 in
    let frame : EventFrame = record { seq = n; timestamp_us = clk.now_us; events = event ∷ d.1 } in
    let (kept, size, tracked) = drain_lem 63 s' queue in
    let (focus, counter) = track_all_focus s' d.1 in
    let (_, _, counter', focus') = track_key_state_cursor s event in
    let remote' : s'.focus_is_remote ≡ true = focus' ∙ remote in
    let r : Outcome × List InputEvent = forward clk sent s' event queue in
    (
      frame,
      r.0,
      r.1,
      ground (arith, remote', up),
      refl,
      ap (◌∷◌ event) kept,
      omega arith,
      omega (arith, ap (λ (x : DaemonState). x.seq_counter) tracked, counter, counter'),
      ap (λ (x : DaemonState). record x { seq_counter = n }) tracked,
      ap (λ (x : DaemonState). x.focus_is_remote) tracked ∙ focus ∙ remote',
    )
