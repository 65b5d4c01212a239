-- ===== src/Session/Emergency.antt =====
-- lib.rs, peer_session: the emergency hotkey Ctrl+Alt+Esc.
use kmflow.Daemon.Tracking.{track_all}
use kmflow.Session.Forwarding.{on_captured_forwards}
use kmflow.Session.Bounds.{track_key_state_cursor}
use mathlib.Core.List.{append-nil}
use kmflow.Prelude.{
  Bool, List, [], ap, arith, false, length, length-append, map, refl, some, sym, true, ℕ, ◌%◌, ◌++◌,
  ◌+◌, ◌<◌, ◌∙◌, ◌∷◌, ◌≡◌, ◌≤◌,
}
use kmflow.Prelude.Eq.{nat_eq}
use kmflow.Prelude.Machine.{two32}
use kmflow.HashSet.{cons_of_contains}
use kmflow.Proto.{button_eq, EventFrame, InputEvent, release_focus}
use kmflow.Daemon.{
  DaemonState, button_release, check_emergency_hotkey, flush_pressed_keys, key_release, next_seq,
  track_key_state,
}
use kmflow.Session.{
  Clock, Outcome, SessionContext, proceed, release_frame, send_control, send_datagram, set_grab,
}
use kmflow.Session.Captured.{on_captured, on_emergency}

hotkey-flush :
    (s : DaemonState)
    → check_emergency_hotkey s ≡ true
    → (e : InputEvent) × (es : List InputEvent) × (flush_pressed_keys s ≡ e ∷ es)
unfolding check_emergency_hotkey flush_pressed_keys
hotkey-flush s h =
    let (k, ks, e) = cons_of_contains 29 s.pressed_keys (ground arith) in
    (
      key_release k,
      map key_release ks ++ map button_release s.pressed_buttons,
      ap (λ l. map key_release l ++ map button_release s.pressed_buttons) e,
    )

release_frame_of_cons :
    (clk : Clock) (seq : ℕ) (releases : List InputEvent) (e : InputEvent) (es : List InputEvent)
    → releases ≡ e ∷ es
    → release_frame clk seq releases
      ≡ send_datagram (record { seq = seq; timestamp_us = clk.now_us; events = releases }) ∷ []
unfolding release_frame
release_frame_of_cons clk seq [] e es h = absurd (cc)
release_frame_of_cons clk seq (x ∷ xs) e es h = refl

flush_of_local :
    (s : DaemonState)
    → flush_pressed_keys (record s { focus_is_remote = false }) ≡ flush_pressed_keys s
unfolding flush_pressed_keys
flush_of_local s = refl

-- An event that completes the hotkey while the focus is remote takes it back: the grab ends, one datagram with the next number
-- releases all that is tracked as held, and the peer is told; what is tracked stays, and so do the
-- events that wait.
pub on_captured_emergency :
    (ctx : SessionContext) (clk : Clock) (sent : Bool) (s : DaemonState) (event : InputEvent)
    (queue : List InputEvent)
    → s.focus_is_remote ≡ true
    → check_emergency_hotkey (track_key_state s event) ≡ true
    → let s' = track_key_state s event in
      let seq = (s.seq_counter + 1) % two32 in
      on_captured ctx clk sent s event queue
      ≡ some (
        record {
          state = record s' { focus_is_remote = false; seq_counter = seq };
          actions =
              set_grab false
              ∷ send_datagram
                  (record { seq = seq; timestamp_us = clk.now_us; events = flush_pressed_keys s' })
              ∷ send_control release_focus
              ∷ [];
          flow = proceed;
        },
        queue,
      )
unfolding on_captured on_emergency next_seq
on_captured_emergency ctx clk sent s event queue remote down =
    let s' : DaemonState = track_key_state s event in
    let (_, _, counter, focus) = track_key_state_cursor s event in
    let remote' : s'.focus_is_remote ≡ true = focus ∙ remote in
    let (e, es, some_held) = hotkey-flush s' down in
    let framed : _ =
      release_frame_of_cons clk ((s'.seq_counter + 1) % two32) (flush_pressed_keys s') e es
        some_held in
    ground (arith, down, remote', counter, flush_of_local s', framed)

whole_of_length {ℓ} :
    {A : Type ℓ} (xs ys zs : List A) → xs ++ ys ≡ zs → length zs ≤ length xs → (ys ≡ []) × (xs ≡ zs)
whole_of_length xs [] zs e h = (refl, sym (append-nil xs) ∙ e)
whole_of_length xs (y ∷ ys) zs e h = absurd (omega (arith, ap length e, length-append xs (y ∷ ys)))

-- While the focus is remote, the hotkey is looked for only after the first event of a batch: with
-- fewer than 64 events waiting, one of which presses it, all go to the peer in one datagram and the
-- focus stays remote.
pub hotkey_missed_in_batch :
    (ctx : SessionContext) (clk : Clock) (sent : Bool) (s : DaemonState) (event : InputEvent)
    (before after : List InputEvent)
    → s.focus_is_remote ≡ true
    → check_emergency_hotkey (track_key_state s event) ≡ false
    → check_emergency_hotkey (track_all s (event ∷ before)) ≡ true
    → length (before ++ after) < 64
    → (frame : EventFrame) × (o : Outcome) × (on_captured ctx clk sent s event (before ++ after)
        ≡ some (o, []))
      × (o.actions ≡ send_datagram frame ∷ [])
      × (frame.events ≡ event ∷ (before ++ after))
      × (o.state.focus_is_remote ≡ true)
hotkey_missed_in_batch ctx clk sent s event before after remote up down short =
    let (frame, o, left_over, e, acts, kept, size, _, _, focus) =
      on_captured_forwards ctx clk sent s event (before ++ after) remote up in
    let (none_left, whole) =
      whole_of_length frame.events left_over (event ∷ (before ++ after)) kept (omega arith) in
    (frame, o, rw none_left at e, acts, whole, focus)
