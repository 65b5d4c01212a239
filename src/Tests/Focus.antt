-- ===== src/Tests/Focus.antt =====
-- Witnesses and tests of the session's loop.
use kmflow.Prelude.Int.{pos, ℤ, ◌+ℤ◌, ◌-ℤ◌}
use kmflow.Edge.Regions.{Region, hits-Region}
use kmflow.Session.Received.{in_cooldown, on_datagram, take_focus}
use kmflow.Session.Frames.{on_datagram_all_or_nothing, replayed}
use kmflow.Session.Focus.{FocusMove, grab_after}
use kmflow.Session.Turns.{step-FocusMove, step_grab}
use kmflow.Session.Bounds.{Within}
use kmflow.Prelude.{
  List, [], arith, false, length, none, refl, some, true, ◌++◌, ◌↔◌, ◌∷◌, ◌≡◌, ◌⊎◌,
}
use kmflow.Prelude.F64.{f64_as_i32, f64_as_signed, saturate, trunc}
use kmflow.Prelude.Machine.{add_i32, clamp, half_i32, sub_i32, u32_as_i32, wrap_i32}
use kmflow.Prelude.Eq.{nat_eq}
use kmflow.Proto.{
  ClipboardContent, ClipboardPayload, Edge, EventFrame, InputEvent, KeyState, key, mouse_move,
  release_focus,
}
use kmflow.HashSet.{contains, insert}
use kmflow.Edge.{at_edge, check, hits, in_corner, new}
use kmflow.Daemon.{
  DaemonState, center_cursor, check_emergency_hotkey, flush_pressed_keys, initial, key_release,
  track_key_state,
}
use kmflow.Session.{
  Action, Outcome, deliver_clipboard, proceed, replay, send_control, send_datagram, session_context,
  set_grab, switch_to_remote,
}
use kmflow.Session.Cursor.{move_axis, move_cursor, scan_events}
use kmflow.Session.Captured.{leave_screen, on_captured, track_local}
use kmflow.Session.Loop.{
  Loop, captured, clipboard_received, datagram, dispatch, main, run, step, take_captured,
}
use kmflow.Session.Bounds.Run.{Turns, initial-IsValid, run_total}
use kmflow.Pair.{Pair, Reach, a_steps, b_steps, cut_off, here, next, works}
use kmflow.Pair.Safety.{IsGuarded, Reach-IsGuarded}
use kmflow.Daemon.Tracking.{track_all}
use kmflow.Session.Forwarding.{on_captured_forwards}
use kmflow.Session.Emergency.{hotkey_missed_in_batch, on_captured_emergency}
use kmflow.Session.Return.{receive_only_no_cooldown, take_focus_cooldown}
use kmflow.Session.ReceiveOnly.{leave_screen_ungrabbed, receive_only_datagram, take_focus_ungrabbed}
use kmflow.Tests.{full_hd, full_hd-IsScreen, one_second, px, soon_after, start, to_the_right}

-- A loop with one motion to the right waiting, and the state in which it leaves the daemon.
abbrev armed : Loop
armed = record { daemon = start; queue = mouse_move (px 5000) (px 0) ∷ []; mode = main }

abbrev gone : Loop
gone = record { daemon = record start { focus_is_remote = true }; queue = []; mode = main }

abbrev leaving : List Action
leaving = set_grab true ∷ send_control switch_to_remote ∷ []

leaves : step to_the_right one_second armed (captured true) ≡ some (gone, leaving)
unfolding step dispatch take_captured on_captured track_local move_cursor move_axis hits check
    in_corner at_edge leave_screen center_cursor session_context new initial track_key_state
    check_emergency_hotkey contains clamp add_i32 sub_i32 wrap_i32 u32_as_i32 f64_as_i32
    f64_as_signed trunc saturate half_i32 ◌-ℤ◌ ◌+ℤ◌
leaves = refl

run_total_example :
    Turns full_hd
      (run to_the_right armed ((one_second, captured true) ∷ (soon_after, datagram none) ∷ []))
unfolding session_context initial
run_total_example =
    run_total to_the_right full_hd-IsScreen armed
      ((one_second, captured true) ∷ (soon_after, datagram none) ∷ [])
      (initial-IsValid full_hd 0 full_hd-IsScreen)

-- Both machines wait with the same motion; the left one takes the first turn.
abbrev side_by_side : Pair
side_by_side = record { a = armed; b = armed; to_a = []; to_b = [] }

abbrev handed_over : Pair
handed_over = record { a = gone; b = armed; to_a = []; to_b = switch_to_remote ∷ [] }

hands_over : Reach false to_the_right to_the_right side_by_side handed_over
hands_over = next here (
    a_steps (switch_to_remote ∷ []) (works one_second (captured true) leaving refl leaves refl refl)
      refl refl)

Reach-IsGuarded_example : IsGuarded handed_over
unfolding initial
Reach-IsGuarded_example =
    Reach-IsGuarded to_the_right to_the_right side_by_side handed_over (λ h k. absurd (cc))
      hands_over

-- Each machine hands over to the other, and each receive is cut off half-way: on the right by the
-- captured motion, on the left by a clipboard.
abbrev copied : ClipboardPayload
copied = record { origin_peer_id = "laptop"; content = ClipboardContent.text "new" }

abbrev half_read : Pair
half_read = record { a = gone; b = gone; to_a = switch_to_remote ∷ []; to_b = [] }

abbrev both_gone : Pair
both_gone = record { a = gone; b = gone; to_a = []; to_b = [] }

loses_both : Reach true to_the_right to_the_right side_by_side both_gone
unfolding step dispatch
loses_both =
    let a_left : Reach true to_the_right to_the_right side_by_side handed_over = next here (
      a_steps (switch_to_remote ∷ [])
        (works one_second (captured true) leaving refl leaves refl refl) refl refl) in
    let b_left : Reach true to_the_right to_the_right side_by_side half_read = next a_left (
      b_steps (switch_to_remote ∷ [])
        (cut_off one_second (captured true) leaving switch_to_remote [] refl (λ e. cc e) refl refl
          refl leaves refl)
        refl refl) in
    next b_left (
      a_steps []
        (cut_off soon_after (clipboard_received copied) (deliver_clipboard copied ∷ [])
          switch_to_remote [] refl (λ e. cc e) refl refl refl refl refl)
        refl refl)

-- Then neither has its input, and nothing is under way that would give it back.
both_gone_stays : ¬ IsGuarded both_gone
both_gone_stays guarded = omega (arith, guarded refl refl)

step-FocusMove_example : FocusMove false true leaving
unfolding initial
step-FocusMove_example =
    step-FocusMove to_the_right one_second armed (captured true) (gone, leaving) leaves

step_grab_example : grab_after false leaving ≡ true
unfolding initial
step_grab_example =
    step_grab to_the_right one_second armed (captured true) (gone, leaving) refl leaves

-- Three keys are down but for the last: Ctrl, Alt; the focus is at the peer.
abbrev two_keys_down : DaemonState
two_keys_down = record start { focus_is_remote = true; pressed_keys = 56 ∷ 29 ∷ [] }

abbrev esc : InputEvent
esc = key 1 KeyState.pressed

abbrev letter : InputEvent
letter = key 30 KeyState.pressed

on_captured_forwards_example :
    (frame : EventFrame) × (o : Outcome) × (left_over : List InputEvent) × (on_captured to_the_right
        one_second true two_keys_down letter
        (letter ∷ [])
      ≡ some (o, left_over))
    × (o.actions ≡ send_datagram frame ∷ [])
    × (frame.events ++ left_over ≡ letter ∷ letter ∷ [])
    × (length frame.events ≡ 2)
    × (frame.seq ≡ 1)
    × (o.state ≡ record (track_all two_keys_down frame.events) { seq_counter = frame.seq })
    × (o.state.focus_is_remote ≡ true)
unfolding initial check_emergency_hotkey contains track_key_state insert
on_captured_forwards_example =
    on_captured_forwards to_the_right one_second true two_keys_down letter (letter ∷ []) refl refl

on_captured_emergency_example :
    on_captured to_the_right one_second true two_keys_down esc (letter ∷ [])
    ≡ some (
      record {
        state = record two_keys_down {
          focus_is_remote = false;
          pressed_keys = 1 ∷ 56 ∷ 29 ∷ [];
          seq_counter = 1;
        };
        actions =
            set_grab false
            ∷ send_datagram (record {
              seq = 1;
              timestamp_us = 1000000;
              events = key_release 1 ∷ key_release 56 ∷ key_release 29 ∷ [];
            })
            ∷ send_control release_focus
            ∷ [];
        flow = proceed;
      },
      letter ∷ [],
    )
unfolding initial check_emergency_hotkey contains track_key_state insert flush_pressed_keys
on_captured_emergency_example =
    on_captured_emergency to_the_right one_second true two_keys_down esc (letter ∷ []) refl refl

hotkey_missed_in_batch_example :
    (frame : EventFrame) × (o : Outcome) × (on_captured to_the_right one_second true two_keys_down
        letter
        (esc ∷ [])
      ≡ some (o, []))
    × (o.actions ≡ send_datagram frame ∷ [])
    × (frame.events ≡ letter ∷ esc ∷ [])
    × (o.state.focus_is_remote ≡ true)
unfolding initial check_emergency_hotkey contains track_key_state insert track_all
hotkey_missed_in_batch_example =
    hotkey_missed_in_batch to_the_right one_second true two_keys_down letter (esc ∷ []) [] refl refl
      refl (omega arith)

abbrev flick : EventFrame
flick = record { seq = 7; timestamp_us = 5; events = mouse_move (px 5000) (px 0) ∷ [] }

take_focus_cooldown_example :
    let s' = (take_focus to_the_right one_second gone.daemon).state in
    (x y : ℤ) × Within 1920 x
    × Within 1080 y
    × (on_datagram to_the_right soon_after s' (some flick)
        ≡ some (record {
          state = record s' { cursor_x = x; cursor_y = y };
          actions = replay to_the_right flick.events;
          flow = proceed;
        }))
unfolding session_context initial
take_focus_cooldown_example =
    take_focus_cooldown to_the_right one_second soon_after gone.daemon flick full_hd-IsScreen
      (omega arith)

receive_only_no_cooldown_example :
    receive_only_datagram to_the_right one_second
      (take_focus_ungrabbed to_the_right gone.daemon).state
      (some flick)
    ≡ some (
        leave_screen_ungrabbed to_the_right
          (record start { cursor_x = pos 1919; cursor_y = pos 540 }))
unfolding take_focus_ungrabbed scan_events move_cursor move_axis hits check in_corner at_edge
    center_cursor session_context new initial clamp add_i32 sub_i32 wrap_i32 u32_as_i32 f64_as_i32
    f64_as_signed trunc saturate half_i32 ◌-ℤ◌ ◌+ℤ◌
receive_only_no_cooldown_example =
    receive_only_no_cooldown to_the_right one_second gone.daemon
      (record start { cursor_x = pos 1919; cursor_y = pos 540 }) flick (omega arith) refl

hits-Region_example :
    (hits (new full_hd Edge.right) (pos 1919) (pos 540) ≡ true) ↔ Region full_hd Edge.right 1919 540
hits-Region_example =
    hits-Region full_hd full_hd-IsScreen Edge.right 1919 540 (omega arith) (omega arith)

-- A key of the peer is released behind a motion that reaches the edge.
abbrev release_at_edge : EventFrame
release_at_edge = record {
  seq = 1;
  timestamp_us = 0;
  events = mouse_move (px 5000) (px 0) ∷ key 30 KeyState.released ∷ [];
}

abbrev sent_back : Outcome
sent_back = record { state = gone.daemon; actions = leaving; flow = proceed }

goes_back : on_datagram to_the_right one_second start (some release_at_edge) ≡ some sent_back
unfolding on_datagram in_cooldown scan_events move_cursor move_axis hits check in_corner at_edge
    leave_screen center_cursor session_context new initial clamp add_i32 sub_i32 wrap_i32 u32_as_i32
    f64_as_i32 f64_as_signed trunc saturate half_i32 ◌-ℤ◌ ◌+ℤ◌
goes_back = refl

on_datagram_all_or_nothing_example :
    ((true ≡ false) × (replayed leaving ≡ release_at_edge.events))
    ⊎ ((true ≡ true) × (replayed leaving ≡ []))
unfolding initial session_context
on_datagram_all_or_nothing_example =
    on_datagram_all_or_nothing to_the_right one_second start release_at_edge sent_back refl refl
      goes_back
