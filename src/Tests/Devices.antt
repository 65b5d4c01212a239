-- ===== src/Tests/Devices.antt =====
-- Witnesses of the clipboards, of the input devices, of the capture thread and of the command line.
use Prim.Native.String.{String}
use kmflow.Prelude.{Bool, List, Option, [], arith, false, none, refl, some, suc, true, ℕ, ◌∷◌, ◌≡◌}
use kmflow.Prelude.Int.{pos, ◌+ℤ◌}
use kmflow.Proto.{ClipboardContent, ClipboardPayload, KeyState, key}
use kmflow.Clipboard.{initial_sync}
use kmflow.Clipboard.Sync.{
  AllNone, Machine, deliver, failed_write_sends_back, poll_machine, polls, sync_settles,
}
use kmflow.Evdev.{
  EvdevCapture, InputEventRaw, capture_all, ev_rel, rel_wheel, rel_x, rel_y, report, write_event,
}
use kmflow.Evdev.Motion.{capture_all_motion, event_dx, event_dy, raw_motion, sum_ℤ}
use kmflow.CaptureLoop.{Round, run_capture_loop}
use kmflow.CaptureLoop.Grabs.{
  GoesOn, TakeTurns, captured_events, passed_events, run_capture_loop_lem,
}

-- A hash that tells the empty text from the others, and two texts from each other.
abbrev length_hash : String → ℕ
length_hash String.[] = 0
length_hash (String.◌∷◌ c s) = suc (length_hash s)

abbrev machine : String → Machine
machine held = record { clipboard = held; sync = initial_sync }

sync_settles_example :
    (payload : ClipboardPayload) × ((poll_machine length_hash "desk" (machine "new")).1
      ≡ some payload)
    × ((deliver length_hash "desk" true (machine "older") payload).clipboard ≡ "new")
    × AllNone length_hash "desk"
        (polls length_hash "desk" 2 (poll_machine length_hash "desk" (machine "new")).0)
    × AllNone length_hash "desk"
        (polls length_hash "desk" 2 (deliver length_hash "desk" true (machine "older") payload))
sync_settles_example =
    sync_settles length_hash "desk" (machine "new") (machine "older") 2 (λ e. cc) (λ e. omega arith)

failed_write_sends_back_example :
    (poll_machine length_hash "desk" (
      deliver length_hash "desk" false
        (machine "older")
        (record { origin_peer_id = "laptop"; content = ClipboardContent.text "new" }))).1
    ≡ some (record { origin_peer_id = "desk"; content = ClipboardContent.text "older" })
failed_write_sends_back_example =
    failed_write_sends_back length_hash "desk" (machine "older") "laptop" "new" (λ e. cc)
      (λ e. omega arith)

abbrev at_rest : EvdevCapture
at_rest = record { held_keys = []; pending_dx = pos 0; pending_dy = pos 0; grabbed = false }

-- Two moves to the right, a report, a wheel.
abbrev jiggle : List InputEventRaw
jiggle =
    write_event ev_rel rel_x (pos 2)
    ∷ write_event ev_rel rel_x (pos 5)
    ∷ report
    ∷ write_event ev_rel rel_wheel (pos 1)
    ∷ write_event ev_rel rel_y (pos 4)
    ∷ []

capture_all_motion_example :
    let (s', events) = capture_all at_rest jiggle in
    (s'.pending_dx +ℤ sum_ℤ event_dx events ≡ pos 0 +ℤ sum_ℤ (raw_motion rel_x) jiggle)
    × (s'.pending_dy +ℤ sum_ℤ event_dy events ≡ pos 0 +ℤ sum_ℤ (raw_motion rel_y) jiggle)
capture_all_motion_example = capture_all_motion at_rest jiggle

abbrev round_of : Option Bool → Round
round_of wish = record {
  shutdown = false;
  wish = wish;
  grab_works = true;
  next_event = some (key 30 KeyState.pressed);
  received = true;
}

going : (wish : Option Bool) → GoesOn (round_of wish)
going wish = (refl, refl, (key 30 KeyState.pressed, refl), refl)

abbrev four_rounds : List Round
four_rounds =
    round_of none ∷ round_of (some true) ∷ round_of (some true) ∷ round_of (some false) ∷ []

run_capture_loop_lem_example :
    let (grabbed', calls) = run_capture_loop false four_rounds in
    (grabbed' ≡ false) × TakeTurns false calls × (passed_events calls ≡ captured_events four_rounds)
run_capture_loop_lem_example =
    run_capture_loop_lem false four_rounds
      (going none, (going (some true), (going (some true), (going (some false), tt))))
