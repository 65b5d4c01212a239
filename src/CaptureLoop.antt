-- ===== src/CaptureLoop.antt =====
-- crates/kmflow-daemon/src/lib.rs, run_capture_loop: the thread that grabs the pointer on request and
-- passes the captured events on; crates/kmflow-input/src/lib.rs: which capture and emulator it gets.
pub mod Grabs
use kmflow.Prelude.{
  Bool, List, Option, [], false, if◌then◌else◌, none, not, some, ℕ, ◌&&◌, ◌++◌, ◌∷◌,
}
use kmflow.Proto.{InputEvent}

pub data Backend : Type 0 where
  x11 evdev : Backend

-- DISPLAY, as a text of bytes: set to something or not.
unfoldable pub detect_backend : Option (List ℕ) → Backend
detect_backend (some (c ∷ display)) = x11
detect_backend _ = evdev

-- Which of the two could be created, for a build with both features: X11 falls back on evdev.
unfoldable pub create_capture : Backend → Bool → Bool → Option Backend
create_capture x11 x11_works evdev_works =
    if x11_works then some x11 else if evdev_works then some evdev else none
create_capture evdev x11_works evdev_works = if evdev_works then some evdev else none

-- What one round of the loop meets: the shutdown flag; the wish for a grab, if it has changed; whether
-- the grab or ungrab succeeds; the next event; and whether the session still receives.
pub record Round : Type 0 where
  pub shutdown : Bool
  pub wish : Option Bool
  pub grab_works : Bool
  pub next_event : Option InputEvent
  pub received : Bool

pub data Call : Type 0 where
  grab_pointer ungrab_pointer : Call
  pass_on : InputEvent → Call

-- The state of the grab after a wish, and the call that is made.
unfoldable pub follow_wish : Bool → Bool → Option Bool → Bool × List Call
follow_wish grab_works grabbed none = (grabbed, [])
follow_wish grab_works grabbed (some should_grab) =
    if should_grab && not grabbed
    then (grab_works, grab_pointer ∷ [])
    else if not should_grab && grabbed
    then (not grab_works, ungrab_pointer ∷ [])
    else (grabbed, [])

-- What is passed on, and whether the loop goes on.
unfoldable pub pass_event : Bool → Option InputEvent → List Call × Bool
pass_event received none = ([], false)
pass_event received (some event) = (pass_on event ∷ [], received)

unfoldable pub run_capture_loop : Bool → List Round → Bool × List Call
unfolding follow_wish pass_event
run_capture_loop grabbed [] = (grabbed, [])
run_capture_loop grabbed (round ∷ rounds) =
    let (grabbed', calls) = follow_wish round.grab_works grabbed round.wish in
    let (passed, goes_on) = pass_event round.received round.next_event in
    let (last, more) = run_capture_loop grabbed' rounds in
    if round.shutdown
    then (grabbed, [])
    else if goes_on
    then (last, calls ++ (passed ++ more))
    else (grabbed', calls ++ passed)
