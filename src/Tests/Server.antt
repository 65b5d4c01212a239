-- ===== src/Tests/Server.antt =====
-- Witnesses of the X11 capture and emulator.
use kmflow.Prelude.{Bool, [], false, none, refl, some, true, ◌∷◌, ◌≡◌}
use kmflow.Proto.{KeyState, key}
use kmflow.X11.{X11Capture, next_key}
use kmflow.X11.Grab.{
  Grabbing, IsConfined, IsFree, XRequest, grab_pointer, grab_pointer_lem, ungrab_pointer,
}
use kmflow.X11.Keyboard.{typed as queued}

-- A key waits in the keyboard's queue.
abbrev waiting : X11Capture
waiting = record { kbd_grabbed = false; queues = (queued 30 KeyState.pressed ∷ []) ∷ [] }

abbrev loose : Grabbing
loose = record { mapped = false; focused = false; confined = false; capture = waiting }

abbrev always : XRequest → Bool
always r = true

grab_pointer_lem_example :
    let (held, got) = grab_pointer always true (true ∷ []) loose in
    let (free, done) = ungrab_pointer always held in
    (got ≡ true
      → (◌≡◌ {A = Bool} true true)
        × IsConfined held
        × ((next_key held.capture).1 ≡ some (key 30 KeyState.pressed)))
    × (◌≡◌ {A = Bool} true false → (got ≡ false) × (held.capture ≡ loose.capture))
    × (done ≡ true → IsFree free × ((next_key free.capture).1 ≡ none))
grab_pointer_lem_example =
    grab_pointer_lem always always true [] loose 30 KeyState.pressed [] [] refl refl

grab_and_ungrab :
    ((grab_pointer always true (true ∷ []) loose).1 ≡ true)
    × ((ungrab_pointer always (grab_pointer always true (true ∷ []) loose).0).1 ≡ true)
unfolding grab_pointer ungrab_pointer
grab_and_ungrab = (refl, refl)
