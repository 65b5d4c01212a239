-- ===== src/X11/Keyboard.antt =====
-- x11_capture.rs: the keys that wait in the keyboard devices.
use kmflow.Prelude.{Bool, List, Option, ap, arith, false, none, refl, some, true, ℕ, ◌∙◌, ◌∷◌, ◌≡◌}
use kmflow.Prelude.Int.{◌-ℤ◌}
use kmflow.Proto.{InputEvent, KeyState, key}
use kmflow.Evdev.{InputEventRaw, ev_key, key_value, write_event}
use kmflow.X11.{X11Capture, grab_keyboards, next_key, read_key, try_read_evdev_key}

-- A press or release that a keyboard has queued.
abbrev pub typed : ℕ → KeyState → InputEventRaw
typed code state = write_event ev_key code (key_value state)

read_typed :
    (code : ℕ) (state : KeyState) (queue : List InputEventRaw) (devices : List (List InputEventRaw))
    → try_read_evdev_key ((typed code state ∷ queue) ∷ devices)
      ≡ (some (key code state), queue ∷ devices)
unfolding try_read_evdev_key read_key ◌-ℤ◌
read_typed code KeyState.pressed queue devices = refl
read_typed code KeyState.released queue devices = refl

-- Keys that were typed while the keyboard was not grabbed stay queued in their device: after a grab
-- the first of them is returned as if it had just been typed, and so goes to the peer.
pub next_key-grab_keyboards :
    (s : X11Capture) (code : ℕ) (state : KeyState) (queue : List InputEventRaw)
    (devices : List (List InputEventRaw)) (grabbed : List Bool)
    → s.kbd_grabbed ≡ false
    → s.queues ≡ (typed code state ∷ queue) ∷ devices
    → (next_key s ≡ (s, none))
      × (next_key (grab_keyboards (true ∷ grabbed) s)
          ≡ (record s { kbd_grabbed = true; queues = queue ∷ devices }, some (key code state)))
unfolding next_key grab_keyboards
next_key-grab_keyboards s code state queue devices grabbed free waiting = (
  ground (arith, free),
  ap
      (λ (r : Option InputEvent × List (List InputEventRaw)).
        (record s { kbd_grabbed = true; queues = r.1 }, r.0))
      (ap try_read_evdev_key waiting ∙ read_typed code state queue devices),
)
