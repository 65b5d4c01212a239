-- ===== src/Evdev/Replay.antt =====
-- evdev_emulate.rs and evdev_capture.rs: what one machine writes to its virtual device reads as the
-- event that the other captured.
use kmflow.Prelude.{[], false, leb, ℕ, ◌&&◌, ◌<◌, ◌∷◌, ◌≡◌}
use kmflow.Prelude.Eq.{nat_eq}
use kmflow.Prelude.Int.{neg_part, ℤ}
use kmflow.Prelude.F64.{f64_of_i32, f64_zero, neg_f64}
use kmflow.Prelude.Machine.{IsI32, two31}
use kmflow.Proto.{
  ButtonState, InputEvent, KeyState, MouseButton, key, mouse_button, mouse_move, scroll,
}
use kmflow.Evdev.RawEvents.{IsIdle}
use kmflow.Evdev.{EvdevCapture, capture_all, emit, is_zero}

-- The events that a capture returns: motion by whole numbers of pixels, not by none in both
-- directions; scrolling along one axis, not by the least i32; a key that is no button.
pub data IsCaptured : InputEvent → Type 0 where
  moved :
      (a b : ℤ)
      → IsI32 a
      → IsI32 b
      → (is_zero a && is_zero b) ≡ false
      → IsCaptured (mouse_move (f64_of_i32 a) (f64_of_i32 b))
  clicked : (button : MouseButton) (state : ButtonState) → IsCaptured (mouse_button button state)
  wheeled :
      (v : ℤ)
      → IsI32 v
      → neg_part v < two31
      → is_zero v ≡ false
      → IsCaptured (scroll f64_zero (neg_f64 (f64_of_i32 v)))
  tilted : (v : ℤ) → IsI32 v → is_zero v ≡ false → IsCaptured (scroll (f64_of_i32 v) f64_zero)
  typed :
      (scancode : ℕ) (state : KeyState)
      → scancode < 65536
      → (leb 272 scancode && leb scancode 276) ≡ false
      → IsCaptured (key scancode state)

module _ (s : EvdevCapture) (idle : IsIdle s) where
  abbrev Replays : InputEvent → Type 0
  Replays event = (s' : EvdevCapture) × (capture_all s (emit event) ≡ (s', event ∷ [])) × IsIdle s'
