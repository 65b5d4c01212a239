-- ===== src/Tests/Held.antt =====
-- Witnesses of key tracking.
use kmflow.Prelude.{List, [], false, ℕ, ◌++◌, ◌∷◌, ◌≡◌}
use kmflow.Prelude.Eq.{nat_eq}
use kmflow.Proto.{button_eq, ButtonState, InputEvent, KeyState, MouseButton, key, mouse_button}
use kmflow.Daemon.{DaemonState, flush_pressed_keys}
use kmflow.Daemon.Tracking.{button_held, flush_pressed_keys-empties, key_held, track_all}
use kmflow.HashSet.{contains}
use kmflow.Tests.{start}

-- Ctrl, Alt and the left button are held.
abbrev holding : DaemonState
holding = record start { pressed_keys = 56 ∷ 29 ∷ []; pressed_buttons = MouseButton.left ∷ [] }

-- On the way Alt is released, and the left button is released and pressed again.
abbrev on_the_way : List InputEvent
on_the_way =
    key 56 KeyState.released
    ∷ mouse_button MouseButton.left ButtonState.released
    ∷ mouse_button MouseButton.left ButtonState.pressed
    ∷ []

flush_pressed_keys-empties_example :
    let replayed = on_the_way ++ flush_pressed_keys (track_all holding on_the_way) in
    ((k : ℕ) → key_held k (contains (56 ∷ 29 ∷ []) k) replayed ≡ false)
    × ((b : MouseButton) → button_held b (contains (MouseButton.left ∷ []) b) replayed ≡ false)
flush_pressed_keys-empties_example =
    flush_pressed_keys-empties holding on_the_way (λ k. contains (56 ∷ 29 ∷ []) k)
      (λ b. contains (MouseButton.left ∷ []) b) (λ k h. h) (λ b h. h)
