-- ===== src/Evdev.antt =====
-- crates/kmflow-input/src/evdev_capture.rs and evdev_emulate.rs: events of the Linux kernel, read from
-- input devices and written to a virtual one. A raw event is its type, code and value; the
-- emulator's time stamps are 0, and the capture does not read them.
pub mod Motion
pub mod RawEvents
pub mod Replay
use kmflow.Prelude.{
  Bool, List, Option, [], false, if◌then◌else◌, leb, none, not, some, true, ℕ, ◌%◌, ◌&&◌, ◌++◌,
  ◌||◌, ◌∷◌,
}
use kmflow.Prelude.Eq.{nat_eq, ◌==◌}
use kmflow.Prelude.Int.{ltb_ℤ, neg_ℤ, pos, ℤ, ◌+ℤ◌, ◌-ℤ◌}
use kmflow.Prelude.F64.{F64, f64_as_i32, f64_is_nonzero, f64_of_i32, f64_zero, neg_f64}
use kmflow.Prelude.Machine.{wrap_i32}
use kmflow.HashSet.{insert, remove}
use kmflow.Proto.{
  ButtonState, InputEvent, KeyState, MouseButton, back, forward, key, middle, mouse_button,
  mouse_move, scroll,
}

abbrev pub ev_syn : ℕ
ev_syn = 0x00

abbrev pub ev_key : ℕ
ev_key = 0x01

abbrev pub ev_rel : ℕ
ev_rel = 0x02

abbrev pub syn_report : ℕ
syn_report = 0x00

abbrev pub rel_x : ℕ
rel_x = 0x00

abbrev pub rel_y : ℕ
rel_y = 0x01

abbrev pub rel_wheel : ℕ
rel_wheel = 0x08

abbrev pub rel_hwheel : ℕ
rel_hwheel = 0x06

abbrev pub btn_left : ℕ
btn_left = 0x110

abbrev pub btn_right : ℕ
btn_right = 0x111

abbrev pub btn_middle : ℕ
btn_middle = 0x112

abbrev pub btn_side : ℕ
btn_side = 0x113

abbrev pub btn_extra : ℕ
btn_extra = 0x114

pub record InputEventRaw : Type 0 where
  pub type_ : ℕ
  pub code : ℕ
  pub value : ℤ

-- The motion that is pending is a sum of i32 values in an f64, which is exact, hence an integer here,
-- as long as it keeps below 2^53 in size.
pub record EvdevCapture : Type 0 where
  pub held_keys : List ℕ
  pub pending_dx : ℤ
  pub pending_dy : ℤ
  pub grabbed : Bool

abbrev pub is_zero : ℤ → Bool
is_zero v = not (ltb_ℤ v (pos 0) || ltb_ℤ (pos 0) v)

unfoldable pub button_of : ℕ → Option MouseButton
button_of code =
    if code == btn_left
    then some MouseButton.left
    else if code == btn_right
    then some MouseButton.right
    else if code == btn_middle
    then some middle
    else if code == btn_side
    then some back
    else if code == btn_extra
    then some forward
    else none

abbrev pub button_state : Bool → ButtonState
button_state true = ButtonState.pressed
button_state false = ButtonState.released

-- A key event other than a button: value 2 is autorepeat.
unfoldable pub translate_key : ℕ → ℤ → List ℕ → List ℕ × Option InputEvent
translate_key code value held_keys =
    if is_zero (value -ℤ pos 2)
    then (held_keys, none)
    else if is_zero value
    then (remove code held_keys, some (key code KeyState.released))
    else (insert code held_keys, some (key code KeyState.pressed))

unfoldable pub translate_key_event : ℕ → ℤ → List ℕ → List ℕ × Option InputEvent
unfolding button_of translate_key
translate_key_event code value held_keys =
    if leb btn_left code && leb code btn_extra
    then elim (button_of code) [
      | none ↦ (held_keys, none)
      | some button ↦ (held_keys, some (mouse_button button (button_state (not (is_zero value)))))
    ]
    else translate_key code value held_keys

-- The arms of the match on a raw event: the new state, and the event that is returned, if any.
unfoldable pub on_syn : EvdevCapture → ℕ → EvdevCapture × Option InputEvent
on_syn s code =
    if code == syn_report && not (is_zero s.pending_dx && is_zero s.pending_dy)
    then (
      record s { pending_dx = pos 0; pending_dy = pos 0 },
      some (mouse_move (f64_of_i32 s.pending_dx) (f64_of_i32 s.pending_dy)),
    )
    else (s, none)

unfoldable pub on_rel : EvdevCapture → ℕ → ℤ → EvdevCapture × Option InputEvent
on_rel s code value =
    if code == rel_x
    then (record s { pending_dx = s.pending_dx +ℤ value }, none)
    else if code == rel_y
    then (record s { pending_dy = s.pending_dy +ℤ value }, none)
    else if code == rel_wheel
    then (s, some (scroll f64_zero (neg_f64 (f64_of_i32 value))))
    else if code == rel_hwheel
    then (s, some (scroll (f64_of_i32 value) f64_zero))
    else (s, none)

unfoldable pub on_raw : EvdevCapture → InputEventRaw → EvdevCapture × Option InputEvent
unfolding on_syn on_rel translate_key_event
on_raw s raw =
    if raw.type_ == ev_syn
    then on_syn s raw.code
    else if raw.type_ == ev_rel
    then on_rel s raw.code raw.value
    else if raw.type_ == ev_key
    then (let (held_keys, event) = translate_key_event raw.code raw.value s.held_keys in
        (record s { held_keys = held_keys }, event))
    else (s, none)

-- `next_event`, called again and again while there is something to read: all that it returns.
abbrev pub prepend : {A : Type 0} → Option A → List A → List A
prepend none xs = xs
prepend (some x) xs = x ∷ xs

unfoldable pub capture_all : EvdevCapture → List InputEventRaw → EvdevCapture × List InputEvent
capture_all s [] = (s, [])
capture_all s (raw ∷ raws) =
    let (s', event) = on_raw s raw in
    let (s'', events) = capture_all s' raws in (s'', prepend event events)

-- The two grabs, which act once: the new state and the value for the ioctl on each device, if any.
unfoldable pub grab_pointer : EvdevCapture → EvdevCapture × Option ℕ
grab_pointer s = if s.grabbed then (s, none) else (record s { grabbed = true }, some 1)

unfoldable pub ungrab_pointer : EvdevCapture → EvdevCapture × Option ℕ
ungrab_pointer s =
    if s.grabbed then (record s { grabbed = false; held_keys = [] }, some 0) else (s, none)

-- The emulator.
abbrev pub write_event : ℕ → ℕ → ℤ → InputEventRaw
write_event type_ code value = record { type_ = type_; code = code; value = value }

abbrev pub report : InputEventRaw
report = write_event ev_syn syn_report (pos 0)

-- A relative axis, unless its value is 0.0.
abbrev pub axis : ℕ → F64 → ℤ → List InputEventRaw
axis code amount value = if f64_is_nonzero amount then write_event ev_rel code value ∷ [] else []

unfoldable pub button_code : MouseButton → ℕ
button_code MouseButton.left = btn_left
button_code MouseButton.right = btn_right
button_code middle = btn_middle
button_code back = btn_side
button_code forward = btn_extra

abbrev pub button_value : ButtonState → ℤ
button_value ButtonState.pressed = pos 1
button_value ButtonState.released = pos 0

abbrev pub key_value : KeyState → ℤ
key_value KeyState.pressed = pos 1
key_value KeyState.released = pos 0

-- The raw events that `emit` writes; `-(dy as i32)` wraps.
unfoldable pub emit : InputEvent → List InputEventRaw
unfolding button_code
emit (mouse_move dx dy) =
    axis rel_x dx (f64_as_i32 dx) ++ (axis rel_y dy (f64_as_i32 dy) ++ report ∷ [])
emit (mouse_button button state) =
    write_event ev_key (button_code button) (button_value state) ∷ report ∷ []
emit (scroll dx dy) =
    axis rel_wheel dy (wrap_i32 (neg_ℤ (f64_as_i32 dy)))
    ++ (axis rel_hwheel dx (f64_as_i32 dx) ++ report ∷ [])
emit (key scancode state) = write_event ev_key (scancode % 65536) (key_value state) ∷ report ∷ []
