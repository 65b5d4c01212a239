-- ===== src/X11.antt =====
-- crates/kmflow-input/src/x11_capture.rs and x11_emulate.rs: raw events of the XInput extension, the
-- keyboard devices that are read while the keyboard is grabbed, and the fake input of XTest.
pub mod Replay
pub mod RawMotion
pub mod Keyboard
pub mod Grab
use kmflow.Prelude.{
  Bool, List, Option, [], false, get_elem?, if◌then◌else◌, leb, ltb, none, not, some, suc, true,
  zero, ℕ, ◌%◌, ◌&&◌, ◌*◌, ◌++◌, ◌+◌, ◌-◌, ◌/◌, ◌||◌, ◌∷◌,
}
use kmflow.Prelude.Eq.{nat_eq, ◌==◌}
use kmflow.Prelude.Int.{neg_part, negsuc, pos, pos_part, sub_ℕ, ℤ, ◌-ℤ◌}
use kmflow.Prelude.F64.{
  F64, dyadic, f64_as_i16, f64_as_i32, f64_is_neg, f64_is_nonzero, f64_is_pos, f64_zero, neg_f64,
}
use kmflow.Prelude.Machine.{two32}
use kmflow.Proto.{
  ButtonState, InputEvent, KeyState, MouseButton, back, forward, key, middle, mouse_button,
  mouse_move, scroll,
}
use kmflow.Evdev.{InputEventRaw, ev_key, is_zero}

-- A 32.32 fixed point number. Its f64 is exact below 2^20 in size.
pub record Fp3232 : Type 0 where
  pub integral : ℤ
  pub frac : ℕ

unfoldable pub fp3232_to_f64 : Fp3232 → F64
fp3232_to_f64 v =
    dyadic (sub_ℕ (pos_part v.integral * two32 + v.frac) (neg_part v.integral * two32)) 32

abbrev pub value_or : F64 → Option Fp3232 → F64
value_or old none = old
value_or old (some v) = fp3232_to_f64 v

-- Where the scan of a mask stands: the index of the next value, and the motion found.
pub record Scan : Type 0 where
  pub value_idx : ℕ
  pub dx : F64
  pub dy : F64

unfoldable pub take_axis : List Fp3232 → ℕ → Scan → Scan
take_axis values number s = record {
  value_idx = suc s.value_idx;
  dx = if number == 0 then value_or s.dx (get_elem? values s.value_idx) else s.dx;
  dy = if number == 1 then value_or s.dy (get_elem? values s.value_idx) else s.dy;
}

-- The bits of one word that are left, lowest first; `number` is the axis of the next. The loop over
-- a word ends at the first bit that is set beyond the first two axes.
unfoldable pub scan_word : List Fp3232 → ℕ → ℕ → ℕ → Scan → Scan
unfolding take_axis
scan_word values zero word number s = s
scan_word values (suc bits) word number s =
    let s' : Scan = if word % 2 == 0 then s else take_axis values number s in
    let rest = scan_word values bits (word / 2) (suc number) s' in
    if not (word % 2 == 0) && ltb 1 number then s' else rest

unfoldable pub scan_mask : List Fp3232 → List ℕ → ℕ → Scan → Scan
scan_mask values [] number s = s
scan_mask values (word ∷ mask) number s =
    scan_mask values mask (number + 32) (scan_word values 32 word number s)

unfoldable pub extract_raw_motion_values : List ℕ → List Fp3232 → F64 × F64
extract_raw_motion_values mask values =
    let s : Scan =
      scan_mask values mask 0 (record { value_idx = 0; dx = f64_zero; dy = f64_zero }) in
    (s.dx, s.dy)

pub data XEvent : Type 0 where
  raw_motion : List ℕ → List Fp3232 → XEvent  -- valuator_mask, axisvalues_raw
  raw_button_press raw_button_release raw_key_press raw_key_release : ℕ → XEvent  -- detail
  other : XEvent

unfoldable pub map_x11_button : ℕ → Option MouseButton
map_x11_button b =
    if b == 1
    then some MouseButton.left
    else if b == 2
    then some middle
    else if b == 3
    then some MouseButton.right
    else if b == 8
    then some back
    else if b == 9
    then some forward
    else none

abbrev one : F64
one = dyadic (pos 1) 0

abbrev minus_one : F64
minus_one = dyadic (negsuc 0) 0

unfoldable pub scroll_of : ℕ → InputEvent
scroll_of detail =
    if detail == 4
    then scroll f64_zero minus_one
    else if detail == 5
    then scroll f64_zero one
    else if detail == 6
    then scroll minus_one f64_zero
    else scroll one f64_zero

abbrev pub button_event : Option MouseButton → ButtonState → Option InputEvent
button_event none state = none
button_event (some button) state = some (mouse_button button state)

-- What the capture makes of an event of the X server.
unfoldable pub on_x11 : Bool → XEvent → Option InputEvent
unfolding extract_raw_motion_values map_x11_button scroll_of
on_x11 kbd_grabbed (raw_motion mask values) =
    let (dx, dy) = extract_raw_motion_values mask values in
    if f64_is_nonzero dx || f64_is_nonzero dy then some (mouse_move dx dy) else none
on_x11 kbd_grabbed (raw_button_press detail) =
    if leb 4 detail && leb detail 7
    then some (scroll_of detail)
    else button_event (map_x11_button detail) ButtonState.pressed
on_x11 kbd_grabbed (raw_button_release detail) =
    if leb 4 detail && leb detail 7
    then none
    else button_event (map_x11_button detail) ButtonState.released
on_x11 kbd_grabbed (raw_key_press keycode) =
    if kbd_grabbed then none else some (key (keycode - 8) KeyState.pressed)
on_x11 kbd_grabbed (raw_key_release keycode) =
    if kbd_grabbed then none else some (key (keycode - 8) KeyState.released)
on_x11 kbd_grabbed other = none

-- A keyboard device: the first event of a key that is no autorepeat, and what stays to be read.
abbrev key_state_of : Bool → KeyState
key_state_of true = KeyState.released
key_state_of false = KeyState.pressed

unfoldable pub read_key : List InputEventRaw → Option InputEvent × List InputEventRaw
read_key [] = (none, [])
read_key (raw ∷ queue) =
    let rest = read_key queue in
    if raw.type_ == ev_key && not (is_zero (raw.value -ℤ pos 2))
    then (some (key raw.code (key_state_of (is_zero raw.value))), queue)
    else rest

unfoldable pub try_read_evdev_key :
    List (List InputEventRaw) → Option InputEvent × List (List InputEventRaw)
unfolding read_key
try_read_evdev_key [] = (none, [])
try_read_evdev_key (queue ∷ devices) =
    let (event, queue') = read_key queue in
    let (later, devices') = try_read_evdev_key devices in
    elim event [ none ↦ (later, queue' ∷ devices') | some e ↦ (some e, queue' ∷ devices) ]

-- The capture's own state: whether it holds the keyboards, and what they have queued.
pub record X11Capture : Type 0 where
  pub kbd_grabbed : Bool
  pub queues : List (List InputEventRaw)

-- The first that is looked at in `next_event`: the keyboards, while they are grabbed.
unfoldable pub next_key : X11Capture → X11Capture × Option InputEvent
next_key s =
    let (event, queues) = try_read_evdev_key s.queues in
    if s.kbd_grabbed then (record s { queues = queues }, event) else (s, none)

-- `grabbed` says which of the keyboards could be grabbed.
abbrev any : List Bool → Bool
any [] = false
any (b ∷ bs) = b || any bs

unfoldable pub grab_keyboards : List Bool → X11Capture → X11Capture
grab_keyboards grabbed s = if any grabbed then record s { kbd_grabbed = true } else s

unfoldable pub ungrab_keyboards : X11Capture → X11Capture
ungrab_keyboards s = record s { kbd_grabbed = false }

-- The emulator: the type, detail and motion of each `fake_input`.
pub record FakeInput : Type 0 where
  pub type_ : ℕ
  pub detail : ℕ
  pub root_x : ℤ
  pub root_y : ℤ

abbrev fake : ℕ → ℕ → FakeInput
fake type_ detail = record { type_ = type_; detail = detail; root_x = pos 0; root_y = pos 0 }

unfoldable pub fake_button_click : ℕ → List FakeInput
fake_button_click button = fake 4 button ∷ fake 5 button ∷ []

unfoldable pub clicks : ℕ → ℕ → List FakeInput
unfolding fake_button_click
clicks zero button = []
clicks (suc n) button = fake_button_click button ++ clicks n button

-- `0..(amount as i32).max(1)`.
abbrev pub click_count : F64 → ℕ
click_count amount =
    if leb (pos_part (f64_as_i32 amount)) 1 then 1 else pos_part (f64_as_i32 amount)

unfoldable pub scroll_axis : F64 → ℕ → ℕ → List FakeInput
unfolding clicks
scroll_axis amount backward onward =
    if f64_is_neg amount
    then clicks (click_count (neg_f64 amount)) backward
    else if f64_is_pos amount
    then clicks (click_count amount) onward
    else []

unfoldable pub x11_button : MouseButton → ℕ
x11_button MouseButton.left = 1
x11_button middle = 2
x11_button MouseButton.right = 3
x11_button back = 8
x11_button forward = 9

abbrev pub button_type : ButtonState → ℕ
button_type ButtonState.pressed = 4
button_type ButtonState.released = 5

abbrev pub key_type : KeyState → ℕ
key_type KeyState.pressed = 2
key_type KeyState.released = 3

unfoldable pub emit : InputEvent → List FakeInput
unfolding scroll_axis x11_button
emit (mouse_move dx dy) =
    record { type_ = 6; detail = 0; root_x = f64_as_i16 dx; root_y = f64_as_i16 dy } ∷ []
emit (mouse_button button state) = fake (button_type state) (x11_button button) ∷ []
emit (scroll dx dy) = scroll_axis dy 4 5 ++ scroll_axis dx 6 7
emit (key scancode state) = fake (key_type state) ((scancode + 8) % two32 % 256) ∷ []
