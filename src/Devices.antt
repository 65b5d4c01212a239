-- ===== src/Devices.antt =====
-- Which entries of /dev/input are opened for capture, and the virtual device that replays events:
-- crates/kmflow-input/src/evdev_capture.rs (enumerate_input_devices, EvdevCapture::new),
-- x11_capture.rs (find_keyboard_devices) and evdev_emulate.rs (EvdevEmulator::new). What the kernel
-- answers is data; `String::from_utf8_lossy` is a parameter. The bits that the ioctls set are read in
-- arrays that are zero beyond them.
pub mod Bits
pub mod Own
pub mod Chosen
use kmflow.Prelude.{
  Bool, List, Option, [], false, get_or, if◌then◌else◌, length, ltb, none, not, replicate, some,
  suc, true, zero, ℕ, ◌%◌, ◌&&◌, ◌++◌, ◌-◌, ◌/◌, ◌>>=◌, ◌^◌, ◌||◌, ◌∷◌,
}
use kmflow.Prelude.Int.{pos}
use kmflow.Prelude.Eq.{nat_eq, ◌==◌}
use kmflow.Text.{bytes_eq, ascii, before_first, contains_text, starts_with}
use kmflow.Evdev.{
  EvdevCapture, btn_extra, btn_left, btn_middle, btn_right, btn_side, ev_key, ev_rel, ev_syn,
  rel_hwheel, rel_wheel, rel_x, rel_y,
}

-- An entry and the answers to the ioctls on its file, if it can be opened: `none` where one fails.
pub record InputDevice : Type 0 where
  pub file_name : List ℕ
  pub opens : Bool
  pub event_types : Option (List ℕ)  -- EVIOCGBIT(0, 4)
  pub keys : Option (List ℕ)  -- EVIOCGBIT(EV_KEY, 96)
  pub rel_axes : Option (List ℕ)  -- EVIOCGBIT(EV_REL, 4)
  pub name_bytes : Option (List ℕ)  -- EVIOCGNAME(256): as many bytes as it returns

-- The entries of the directory, unless it cannot be read; an entry may fail.
abbrev pub Entries : Type 0
Entries = Option (List (Option InputDevice))

-- `byte & (1 << bit) != 0`.
unfoldable pub test_bit : ℕ → ℕ → Bool
test_bit byte bit = byte / 2 ^ bit % 2 == 1

-- In an array of so many bytes.
unfoldable pub has_bit : ℕ → List ℕ → ℕ → Bool
unfolding test_bit
has_bit size bits n = ltb (n / 8) size && test_bit (get_or bits (n / 8) 0) (n % 8)

unfoldable pub has_event_type : InputDevice → ℕ → Bool
unfolding has_bit
has_event_type d ev_type = elim d.event_types [ none ↦ false | some bits ↦ has_bit 4 bits ev_type ]

unfoldable pub has_key : InputDevice → ℕ → Bool
unfolding has_bit
has_key d key = elim d.keys [ none ↦ false | some bits ↦ has_bit 96 bits key ]

abbrev pub key_a : ℕ
key_a = 30

abbrev pub own_name : List ℕ
own_name = ascii "KMFlow"

module _ (from_utf8_lossy : List ℕ → List ℕ) where
  -- The name ends before its first zero byte.
  unfoldable pub get_device_name : InputDevice → List ℕ
  unfolding before_first
  get_device_name d = elim d.name_bytes [
    | none ↦ []
    | some bytes ↦ from_utf8_lossy (before_first 0 bytes)
  ]

  -- A mouse or a keyboard that is not the emulator's.
  unfoldable pub is_captured : InputDevice → Bool
  unfolding starts_with has_event_type has_key get_device_name contains_text
  is_captured d =
      let has_keys = has_event_type d ev_key in
      let has_rel = has_event_type d ev_rel in
      let is_mouse = has_rel && has_key d btn_left in
      let is_keyboard = has_keys && has_key d key_a in
      starts_with d.file_name (ascii "event")
      && (d.opens
          && ((has_keys || has_rel)
              && ((is_mouse || is_keyboard) && not (contains_text (get_device_name d) own_name))))

  -- An entry that cannot be read fails the whole enumeration.
  unfoldable pub captured_entries : List (Option InputDevice) → Option (List InputDevice)
  unfolding is_captured
  captured_entries [] = some []
  captured_entries (none ∷ entries) = none
  captured_entries (some d ∷ entries) = do
    devices ← captured_entries entries
    some (if is_captured d then d ∷ devices else devices)

  unfoldable pub enumerate_input_devices : Entries → Option (List InputDevice)
  unfolding captured_entries
  enumerate_input_devices entries = entries >>= captured_entries

  -- EvdevCapture::new: what it opens, and its first state; the Booleans are whether the epoll and the
  -- event descriptor could be created.
  unfoldable pub new_capture : Entries → Bool → Bool → Option (List InputDevice × EvdevCapture)
  unfolding enumerate_input_devices
  new_capture entries epoll_created eventfd_created = do
    devices ← enumerate_input_devices entries
    elim devices [
      | [] ↦ none
      | d ∷ ds ↦
          if epoll_created && eventfd_created
          then some (
            d ∷ ds,
            record { held_keys = []; pending_dx = pos 0; pending_dy = pos 0; grabbed = false },
          )
          else none
    ]

  -- Of X11Capture: the bytes that EVIOCGNAME returned, if any, up to their number.
  unfoldable pub is_own_keyboard : Option (List ℕ) → Bool
  unfolding contains_text
  is_own_keyboard none = false
  is_own_keyboard (some []) = false
  is_own_keyboard (some (b ∷ bytes)) = contains_text (from_utf8_lossy (b ∷ bytes)) own_name

  -- Here the first bytes are tested directly; a relative axis X tells a mouse.
  unfoldable pub is_keyboard_device : InputDevice → Bool
  unfolding starts_with test_bit is_own_keyboard
  is_keyboard_device d = elim d.event_types [
    | none ↦ false
    | some types ↦ elim d.keys [
      | none ↦ false
      | some keys ↦
          starts_with d.file_name (ascii "event")
          && (d.opens
              && (test_bit (get_or types 0 0) 1
                  && (test_bit (get_or keys 3 0) 6
                      && (not (elim d.rel_axes [
                        | none ↦ false
                        | some axes ↦ test_bit (get_or axes 0 0) 0
                      ])
                          && not (is_own_keyboard d.name_bytes)))))
    ]
  ]

  -- An entry that cannot be read is skipped.
  unfoldable pub keyboard_entries : List (Option InputDevice) → List InputDevice
  unfolding is_keyboard_device
  keyboard_entries [] = []
  keyboard_entries (none ∷ entries) = keyboard_entries entries
  keyboard_entries (some d ∷ entries) =
      let devices = keyboard_entries entries in
      if is_keyboard_device d then d ∷ devices else devices

  unfoldable pub find_keyboard_devices : Entries → List InputDevice
  unfolding keyboard_entries
  find_keyboard_devices none = []
  find_keyboard_devices (some entries) = keyboard_entries entries

-- The set-up of the virtual device, in its order.
pub data UinputCall : Type 0 where
  set_evbit set_relbit set_keybit : ℕ → UinputCall
  dev_setup : List ℕ → UinputCall  -- the 80 bytes of the name
  dev_create : UinputCall

-- UI_SET_KEYBIT for the keys from..from + n - 1.
unfoldable pub set_keybits : ℕ → ℕ → List UinputCall
set_keybits n zero = []
set_keybits n (suc k) = set_keybit n ∷ set_keybits (suc n) k

abbrev pub virtual_name : List ℕ
virtual_name = ascii "KMFlow Virtual Input"

unfoldable pub setup_calls : List UinputCall
unfolding set_keybits
setup_calls =
    set_evbit ev_key
    ∷ set_evbit ev_rel
    ∷ set_evbit ev_syn
    ∷ set_relbit rel_x
    ∷ set_relbit rel_y
    ∷ set_relbit rel_wheel
    ∷ set_relbit rel_hwheel
    ∷ set_keybit btn_left
    ∷ set_keybit btn_right
    ∷ set_keybit btn_middle
    ∷ set_keybit btn_side
    ∷ set_keybit btn_extra
    ∷ (set_keybits 1 255
        ++ dev_setup (virtual_name ++ replicate (80 - length virtual_name) 0) ∷ dev_create ∷ [])

-- The calls that are made, and whether all succeed: the first that fails ends the set-up.
unfoldable pub make_calls : (UinputCall → Bool) → List UinputCall → List UinputCall × Bool
make_calls succeeds [] = ([], true)
make_calls succeeds (call ∷ calls) =
    let (made, all) = make_calls succeeds calls in
    if succeeds call then (call ∷ made, all) else (call ∷ [], false)

-- EvdevEmulator::new; the Boolean is whether /dev/uinput could be opened.
unfoldable pub new_emulator : Bool → (UinputCall → Bool) → List UinputCall × Bool
unfolding make_calls setup_calls
new_emulator opened succeeds = if opened then make_calls succeeds setup_calls else ([], false)
