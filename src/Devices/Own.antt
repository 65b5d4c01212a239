-- ===== src/Devices/Own.antt =====
-- The virtual device that replays events is not captured: what is replayed is not sent back.
use kmflow.Prelude.{
  >>=-eq-some, All, Bool-cases, List, Option, [], ap, arith, false, if◌then◌else◌, inl, inr, none,
  refl, some, true, ℕ, ◌++◌, ◌<◌, ◌∙◌, ◌∷◌, ◌≡◌,
}
use kmflow.Prelude.Eq.{nat_eq}
use kmflow.Text.{bytes_eq, before_first, contains_text}
use kmflow.Devices.{
  Entries, InputDevice, UinputCall, captured_entries, dev_setup, enumerate_input_devices,
  find_keyboard_devices, get_device_name, is_captured, is_keyboard_device, is_own_keyboard,
  keyboard_entries, own_name, set_keybits, setup_calls, virtual_name,
}

-- Lossy decoding keeps ASCII text, and makes none.
abbrev pub KeepsAscii : (List ℕ → List ℕ) → Type 0
KeepsAscii from_utf8_lossy =
    (pattern bytes : List ℕ)
    → All (λ c. c < 128) pattern
    → contains_text (from_utf8_lossy bytes) pattern ≡ contains_text bytes pattern

-- The name that the calls give to the device.
abbrev pub created_name : List UinputCall → List ℕ
created_name [] = []
created_name (dev_setup name ∷ calls) = before_first 0 name
created_name (_ ∷ calls) = created_name calls

-- The kernel reports the name with a zero byte behind it.
abbrev pub IsOwn : InputDevice → Type 0
IsOwn d = d.name_bytes ≡ some (created_name setup_calls ++ 0 ∷ [])

-- Not the emulator's device.
abbrev pub NotOwn : InputDevice → Type 0
NotOwn d = ¬ (IsOwn d)

created_virtual : created_name setup_calls ≡ virtual_name
unfolding setup_calls set_keybits before_first
created_virtual = refl

virtual_own : contains_text virtual_name own_name ≡ true
unfolding contains_text
virtual_own = refl

module _ (from_utf8_lossy : List ℕ → List ℕ) (keeps : KeepsAscii from_utf8_lossy) (d : InputDevice)
    (own : IsOwn d) where
  reports : d.name_bytes ≡ some (virtual_name ++ 0 ∷ [])
  reports = own ∙ ap (λ (name : List ℕ). some (name ++ 0 ∷ [])) created_virtual

  named_own : contains_text (get_device_name from_utf8_lossy d) own_name ≡ true
  unfolding get_device_name before_first
  named_own =
      rw (reports, get_device_name) (keeps own_name virtual_name (omega arith) ∙ virtual_own)

  own_keyboard : is_own_keyboard from_utf8_lossy d.name_bytes ≡ true
  unfolding is_own_keyboard
  own_keyboard =
      rw (reports, is_own_keyboard) (keeps own_name (virtual_name ++ 0 ∷ []) (omega arith) ∙ refl)

  own_not_captured : is_captured from_utf8_lossy d ≡ false
  unfolding is_captured
  own_not_captured = ground (arith, named_own)

  own_not_keyboard : is_keyboard_device from_utf8_lossy d ≡ false
  unfolding is_keyboard_device
  own_not_keyboard = ground (arith, own_keyboard)

module _ (from_utf8_lossy : List ℕ → List ℕ) (keeps : KeepsAscii from_utf8_lossy) where
  kept-NotOwn :
      (d : InputDevice) (devices : List InputDevice)
      → All NotOwn devices
      → All NotOwn (if is_captured from_utf8_lossy d then d ∷ devices else devices)
  kept-NotOwn d devices h = elim (Bool-cases (is_captured from_utf8_lossy d)) [
    | inl found ↦
        rw found (
          (λ (own : IsOwn d). absurd (cc (found, own_not_captured from_utf8_lossy keeps d own))),
          h,
        )
    | inr skipped ↦ rw skipped h
  ]

  captured_entries-NotOwn :
      (entries : List (Option InputDevice)) (devices : List InputDevice)
      → captured_entries from_utf8_lossy entries ≡ some devices
      → All NotOwn devices
  unfolding captured_entries
  captured_entries-NotOwn [] devices e = let same : devices ≡ [] = cc e in rw same tt
  captured_entries-NotOwn (none ∷ entries) devices e = absurd (cc e)
  captured_entries-NotOwn (some d ∷ entries) devices e =
      let (rest, e', last) = >>=-eq-some (captured_entries from_utf8_lossy entries) _ e in
      let same : devices ≡ (if is_captured from_utf8_lossy d then d ∷ rest else rest) = cc last in
      rw same (kept-NotOwn d rest (captured_entries-NotOwn entries rest e'))

  keyboard_entries-NotOwn :
      (entries : List (Option InputDevice)) → All NotOwn (keyboard_entries from_utf8_lossy entries)
  unfolding keyboard_entries
  keyboard_entries-NotOwn [] = tt
  keyboard_entries-NotOwn (none ∷ entries) = keyboard_entries-NotOwn entries
  keyboard_entries-NotOwn (some d ∷ entries) =
      elim (Bool-cases (is_keyboard_device from_utf8_lossy d)) [
        | inl found ↦ rw found (
          (λ (own : IsOwn d). absurd (cc (found, own_not_keyboard from_utf8_lossy keeps d own))),
          keyboard_entries-NotOwn entries,
        )
        | inr skipped ↦ rw skipped (keyboard_entries-NotOwn entries)
      ]

  -- If lossy decoding keeps ASCII text, and the kernel reports the name that the emulator gave to its
  -- device: neither way of enumerating the devices opens one under that name.
  pub enumerated-NotOwn :
      (entries : Entries) (devices : List InputDevice)
      → enumerate_input_devices from_utf8_lossy entries ≡ some devices
      → All NotOwn devices × All NotOwn (find_keyboard_devices from_utf8_lossy entries)
  unfolding enumerate_input_devices find_keyboard_devices
  enumerated-NotOwn none devices e = absurd (cc e)
  enumerated-NotOwn (some entries) devices e =
      (captured_entries-NotOwn entries devices e, keyboard_entries-NotOwn entries)
