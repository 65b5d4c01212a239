-- ===== src/Devices/Chosen.antt =====
-- Which devices are opened: by what they are, and by the two backends compared.
use kmflow.Prelude.{
  All, Bool, Bool-cases, List, [], ap, arith, if◌then◌else◌, inl, inr, map, not, refl, some, true,
  ℕ, ◌&&◌, ◌++◌, ◌<◌, ◌>>=◌, ◌||◌, ◌∙◌, ◌∷◌, ◌≡◌, ◌≢◌,
}
use kmflow.Prelude.Eq.{nat_eq}
use kmflow.Text.{bytes_eq, ascii, before_first, contains_text}
use kmflow.Text.Search.{before_first-append, contains_text-last, starts_with-append}
use kmflow.Evdev.{btn_left, ev_key, ev_rel, rel_x}
use kmflow.Devices.{
  Entries, InputDevice, captured_entries, enumerate_input_devices, find_keyboard_devices,
  get_device_name, has_bit, has_event_type, has_key, is_captured, is_keyboard_device,
  is_own_keyboard, key_a, keyboard_entries, own_name,
}
use kmflow.Devices.Bits.{bitmap_from, has_bit-bitmap_from}
use kmflow.Devices.Own.{KeepsAscii}

-- What a device is: its sets of event types, keys and axes, and its name.
pub record Description : Type 0 where
  pub types : ℕ → Bool
  pub keys : ℕ → Bool
  pub axes : ℕ → Bool
  pub name : List ℕ

-- What the kernel answers of it, under some number.
abbrev pub described : List ℕ → Description → InputDevice
described number r = record {
  file_name = ascii "event" ++ number;
  opens = true;
  event_types = some (bitmap_from r.types 0 4);
  keys = some (bitmap_from r.keys 0 96);
  rel_axes = some (bitmap_from r.axes 0 4);
  name_bytes = some (r.name ++ 0 ∷ []);
}

abbrev pub is_keyboard : Description → Bool
is_keyboard r = r.types ev_key && r.keys key_a

abbrev pub is_mouse : Description → Bool
is_mouse r = r.types ev_rel && r.keys btn_left

abbrev pub is_foreign : Description → Bool
is_foreign r = not (contains_text r.name own_name)

module _ (from_utf8_lossy : List ℕ → List ℕ) (keeps : KeepsAscii from_utf8_lossy) (number : List ℕ)
    (r : Description) (zero_free : All (λ c. c ≢ 0) r.name) where
  name-described :
      contains_text (get_device_name from_utf8_lossy (described number r)) own_name
      ≡ contains_text r.name own_name
  unfolding get_device_name
  name-described =
      keeps own_name (before_first 0 (r.name ++ 0 ∷ [])) (omega arith)
      ∙ ap (λ (name : List ℕ). contains_text name own_name)
          (before_first-append 0 r.name [] zero_free)

  type-described : (n : ℕ) → n < 32 → has_event_type (described number r) n ≡ r.types n
  unfolding has_event_type
  type-described n h = has_bit-bitmap_from r.types 4 n (omega arith)

  key-described : (n : ℕ) → n < 768 → has_key (described number r) n ≡ r.keys n
  unfolding has_key
  key-described n h = has_bit-bitmap_from r.keys 96 n (omega arith)

  is_captured-described :
      is_captured from_utf8_lossy (described number r)
      ≡ ((is_mouse r || is_keyboard r) && is_foreign r)
  unfolding is_captured
  is_captured-described = ground (
    arith,
    name-described,
    type-described ev_key (omega arith),
    type-described ev_rel (omega arith),
    key-described btn_left (omega arith),
    key-described key_a (omega arith),
    starts_with-append (ascii "event") number,
  )

  own_name-bytes :
      (bytes : List ℕ) → is_own_keyboard from_utf8_lossy (some bytes) ≡ contains_text bytes own_name
  unfolding is_own_keyboard contains_text
  own_name-bytes [] = refl
  own_name-bytes (b ∷ bytes) = keeps own_name (b ∷ bytes) (omega arith)

  is_keyboard_device-described :
      is_keyboard_device from_utf8_lossy (described number r)
      ≡ (is_keyboard r && not (r.axes rel_x) && is_foreign r)
  unfolding is_keyboard_device has_bit
  is_keyboard_device-described = ground (
    arith,
    own_name-bytes (r.name ++ 0 ∷ []),
    contains_text-last 0 r.name own_name (omega arith),
    has_bit-bitmap_from r.types 4 ev_key (omega arith),
    has_bit-bitmap_from r.keys 96 key_a (omega arith),
    has_bit-bitmap_from r.axes 4 rel_x (omega arith),
    starts_with-append (ascii "event") number,
  )

-- The devices of a machine, by the numbers of their files.
abbrev pub Machine : Type 0
Machine = List (List ℕ × Description)

abbrev pub keep : {A : Type 0} → (A → Bool) → List A → List A
keep test [] = []
keep test (x ∷ xs) = let rest = keep test xs in if test x then x ∷ rest else rest

abbrev pub device : List ℕ × Description → InputDevice
device (number, r) = described number r

abbrev pub entries_of : Machine → Entries
entries_of machine = some (map (λ (p : List ℕ × Description). some (device p)) machine)

abbrev pub is_input : List ℕ × Description → Bool
is_input (number, r) = (is_mouse r || is_keyboard r) && is_foreign r

abbrev pub is_pure_keyboard : List ℕ × Description → Bool
is_pure_keyboard (number, r) = is_keyboard r && not (r.axes rel_x) && is_foreign r

abbrev pub IsNamed : List ℕ × Description → Type 0
IsNamed (number, r) = All (λ c. c ≢ 0) r.name

module _ (from_utf8_lossy : List ℕ → List ℕ) (keeps : KeepsAscii from_utf8_lossy) where
  captured_of :
      (machine : Machine)
      → All IsNamed machine
      → captured_entries from_utf8_lossy
          (map (λ (p : List ℕ × Description). some (device p)) machine)
        ≡ some (map device (keep is_input machine))
  unfolding captured_entries
  captured_of [] h = refl
  captured_of ((number, r) ∷ machine) h =
      rw (captured_of machine h.1, ◌>>=◌, is_captured-described from_utf8_lossy keeps number r h.0)
        (elim (Bool-cases (is_input (number, r))) [
          | inl chosen ↦ rw chosen refl
          | inr other ↦ rw other refl
        ])

  keyboards_of :
      (machine : Machine)
      → All IsNamed machine
      → keyboard_entries from_utf8_lossy
          (map (λ (p : List ℕ × Description). some (device p)) machine)
        ≡ map device (keep is_pure_keyboard machine)
  unfolding keyboard_entries
  keyboards_of [] h = refl
  keyboards_of ((number, r) ∷ machine) h =
      rw (keyboards_of machine h.1, is_keyboard_device-described from_utf8_lossy keeps number r h.0)
        (elim (Bool-cases (is_pure_keyboard (number, r))) [
          | inl chosen ↦ rw chosen refl
          | inr other ↦ rw other refl
        ])

  -- If lossy decoding keeps ASCII text: on a machine whose devices answer for what they are, under
  -- names without a zero byte, evdev captures the mice and the keyboards, and X11 takes for its
  -- keyboards those without a relative axis X, both but for devices with KMFlow in their name.
  pub devices_chosen :
      (machine : Machine)
      → All IsNamed machine
      → (enumerate_input_devices from_utf8_lossy (entries_of machine)
          ≡ some (map device (keep is_input machine)))
        × (find_keyboard_devices from_utf8_lossy (entries_of machine)
            ≡ map device (keep is_pure_keyboard machine))
  unfolding enumerate_input_devices find_keyboard_devices
  devices_chosen machine h = (captured_of machine h, keyboards_of machine h)
