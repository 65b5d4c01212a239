-- ===== src/Devices/Bits.antt =====
-- evdev_capture.rs, has_event_type and has_key: on the bits that the kernel writes for a set of codes,
-- they decide whether a code is in the set.
use native.Mathlib.Nat.{div-div-eq-div-mul}
use kmflow.Prelude.{
  Bool, List, [], ap, arith, false, get_or, lt→ltb, suc, sym, true, zero, ℕ, ◌%◌, ◌*◌, ◌+◌, ◌/◌,
  ◌<◌, ◌^◌, ◌∙◌, ◌∷◌, ◌≡◌,
}
use kmflow.Prelude.Eq.{nat_eq, ◌==◌}
use kmflow.Devices.{has_bit, test_bit}

abbrev pub bit_value : Bool → ℕ
bit_value true = 1
bit_value false = 0

module _ (p : ℕ → Bool) where
  -- The first k codes from n, the lowest bit first.
  abbrev pub bits_from : ℕ → ℕ → ℕ
  bits_from n zero = 0
  bits_from n (suc k) = bit_value (p n) + 2 * bits_from (suc n) k

  -- As many bytes, from the code n on.
  abbrev pub bitmap_from : ℕ → ℕ → List ℕ
  bitmap_from n zero = []
  bitmap_from n (suc size) = bits_from n 8 ∷ bitmap_from (n + 8) size

  halved : (b : Bool) (r : ℕ) → (bit_value b + 2 * r) / 2 ≡ r
  halved true r = omega arith
  halved false r = omega arith

  lowest : (b : Bool) (r : ℕ) → ((bit_value b + 2 * r) % 2 == 1) ≡ b
  lowest true r = ground arith
  lowest false r = ground arith

  test_bit-bits_from : (n k j : ℕ) → j < k → test_bit (bits_from n k) j ≡ p (n + j)
  unfolding test_bit
  test_bit-bits_from n zero j h = absurd (omega arith)
  test_bit-bits_from n (suc k) zero h =
      ap (λ (v : ℕ). v % 2 == 1) {x = (bit_value (p n) + 2 * bits_from (suc n) k) / 1} (omega arith)
      ∙ lowest (p n) (bits_from (suc n) k)
      ∙ ap p (omega arith)
  test_bit-bits_from n (suc k) (suc j) h =
      let r = bits_from (suc n) k in
      let x = bit_value (p n) + 2 * r in
      let split : x / 2 ^ suc j ≡ r / 2 ^ j =
        ap (λ (d : ℕ). x / d) (omega arith)
        ∙ sym (div-div-eq-div-mul x 2 (2 ^ j))
        ∙ ap (λ (y : ℕ). y / 2 ^ j) (halved (p n) r) in
      ap (λ (v : ℕ). v % 2 == 1) split
      ∙ test_bit-bits_from (suc n) k j (omega arith)
      ∙ ap p (omega arith)

  get_or-bitmap_from :
      (size n i : ℕ) → i < size → get_or (bitmap_from n size) i 0 ≡ bits_from (n + 8 * i) 8
  get_or-bitmap_from zero n i h = absurd (omega arith)
  get_or-bitmap_from (suc size) n zero h = ap (λ (m : ℕ). bits_from m 8) (omega arith)
  get_or-bitmap_from (suc size) n (suc i) h =
      get_or-bitmap_from size (n + 8) i (omega arith) ∙ ap (λ (m : ℕ). bits_from m 8) (omega arith)

  -- A code that the array has room for is found in it if it is in the set.
  pub has_bit-bitmap_from : (size n : ℕ) → n < 8 * size → has_bit size (bitmap_from 0 size) n ≡ p n
  unfolding has_bit
  has_bit-bitmap_from size n h =
      let room : n / 8 < size = omega arith in
      let place : 0 + 8 * (n / 8) + n % 8 ≡ n = omega arith in
      rw (lt→ltb (n / 8) size room, get_or-bitmap_from size 0 (n / 8) room)
        (test_bit-bits_from (0 + 8 * (n / 8)) 8 (n % 8) (omega arith) ∙ ap p place)
