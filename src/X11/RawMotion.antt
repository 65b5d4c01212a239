-- ===== src/X11/RawMotion.antt =====
-- x11_capture.rs: the first two axes of a raw motion event.
use kmflow.Prelude.{
  Bool, List, Option, [], ap, arith, get_elem?, if◌then◌else◌, refl, suc, zero, ℕ, ◌%◌, ◌+◌, ◌/◌,
  ◌<◌, ◌==◌, ◌∙◌, ◌∷◌, ◌≡◌,
}
use kmflow.Prelude.F64.{F64, f64_zero}
use kmflow.X11.{Fp3232, Scan, extract_raw_motion_values, scan_mask, scan_word, take_axis, value_or}

-- Axes beyond the first two change neither coordinate.
scan_word_beyond :
    (values : List Fp3232) (bits word number : ℕ) (s : Scan)
    → 1 < number
    → ((scan_word values bits word number s).dx ≡ s.dx)
      × ((scan_word values bits word number s).dy ≡ s.dy)
unfolding scan_word take_axis
scan_word_beyond values zero word number s h = (refl, refl)
scan_word_beyond values (suc bits) word number s h = ground (
  arith,
  scan_word_beyond values bits (word / 2) (suc number) s,
  scan_word_beyond values bits (word / 2) (suc number) (take_axis values number s),
)

scan_mask_beyond :
    (values : List Fp3232) (mask : List ℕ) (number : ℕ) (s : Scan)
    → 1 < number
    → ((scan_mask values mask number s).dx ≡ s.dx) × ((scan_mask values mask number s).dy ≡ s.dy)
unfolding scan_mask
scan_mask_beyond values [] number s h = (refl, refl)
scan_mask_beyond values (word ∷ mask) number s h =
    let s' : Scan = scan_word values 32 word number s in
    let (dx, dy) = scan_mask_beyond values mask (number + 32) s' (omega arith) in
    let (dx', dy') = scan_word_beyond values 32 word number s h in (dx ∙ dx', dy ∙ dy')

-- The value that belongs to an axis whose bit is set.
abbrev pub coordinate : Bool → Option Fp3232 → F64
coordinate present value = if present then value_or f64_zero value else f64_zero

pair_of : {a a' b b' : F64} → a ≡ a' → b ≡ b' → ◌≡◌ {A = F64 × F64} (a, b) (a', b')
pair_of h k = cc (h, k)

abbrev begin : Scan
begin = record { value_idx = 0; dx = f64_zero; dy = f64_zero }

-- The state behind the bit of the horizontal axis, and behind that of the vertical one.
abbrev behind_x : List Fp3232 → ℕ → Scan
behind_x values word = if word % 2 == 0 then begin else take_axis values 0 begin

abbrev behind_y : List Fp3232 → ℕ → Scan
behind_y values word =
    if word / 2 % 2 == 0 then behind_x values word else take_axis values 1 (behind_x values word)

two_bits :
    (values : List Fp3232) (bits word : ℕ)
    → scan_word values (suc (suc bits)) word 0 begin
      ≡ scan_word values bits (word / 2 / 2) 2 (behind_y values word)
unfolding scan_word
two_bits values bits word = ground arith

behind_y_lem :
    (values : List Fp3232) (word : ℕ)
    → ((behind_y values word).dx ≡ coordinate (word % 2 == 1) (get_elem? values 0))
      × ((behind_y values word).dy
          ≡ coordinate (word / 2 % 2 == 1) (get_elem? values (if word % 2 == 1 then 1 else 0)))
unfolding take_axis
behind_y_lem values word = ground arith

-- Whatever other axes the device has, the motion is read from the first two: the first value is the
-- horizontal one if bit 0 of the mask is set, and the vertical one is the value behind it, or the
-- first if bit 0 is not set. A missing value counts as no motion.
extract_raw_motion_values_lem :
    (word : ℕ) (mask : List ℕ) (values : List Fp3232)
    → let has_x = word % 2 == 1 in
      let has_y = word / 2 % 2 == 1 in
      extract_raw_motion_values (word ∷ mask) values ≡ (
        coordinate has_x (get_elem? values 0),
        coordinate has_y (get_elem? values (if has_x then 1 else 0)),
      )
unfolding extract_raw_motion_values scan_mask
extract_raw_motion_values_lem word mask values =
    let s : Scan = scan_word values 32 word 0 begin in
    let (dx, dy) = scan_mask_beyond values mask 32 s (omega arith) in
    let (dx', dy') =
      scan_word_beyond values 30 (word / 2 / 2) 2 (behind_y values word) (omega arith) in
    let (x, y) = behind_y_lem values word in
    let e : s ≡ scan_word values 30 (word / 2 / 2) 2 (behind_y values word) =
      two_bits values 30 word in
    let at_x : (scan_mask values mask 32 s).dx ≡ coordinate (word % 2 == 1) (get_elem? values 0) =
      dx ∙ ap (λ (r : Scan). r.dx) e ∙ dx' ∙ x in
    let at_y : (scan_mask values mask 32 s).dy
        ≡ coordinate (word / 2 % 2 == 1) (get_elem? values (if word % 2 == 1 then 1 else 0)) =
      dy ∙ ap (λ (r : Scan). r.dy) e ∙ dy' ∙ y in
    pair_of at_x at_y
