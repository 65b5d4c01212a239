-- ===== src/Evdev/Motion.antt =====
-- evdev_capture.rs: no motion is lost.
use kmflow.Prelude.{
  List, Option, [], ap, arith, if◌then◌else◌, none, refl, some, sym, ℕ, ◌&&◌, ◌∙◌, ◌∷◌, ◌≡◌,
}
use kmflow.Prelude.Eq.{nat_eq, ◌==◌}
use kmflow.Prelude.Int.{+ℤ_parts, eq_of_parts, neg_part, pos, pos_part, ℤ, ◌+ℤ◌}
use kmflow.Prelude.F64.{F64, dyadic, f64_of_i32}
use kmflow.Proto.{InputEvent, mouse_move}
use kmflow.Evdev.{
  EvdevCapture, InputEventRaw, axis, button_of, capture_all, ev_rel, on_raw, on_rel, on_syn,
  prepend, rel_x, rel_y, translate_key, translate_key_event,
}

-- The motion of an event along each axis, in whole pixels.
abbrev pixels : F64 → ℤ
pixels (dyadic m k) = m
pixels _ = pos 0

abbrev pub event_dx : InputEvent → ℤ
event_dx (mouse_move dx dy) = pixels dx
event_dx _ = pos 0

abbrev pub event_dy : InputEvent → ℤ
event_dy (mouse_move dx dy) = pixels dy
event_dy _ = pos 0

-- The motion of a raw event along one axis.
abbrev pub raw_motion : ℕ → InputEventRaw → ℤ
raw_motion axis raw = if raw.type_ == ev_rel && raw.code == axis then raw.value else pos 0

abbrev pub sum_ℤ {ℓ} : {A : Type ℓ} → (A → ℤ) → List A → ℤ
sum_ℤ f [] = pos 0
sum_ℤ f (x ∷ xs) = f x +ℤ sum_ℤ f xs

abbrev of_option : (InputEvent → ℤ) → Option InputEvent → ℤ
of_option f none = pos 0
of_option f (some event) = f event

zero_left : (v : ℤ) → pos 0 +ℤ v ≡ v
unfolding ◌+ℤ◌
zero_left v = ground arith

zero_right : (v : ℤ) → v +ℤ pos 0 ≡ v
unfolding ◌+ℤ◌
zero_right v = ground arith

-- What an event that was returned and a pending amount add up to.
abbrev Adds : EvdevCapture × Option InputEvent → ℤ → ℤ → Type 0
Adds r x y =
    (r.0.pending_dx +ℤ of_option event_dx r.1 ≡ x) × (r.0.pending_dy +ℤ of_option event_dy r.1 ≡ y)

syn_motion : (s : EvdevCapture) (code : ℕ) → Adds (on_syn s code) s.pending_dx s.pending_dy
unfolding on_syn f64_of_i32
syn_motion s code = ground (
  arith,
  zero_left s.pending_dx,
  zero_left s.pending_dy,
  zero_right s.pending_dx,
  zero_right s.pending_dy,
)

rel_motion :
    (s : EvdevCapture) (code : ℕ) (value : ℤ)
    → Adds
        (on_rel s code value)
        (s.pending_dx +ℤ (if code == 0 then value else pos 0))
        (s.pending_dy +ℤ (if code == 1 then value else pos 0))
unfolding on_rel
rel_motion s code value = ground (
  arith,
  zero_right s.pending_dx,
  zero_right s.pending_dy,
  zero_right (s.pending_dx +ℤ value),
  zero_right (s.pending_dy +ℤ value),
)

key_motion :
    (code : ℕ) (value : ℤ) (held : List ℕ)
    → (of_option event_dx (translate_key_event code value held).1 ≡ pos 0)
      × (of_option event_dy (translate_key_event code value held).1 ≡ pos 0)
unfolding translate_key_event translate_key button_of
key_motion code value held = ground arith

step_motion :
    (s : EvdevCapture) (raw : InputEventRaw)
    → let (s', event) = on_raw s raw in
      (s'.pending_dx +ℤ of_option event_dx event ≡ s.pending_dx +ℤ raw_motion rel_x raw)
      × (s'.pending_dy +ℤ of_option event_dy event ≡ s.pending_dy +ℤ raw_motion rel_y raw)
unfolding on_raw
step_motion s raw = ground (
  arith,
  syn_motion s raw.code,
  rel_motion s raw.code raw.value,
  key_motion raw.code raw.value s.held_keys,
  zero_right s.pending_dx,
  zero_right s.pending_dy,
)

chain :
    (after between before event raw events raws : ℤ)
    → after +ℤ events ≡ between +ℤ raws
    → between +ℤ event ≡ before +ℤ raw
    → after +ℤ (event +ℤ events) ≡ before +ℤ (raw +ℤ raws)
chain after between before event raw events raws h k =
    eq_of_parts (after +ℤ (event +ℤ events)) (before +ℤ (raw +ℤ raws)) (
      omega (
        arith,
        ap pos_part h,
        ap neg_part h,
        ap pos_part k,
        ap neg_part k,
        +ℤ_parts after events,
        +ℤ_parts between raws,
        +ℤ_parts between event,
        +ℤ_parts before raw,
        +ℤ_parts event events,
        +ℤ_parts after (event +ℤ events),
        +ℤ_parts raw raws,
        +ℤ_parts before (raw +ℤ raws),
      ))

sum_of_prepend :
    (f : InputEvent → ℤ) (event : Option InputEvent) (events : List InputEvent)
    → sum_ℤ f (prepend event events) ≡ of_option f event +ℤ sum_ℤ f events
sum_of_prepend f none events = sym (zero_left (sum_ℤ f events))
sum_of_prepend f (some event) events = refl

-- No motion is lost or made up between the devices and the events: along each axis, what the events
-- move in all, plus what is pending at the end, is what was pending before plus the sum of the raw
-- values.
pub capture_all_motion :
    (s : EvdevCapture) (raws : List InputEventRaw)
    → let (s', events) = capture_all s raws in
      (s'.pending_dx +ℤ sum_ℤ event_dx events ≡ s.pending_dx +ℤ sum_ℤ (raw_motion rel_x) raws)
      × (s'.pending_dy +ℤ sum_ℤ event_dy events ≡ s.pending_dy +ℤ sum_ℤ (raw_motion rel_y) raws)
unfolding capture_all
capture_all_motion s [] = (refl, refl)
capture_all_motion s (raw ∷ raws) =
    let s' : EvdevCapture = (on_raw s raw).0 in
    let event : Option InputEvent = (on_raw s raw).1 in
    let rest : EvdevCapture × List InputEvent = capture_all s' raws in
    let (dx, dy) = step_motion s raw in
    let (dx', dy') = capture_all_motion s' raws in
    (
      ap (λ v. rest.0.pending_dx +ℤ v) (sum_of_prepend event_dx event rest.1)
          ∙ chain rest.0.pending_dx s'.pending_dx s.pending_dx (of_option event_dx event)
              (raw_motion rel_x raw) (sum_ℤ event_dx rest.1) (sum_ℤ (raw_motion rel_x) raws) dx' dx,
      ap (λ v. rest.0.pending_dy +ℤ v) (sum_of_prepend event_dy event rest.1)
          ∙ chain rest.0.pending_dy s'.pending_dy s.pending_dy (of_option event_dy event)
              (raw_motion rel_y raw) (sum_ℤ event_dy rest.1) (sum_ℤ (raw_motion rel_y) raws) dy' dy,
    )
