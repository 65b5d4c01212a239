-- ===== src/Evdev/RawEvents.antt =====
-- evdev_emulate.rs and evdev_capture.rs: how each raw event that is written is read.
use kmflow.HashSet.{insert, remove}
use kmflow.Prelude.{
  Bool-cases, List, Option, [], ap, arith, false, inl, inr, leb, none, not, refl, some, sym, true,
  ℕ, ◌&&◌, ◌++◌, ◌<◌, ◌∙◌, ◌∷◌, ◌≡◌,
}
use kmflow.Prelude.Eq.{nat_eq}
use kmflow.Prelude.Int.{neg_part, neg_ℤ, neg_ℤ-neg_ℤ, pos, ℤ, ◌+ℤ◌, ◌-ℤ◌}
use kmflow.Prelude.F64.{
  f64_as_i32, f64_as_i32-of_i32, f64_is_nonzero, f64_of_i32, f64_zero, neg_f64,
}
use kmflow.Prelude.Machine.{IsI32, two31, wrap_i32, wrap_i32-of_IsI32}
use kmflow.Proto.{
  ButtonState, InputEvent, KeyState, MouseButton, key, mouse_button, mouse_move, scroll,
}
use kmflow.Evdev.{
  EvdevCapture, InputEventRaw, axis, button_code, button_of, button_value, capture_all, ev_key,
  ev_rel, is_zero, key_value, on_raw, on_rel, on_syn, prepend, rel_hwheel, rel_wheel, rel_x, rel_y,
  report, translate_key, translate_key_event, write_event,
}

abbrev pub IsIdle : EvdevCapture → Type 0
IsIdle s = (s.pending_dx ≡ pos 0) × (s.pending_dy ≡ pos 0)

pub capture_cons :
    (s s' : EvdevCapture) (raw : InputEventRaw) (event : Option InputEvent)
    (raws : List InputEventRaw)
    → on_raw s raw ≡ (s', event)
    → capture_all s (raw ∷ raws) ≡ ((capture_all s' raws).0, prepend event (capture_all s' raws).1)
unfolding capture_all
capture_cons s s' raw event raws h =
    ap
      (λ (r : EvdevCapture × Option InputEvent).
        ((capture_all r.0 raws).0, prepend r.1 (capture_all r.0 raws).1))
      h

report_idle : (s : EvdevCapture) → IsIdle s → on_raw s report ≡ (s, none)
unfolding on_raw on_syn
report_idle s idle = ground (arith, idle)

report_alone : (s : EvdevCapture) → IsIdle s → capture_all s (report ∷ []) ≡ (s, [])
unfolding capture_all
report_alone s idle = capture_cons s s report none [] (report_idle s idle)

-- A raw event that gives an event, and the report after it.
pub one_then_report :
    (s s' : EvdevCapture) (raw : InputEventRaw) (event : InputEvent)
    → IsIdle s'
    → on_raw s raw ≡ (s', some event)
    → capture_all s (raw ∷ report ∷ []) ≡ (s', event ∷ [])
one_then_report s s' raw event idle h =
    capture_cons s s' raw (some event) (report ∷ []) h
    ∙ ap (λ (r : EvdevCapture × List InputEvent). (r.0, event ∷ r.1)) (report_alone s' idle)

pub raw_button :
    (s : EvdevCapture) (button : MouseButton) (state : ButtonState)
    → on_raw s (write_event ev_key (button_code button) (button_value state))
      ≡ (s, some (mouse_button button state))
unfolding on_raw translate_key_event button_of button_code
raw_button s button state = ground arith

pub raw_key :
    (s : EvdevCapture) (scancode : ℕ) (state : KeyState)
    → (leb 272 scancode && leb scancode 276) ≡ false
    → (held : List ℕ) × (on_raw s (write_event ev_key scancode (key_value state))
        ≡ (record s { held_keys = held }, some (key scancode state)))
unfolding on_raw translate_key_event translate_key ◌-ℤ◌
raw_key s scancode KeyState.pressed plain = (insert scancode s.held_keys, ground (arith, plain))
raw_key s scancode KeyState.released plain = (remove scancode s.held_keys, ground (arith, plain))

pub raw_wheel :
    (s : EvdevCapture) (v : ℤ)
    → on_raw s (write_event ev_rel rel_wheel v)
      ≡ (s, some (scroll f64_zero (neg_f64 (f64_of_i32 v))))
unfolding on_raw on_rel
raw_wheel s v = ground arith

pub raw_hwheel :
    (s : EvdevCapture) (v : ℤ)
    → on_raw s (write_event ev_rel rel_hwheel v) ≡ (s, some (scroll (f64_of_i32 v) f64_zero))
unfolding on_raw on_rel
raw_hwheel s v = ground arith

zero_plus : (v : ℤ) → pos 0 +ℤ v ≡ v
unfolding ◌+ℤ◌
zero_plus v = ground arith

raw_x :
    (s : EvdevCapture) (v : ℤ)
    → s.pending_dx ≡ pos 0
    → on_raw s (write_event ev_rel rel_x v) ≡ (record s { pending_dx = v }, none)
unfolding on_raw on_rel
raw_x s v h = ground (arith, h, zero_plus v)

raw_y :
    (s : EvdevCapture) (v : ℤ)
    → s.pending_dy ≡ pos 0
    → on_raw s (write_event ev_rel rel_y v) ≡ (record s { pending_dy = v }, none)
unfolding on_raw on_rel
raw_y s v h = ground (arith, h, zero_plus v)

pub report_moved :
    (s : EvdevCapture)
    → (is_zero s.pending_dx && is_zero s.pending_dy) ≡ false
    → on_raw s report ≡ (
      record s { pending_dx = pos 0; pending_dy = pos 0 },
      some (mouse_move (f64_of_i32 s.pending_dx) (f64_of_i32 s.pending_dy)),
    )
unfolding on_raw on_syn
report_moved s h = ground (arith, h)

pub nonzero_of_i32 : (v : ℤ) → f64_is_nonzero (f64_of_i32 v) ≡ not (is_zero v)
unfolding f64_is_nonzero f64_of_i32
nonzero_of_i32 v = ground arith

zero_of_is_zero : (v : ℤ) → is_zero v ≡ true → v ≡ pos 0
zero_of_is_zero v h = ground arith

neg_f64-f64_of_i32 : (v : ℤ) → neg_f64 (f64_of_i32 v) ≡ f64_of_i32 (neg_ℤ v)
unfolding neg_f64 f64_of_i32
neg_f64-f64_of_i32 v = refl

neg_ℤ-IsI32 : (v : ℤ) → IsI32 v → neg_part v < two31 → IsI32 (neg_ℤ v)
unfolding neg_ℤ
neg_ℤ-IsI32 v h k = ground arith

neg_ℤ-is_zero : (v : ℤ) → is_zero (neg_ℤ v) ≡ is_zero v
unfolding neg_ℤ
neg_ℤ-is_zero v = ground arith

pub wheel_value :
    (v : ℤ)
    → IsI32 v
    → neg_part v < two31
    → (wrap_i32 (neg_ℤ (f64_as_i32 (neg_f64 (f64_of_i32 v)))) ≡ v)
      × (f64_is_nonzero (neg_f64 (f64_of_i32 v)) ≡ not (is_zero v))
wheel_value v h k =
    let negated : neg_f64 (f64_of_i32 v) ≡ f64_of_i32 (neg_ℤ v) = neg_f64-f64_of_i32 v in
    let there : f64_as_i32 (f64_of_i32 (neg_ℤ v)) ≡ neg_ℤ v =
      f64_as_i32-of_i32 (neg_ℤ v) (neg_ℤ-IsI32 v h k) in
    (
      rw (negated, there, neg_ℤ-neg_ℤ v) (wrap_i32-of_IsI32 v h),
      rw (negated, nonzero_of_i32 (neg_ℤ v)) (ap not (neg_ℤ-is_zero v)),
    )

-- An axis of an emitted motion adds to what is pending, also when it is 0 and not written.
pub axis_x :
    (s : EvdevCapture) (a : ℤ) (raws : List InputEventRaw)
    → s.pending_dx ≡ pos 0
    → IsI32 a
    → capture_all s (axis rel_x (f64_of_i32 a) (f64_as_i32 (f64_of_i32 a)) ++ raws)
      ≡ capture_all (record s { pending_dx = a }) raws
axis_x s a raws idle h = elim (Bool-cases (is_zero a)) [
  | inl still ↦
      rw (nonzero_of_i32 a, still)
        (ap (λ v. capture_all (record s { pending_dx = v }) raws)
          (idle ∙ sym (zero_of_is_zero a still)))
  | inr moves ↦
      rw (nonzero_of_i32 a, moves, f64_as_i32-of_i32 a h)
        (capture_cons s (record s { pending_dx = a }) (write_event ev_rel rel_x a) none raws
          (raw_x s a idle))
]

pub axis_y :
    (s : EvdevCapture) (b : ℤ) (raws : List InputEventRaw)
    → s.pending_dy ≡ pos 0
    → IsI32 b
    → capture_all s (axis rel_y (f64_of_i32 b) (f64_as_i32 (f64_of_i32 b)) ++ raws)
      ≡ capture_all (record s { pending_dy = b }) raws
axis_y s b raws idle h = elim (Bool-cases (is_zero b)) [
  | inl still ↦
      rw (nonzero_of_i32 b, still)
        (ap (λ v. capture_all (record s { pending_dy = v }) raws)
          (idle ∙ sym (zero_of_is_zero b still)))
  | inr moves ↦
      rw (nonzero_of_i32 b, moves, f64_as_i32-of_i32 b h)
        (capture_cons s (record s { pending_dy = b }) (write_event ev_rel rel_y b) none raws
          (raw_y s b idle))
]
