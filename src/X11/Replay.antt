-- ===== src/X11/Replay.antt =====
-- x11_emulate.rs and x11_capture.rs: what XTest is given comes back from the server as the event.
use kmflow.Prelude.Int.{negsuc, pos}
use kmflow.Prelude.F64.{f64_of_i32, f64_zero}
use kmflow.Prelude.{
  List, Option, [], ap, false, if◌then◌else◌, none, refl, replicate, some, suc, ℕ, ◌++◌, ◌<◌, ◌==◌,
  ◌∙◌, ◌∷◌, ◌≡◌,
}
use kmflow.Prelude.Machine.{two31}
use kmflow.Proto.{ButtonState, InputEvent, KeyState, MouseButton, key, mouse_button, scroll}
use kmflow.X11.{
  FakeInput, XEvent, on_x11, other, raw_button_press, raw_button_release, raw_key_press,
  raw_key_release, scroll_of,
}

-- The raw event that the server sends for a fake input of a button or key.
abbrev pub served : FakeInput → XEvent
served f =
    if f.type_ == 4
    then raw_button_press f.detail
    else if f.type_ == 5
    then raw_button_release f.detail
    else if f.type_ == 2
    then raw_key_press f.detail
    else if f.type_ == 3
    then raw_key_release f.detail
    else other

abbrev prepend : Option InputEvent → List InputEvent → List InputEvent
prepend none xs = xs
prepend (some x) xs = x ∷ xs

-- What a capture with a free keyboard returns for the inputs.
unfoldable pub recapture : List FakeInput → List InputEvent
recapture [] = []
recapture (f ∷ inputs) = prepend (on_x11 false (served f)) (recapture inputs)

prepend-append :
    (e : Option InputEvent) (xs ys : List InputEvent) → prepend e (xs ++ ys) ≡ prepend e xs ++ ys
prepend-append none xs ys = refl
prepend-append (some x) xs ys = refl

recapture-append : (xs ys : List FakeInput) → recapture (xs ++ ys) ≡ recapture xs ++ recapture ys
unfolding recapture
recapture-append [] ys = refl
recapture-append (x ∷ xs) ys =
    ap (prepend (on_x11 false (served x))) (recapture-append xs ys)
    ∙ prepend-append (on_x11 false (served x)) (recapture xs) (recapture ys)

-- How an event is captured after it has been replayed through XTest.
pub data ReplaysAs : InputEvent → List InputEvent → Type 0 where
  clicked :
      (button : MouseButton) (state : ButtonState)
      → ReplaysAs (mouse_button button state) (mouse_button button state ∷ [])
  typed :
      (scancode : ℕ) (state : KeyState)
      → scancode < 248
      → ReplaysAs (key scancode state) (key scancode state ∷ [])
  down :
      (n : ℕ)
      → suc n < two31
      → ReplaysAs (scroll f64_zero (f64_of_i32 (pos (suc n)))) (replicate (suc n) (scroll_of 5))
  up :
      (n : ℕ)
      → suc n < two31
      → ReplaysAs (scroll f64_zero (f64_of_i32 (negsuc n))) (replicate (suc n) (scroll_of 4))
  rightwards :
      (n : ℕ)
      → suc n < two31
      → ReplaysAs (scroll (f64_of_i32 (pos (suc n))) f64_zero) (replicate (suc n) (scroll_of 7))
  leftwards :
      (n : ℕ)
      → suc n < two31
      → ReplaysAs (scroll (f64_of_i32 (negsuc n)) f64_zero) (replicate (suc n) (scroll_of 6))
