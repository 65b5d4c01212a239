-- ===== src/X11/Grab.antt =====
-- x11_capture.rs, grab_pointer and ungrab_pointer: the requests to the server around the grab of the
-- keyboards, each of which may fail and end the call.
use kmflow.Prelude.{
  Bool, List, Option, ap, arith, false, if◌then◌else◌, none, refl, some, true, ℕ, ◌∷◌, ◌≡◌,
}
use kmflow.Proto.{InputEvent, KeyState, key}
use kmflow.Evdev.{InputEventRaw}
use kmflow.X11.Keyboard.{next_key-grab_keyboards, typed}
use kmflow.X11.{X11Capture, grab_keyboards, next_key, ungrab_keyboards}

pub data XRequest : Type 0 where
  map_window set_focus_window set_focus_root grab_server ungrab_server unmap_window flush : XRequest

-- The server's side, and the capture: whether the 1x1 window is mapped and has the focus, and whether
-- the pointer is confined to it.
pub record Grabbing : Type 0 where
  pub mapped : Bool
  pub focused : Bool
  pub confined : Bool
  pub capture : X11Capture

-- A part of a call: what it leaves, and whether it succeeds.
abbrev pub XStep : Type 0
XStep = Grabbing → Grabbing × Bool

infixr 4 ◌▷◌
unfoldable pub ◌▷◌ : XStep → XStep → XStep
(first ▷ second) g = let (g', ok) = first g in if ok then second g' else (g', false)

unfoldable pub fails : XStep
fails g = (g, false)

unfoldable pub grabs_keyboards : List Bool → XStep
unfolding grab_keyboards
grabs_keyboards grabbed g = (record g { capture = grab_keyboards grabbed g.capture }, true)

unfoldable pub releases_keyboards : XStep
unfolding ungrab_keyboards
releases_keyboards g = (record g { capture = ungrab_keyboards g.capture }, true)

-- `works` says which requests reach the server, `granted` is the status of its reply.
module _ (works : XRequest → Bool) where
  unfoldable pub request : XRequest → (Grabbing → Grabbing) → XStep
  request r change g = if works r then (change g, true) else (g, false)

  unfoldable pub reply_of_grab : Bool → List Bool → XStep
  unfolding ◌▷◌ fails grabs_keyboards request
  reply_of_grab granted grabbed g =
      if granted
      then (grabs_keyboards grabbed ▷ request flush (λ h. h)) (record g { confined = true })
      else (request unmap_window (λ h. record h { mapped = false })
            ▷ request flush (λ h. h)
            ▷ fails)
          g

  unfoldable pub grab_pointer : Bool → List Bool → XStep
  unfolding ◌▷◌ request reply_of_grab
  grab_pointer granted grabbed =
      request map_window (λ g. record g { mapped = true })
      ▷ request flush (λ g. g)
      ▷ request set_focus_window (λ g. record g { focused = true })
      ▷ request grab_server (λ g. g)
      ▷ reply_of_grab granted grabbed

  unfoldable pub ungrab_pointer : XStep
  unfolding ◌▷◌ request releases_keyboards
  ungrab_pointer =
      releases_keyboards
      ▷ request ungrab_server (λ g. record g { confined = false })
      ▷ request set_focus_root (λ g. record g { focused = false })
      ▷ request unmap_window (λ g. record g { mapped = false })
      ▷ request flush (λ g. g)

module _ (works : XRequest → Bool) (grabbed : List Bool) (g : Grabbing) where
  -- What a grab that succeeds has done.
  abbrev held : Grabbing
  held = record {
    mapped = true;
    focused = true;
    confined = true;
    capture = grab_keyboards grabbed g.capture;
  }

  grab_pointer_succeeds :
      (granted : Bool)
      → (grab_pointer works granted grabbed g).1 ≡ true
      → (granted ≡ true) × ((grab_pointer works granted grabbed g).0 ≡ held)
  unfolding grab_pointer
  grab_pointer_succeeds granted e = ground (arith, e)

  grab_pointer_refused :
      (granted : Bool)
      → granted ≡ false
      → ((grab_pointer works granted grabbed g).1 ≡ false)
        × ((grab_pointer works granted grabbed g).0.capture ≡ g.capture)
  unfolding grab_pointer
  grab_pointer_refused granted e = ground (arith, e)

module _ (works : XRequest → Bool) (g : Grabbing) where
  -- What an ungrab that succeeds has done.
  abbrev freed : Grabbing
  freed = record {
    mapped = false;
    focused = false;
    confined = false;
    capture = ungrab_keyboards g.capture;
  }

  ungrab_pointer_succeeds : (ungrab_pointer works g).1 ≡ true → (ungrab_pointer works g).0 ≡ freed
  unfolding ungrab_pointer
  ungrab_pointer_succeeds e = ground (arith, e)

-- The pointer confined to the window, or free of it.
abbrev pub IsConfined : Grabbing → Type 0
IsConfined g = (g.mapped ≡ true) × (g.focused ≡ true) × (g.confined ≡ true)

abbrev pub IsFree : Grabbing → Type 0
IsFree g = (g.mapped ≡ false) × (g.focused ≡ false) × (g.confined ≡ false)

released_silent : (s : X11Capture) → (next_key (ungrab_keyboards s)).1 ≡ none
unfolding next_key ungrab_keyboards
released_silent s = refl

-- Whichever requests fail: a grab that succeeds was granted and confines the pointer, and if it got
-- the first keyboard, in which a key has waited since before the grab, that key is what is captured
-- next; a grab that is refused fails and leaves the keyboards as they are; and an ungrab that succeeds
-- frees the pointer, and no key is taken from a keyboard then.
pub grab_pointer_lem :
    (works later : XRequest → Bool) (granted : Bool) (grabbed : List Bool) (g : Grabbing) (code : ℕ)
    (state : KeyState) (queue : List InputEventRaw) (devices : List (List InputEventRaw))
    → g.capture.kbd_grabbed ≡ false
    → g.capture.queues ≡ (typed code state ∷ queue) ∷ devices
    → let (held, got) = grab_pointer works granted (true ∷ grabbed) g in
      let (free, done) = ungrab_pointer later held in
      (got ≡ true
        → (granted ≡ true) × IsConfined held × ((next_key held.capture).1 ≡ some (key code state)))
      × (granted ≡ false → (got ≡ false) × (held.capture ≡ g.capture))
      × (done ≡ true → IsFree free × ((next_key free.capture).1 ≡ none))
grab_pointer_lem works later granted grabbed g code state queue devices idle waits =
    let stale = (next_key-grab_keyboards g.capture code state queue devices grabbed idle waits).1 in
    (
      λ ok.
          let (given, all) = grab_pointer_succeeds works (true ∷ grabbed) g granted ok in
          (
            given,
            rw all (refl, refl, refl),
            rw all (ap (λ (r : X11Capture × Option InputEvent). r.1) stale),
          ),
      λ no. grab_pointer_refused works (true ∷ grabbed) g granted no,
      λ ok.
          let all =
            ungrab_pointer_succeeds later (grab_pointer works granted (true ∷ grabbed) g).0 ok in
          (rw all (refl, refl, refl), rw all (released_silent _)),
    )
