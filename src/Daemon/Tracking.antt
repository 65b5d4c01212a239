-- ===== src/Daemon/Tracking.antt =====
-- lib.rs: what the two sets of the state mean, and what the releases do.
use kmflow.Prelude.{
  Bool, List, [], arith, false, map, not, refl, true, ℕ, ◌&&◌, ◌++◌, ◌||◌, ◌∙◌, ◌∷◌, ◌≡◌,
}
use kmflow.Prelude.Eq.{nat_eq, ◌==◌}
use kmflow.HashSet.{
  IsDistinct, contains, contains-insert, contains-remove, insert-IsDistinct, remove-IsDistinct,
}
use kmflow.Proto.{
  button_eq, ButtonState, InputEvent, KeyState, MouseButton, key, mouse_button, mouse_move, scroll,
}
use kmflow.Daemon.{
  DaemonState, button_release, check_emergency_hotkey, flush_pressed_keys, key_release,
  track_key_state,
}

unfoldable pub track_all : DaemonState → List InputEvent → DaemonState
track_all s [] = s
track_all s (e ∷ es) = track_all (track_key_state s e) es

-- Whether the last event of a key among the events is a press; without any, what held before.
abbrev pub key_held : ℕ → Bool → List InputEvent → Bool
key_held k held [] = held
key_held k held (key c KeyState.pressed ∷ es) = key_held k (c == k || held) es
key_held k held (key c KeyState.released ∷ es) = key_held k (not (c == k) && held) es
key_held k held (_ ∷ es) = key_held k held es

abbrev pub button_held : MouseButton → Bool → List InputEvent → Bool
button_held b held [] = held
button_held b held (mouse_button c ButtonState.pressed ∷ es) = button_held b (c == b || held) es
button_held b held (mouse_button c ButtonState.released ∷ es) =
    button_held b (not (c == b) && held) es
button_held b held (_ ∷ es) = button_held b held es

-- A key is in the set exactly if its last event was a press, or it had none and was in the set.
pub track_all-key_held :
    (k : ℕ) (s : DaemonState) (es : List InputEvent)
    → contains (track_all s es).pressed_keys k ≡ key_held k (contains s.pressed_keys k) es
unfolding track_all track_key_state
track_all-key_held k s [] = refl
track_all-key_held k s (key c KeyState.pressed ∷ es) =
    rw
      (
        track_all-key_held k (track_key_state s (key c KeyState.pressed)) es,
        contains-insert c k s.pressed_keys,
      )
      refl
track_all-key_held k s (key c KeyState.released ∷ es) =
    rw
      (
        track_all-key_held k (track_key_state s (key c KeyState.released)) es,
        contains-remove c k s.pressed_keys,
      )
      refl
track_all-key_held k s (mouse_button b ButtonState.pressed ∷ es) =
    track_all-key_held k (track_key_state s (mouse_button b ButtonState.pressed)) es
track_all-key_held k s (mouse_button b ButtonState.released ∷ es) =
    track_all-key_held k (track_key_state s (mouse_button b ButtonState.released)) es
track_all-key_held k s (e ∷ es) = track_all-key_held k (track_key_state s e) es

pub track_all-button_held :
    (b : MouseButton) (s : DaemonState) (es : List InputEvent)
    → contains (track_all s es).pressed_buttons b ≡ button_held b (contains s.pressed_buttons b) es
unfolding track_all track_key_state
track_all-button_held b s [] = refl
track_all-button_held b s (mouse_button c ButtonState.pressed ∷ es) =
    rw
      (
        track_all-button_held b (track_key_state s (mouse_button c ButtonState.pressed)) es,
        contains-insert c b s.pressed_buttons,
      )
      refl
track_all-button_held b s (mouse_button c ButtonState.released ∷ es) =
    rw
      (
        track_all-button_held b (track_key_state s (mouse_button c ButtonState.released)) es,
        contains-remove c b s.pressed_buttons,
      )
      refl
track_all-button_held b s (key c KeyState.pressed ∷ es) =
    track_all-button_held b (track_key_state s (key c KeyState.pressed)) es
track_all-button_held b s (key c KeyState.released ∷ es) =
    track_all-button_held b (track_key_state s (key c KeyState.released)) es
track_all-button_held b s (e ∷ es) = track_all-button_held b (track_key_state s e) es

-- The hotkey counts as pressed after a list of events exactly if for each of its three keys the last
-- event is a press, or there is none and the key counted as pressed before.
hotkey-track_all :
    (s : DaemonState) (es : List InputEvent)
    → check_emergency_hotkey (track_all s es) ≡ (
        key_held 29 (contains s.pressed_keys 29) es
        && key_held 56 (contains s.pressed_keys 56) es
        && key_held 1 (contains s.pressed_keys 1) es)
unfolding check_emergency_hotkey
hotkey-track_all s es =
    rw (track_all-key_held 29 s es, track_all-key_held 56 s es, track_all-key_held 1 s es) refl

button_releases-key_held :
    (k : ℕ) (b : Bool) (bs : List MouseButton) → key_held k b (map button_release bs) ≡ b
button_releases-key_held k b [] = refl
button_releases-key_held k b (x ∷ bs) = button_releases-key_held k b bs

releases-key_held :
    (k : ℕ) (b : Bool) (ks : List ℕ) (bs : List MouseButton)
    → key_held k b (map key_release ks ++ map button_release bs) ≡ (not (contains ks k) && b)
unfolding contains
releases-key_held k b [] bs = button_releases-key_held k b bs
releases-key_held k b (c ∷ ks) bs = ground (arith, releases-key_held k (not (c == k) && b) ks bs)

button_releases-button_held :
    (b : MouseButton) (h : Bool) (bs : List MouseButton)
    → button_held b h (map button_release bs) ≡ (not (contains bs b) && h)
unfolding contains
button_releases-button_held b h [] = refl
button_releases-button_held b h (c ∷ bs) =
    ground (arith, button_releases-button_held b (not (button_eq.beq c b) && h) bs)

releases-button_held :
    (b : MouseButton) (h : Bool) (ks : List ℕ) (bs : List MouseButton)
    → button_held b h (map key_release ks ++ map button_release bs) ≡ (not (contains bs b) && h)
releases-button_held b h [] bs = button_releases-button_held b h bs
releases-button_held b h (c ∷ ks) bs = releases-button_held b h ks bs

-- Both sets stay free of repetitions.
abbrev pub IsTracked : DaemonState → Type 0
IsTracked s = IsDistinct s.pressed_keys × IsDistinct s.pressed_buttons

pub track_key_state-IsTracked :
    (s : DaemonState) (e : InputEvent) → IsTracked s → IsTracked (track_key_state s e)
unfolding track_key_state
track_key_state-IsTracked s (key c KeyState.pressed) t =
    (insert-IsDistinct c s.pressed_keys t.0, t.1)
track_key_state-IsTracked s (key c KeyState.released) t =
    (remove-IsDistinct c s.pressed_keys t.0, t.1)
track_key_state-IsTracked s (mouse_button b ButtonState.pressed) t =
    (t.0, insert-IsDistinct b s.pressed_buttons t.1)
track_key_state-IsTracked s (mouse_button b ButtonState.released) t =
    (t.0, remove-IsDistinct b s.pressed_buttons t.1)
track_key_state-IsTracked s (mouse_move dx dy) t = t
track_key_state-IsTracked s (scroll dx dy) t = t

key_held_mono :
    (k : ℕ) (a b : Bool) (es : List InputEvent)
    → (a ≡ true → b ≡ true)
    → key_held k a es ≡ true
    → key_held k b es ≡ true
key_held_mono k a b [] le h = le h
key_held_mono k a b (key c KeyState.pressed ∷ es) le h =
    key_held_mono k (c == k || a) (c == k || b) es (λ t. ground (arith, le)) h
key_held_mono k a b (key c KeyState.released ∷ es) le h =
    key_held_mono k (not (c == k) && a) (not (c == k) && b) es (λ t. ground (arith, le)) h
key_held_mono k a b (mouse_button c p ∷ es) le h = key_held_mono k a b es le h
key_held_mono k a b (mouse_move dx dy ∷ es) le h = key_held_mono k a b es le h
key_held_mono k a b (scroll dx dy ∷ es) le h = key_held_mono k a b es le h

button_held_mono :
    (k : MouseButton) (a b : Bool) (es : List InputEvent)
    → (a ≡ true → b ≡ true)
    → button_held k a es ≡ true
    → button_held k b es ≡ true
button_held_mono k a b [] le h = le h
button_held_mono k a b (mouse_button c ButtonState.pressed ∷ es) le h =
    button_held_mono k (c == k || a) (c == k || b) es (λ t. ground (arith, le)) h
button_held_mono k a b (mouse_button c ButtonState.released ∷ es) le h =
    button_held_mono k (not (c == k) && a) (not (c == k) && b) es (λ t. ground (arith, le)) h
button_held_mono k a b (key c p ∷ es) le h = button_held_mono k a b es le h
button_held_mono k a b (mouse_move dx dy ∷ es) le h = button_held_mono k a b es le h
button_held_mono k a b (scroll dx dy ∷ es) le h = button_held_mono k a b es le h

key_held-append :
    (k : ℕ) (h : Bool) (xs ys : List InputEvent)
    → key_held k h (xs ++ ys) ≡ key_held k (key_held k h xs) ys
key_held-append k h [] ys = refl
key_held-append k h (key c KeyState.pressed ∷ xs) ys = key_held-append k (c == k || h) xs ys
key_held-append k h (key c KeyState.released ∷ xs) ys = key_held-append k (not (c == k) && h) xs ys
key_held-append k h (mouse_button c p ∷ xs) ys = key_held-append k h xs ys
key_held-append k h (mouse_move dx dy ∷ xs) ys = key_held-append k h xs ys
key_held-append k h (scroll dx dy ∷ xs) ys = key_held-append k h xs ys

button_held-append :
    (b : MouseButton) (h : Bool) (xs ys : List InputEvent)
    → button_held b h (xs ++ ys) ≡ button_held b (button_held b h xs) ys
button_held-append b h [] ys = refl
button_held-append b h (mouse_button c ButtonState.pressed ∷ xs) ys =
    button_held-append b (c == b || h) xs ys
button_held-append b h (mouse_button c ButtonState.released ∷ xs) ys =
    button_held-append b (not (c == b) && h) xs ys
button_held-append b h (key c p ∷ xs) ys = button_held-append b h xs ys
button_held-append b h (mouse_move dx dy ∷ xs) ys = button_held-append b h xs ys
button_held-append b h (scroll dx dy ∷ xs) ys = button_held-append b h xs ys

flushed_key :
    (k : ℕ) (s : DaemonState) (es : List InputEvent) (down : Bool)
    → (down ≡ true → contains s.pressed_keys k ≡ true)
    → key_held k down (es ++ flush_pressed_keys (track_all s es)) ≡ false
unfolding flush_pressed_keys
flushed_key k s es down le =
    let after = track_all s es in
    key_held-append k down es (flush_pressed_keys after)
    ∙ releases-key_held k (key_held k down es) after.pressed_keys after.pressed_buttons
    ∙ ground
        (arith, track_all-key_held k s es, key_held_mono k down (contains s.pressed_keys k) es le)

flushed_button :
    (b : MouseButton) (s : DaemonState) (es : List InputEvent) (down : Bool)
    → (down ≡ true → contains s.pressed_buttons b ≡ true)
    → button_held b down (es ++ flush_pressed_keys (track_all s es)) ≡ false
unfolding flush_pressed_keys
flushed_button b s es down le =
    let after = track_all s es in
    button_held-append b down es (flush_pressed_keys after)
    ∙ releases-button_held b (button_held b down es) after.pressed_keys after.pressed_buttons
    ∙ ground (
      arith,
      track_all-button_held b s es,
      button_held_mono b down (contains s.pressed_buttons b) es le,
    )

-- At a receiver a key or button is down if the last event for it that was replayed is a press, or if
-- there was none and it was down before. If only keys and buttons are down there that the sender has
-- in its sets, then after any events that the sender tracks and the receiver replays, in whatever
-- order they press and release, and after the sender's releases, no key and no button is down.
pub flush_pressed_keys-empties :
    (s : DaemonState) (es : List InputEvent) (key_down : ℕ → Bool)
    (button_down : MouseButton → Bool)
    → ((k : ℕ) → key_down k ≡ true → contains s.pressed_keys k ≡ true)
    → ((b : MouseButton) → button_down b ≡ true → contains s.pressed_buttons b ≡ true)
    → let replayed = es ++ flush_pressed_keys (track_all s es) in
      ((k : ℕ) → key_held k (key_down k) replayed ≡ false)
      × ((b : MouseButton) → button_held b (button_down b) replayed ≡ false)
flush_pressed_keys-empties s es key_down button_down keys buttons = (
  λ k. flushed_key k s es (key_down k) (keys k),
  λ b. flushed_button b s es (button_down b) (buttons b),
)
