-- ===== src/CaptureLoop/Grabs.antt =====
-- lib.rs, run_capture_loop: the grab follows the wishes, and no event is left out.
use kmflow.Prelude.{
  All, Bool, List, Option, [], ap, false, none, refl, some, sym, true, ◌++◌, ◌∙◌, ◌∷◌, ◌≡◌,
}
use kmflow.Proto.{InputEvent}
use kmflow.CaptureLoop.{
  Call, Round, follow_wish, grab_pointer, pass_event, pass_on, run_capture_loop, ungrab_pointer,
}

-- A round that does not end the loop, and in which the grab works.
abbrev pub GoesOn : Round → Type 0
GoesOn round =
    (round.shutdown ≡ false)
    × (round.grab_works ≡ true)
    × ((event : InputEvent) × (round.next_event ≡ some event))
    × (round.received ≡ true)

abbrev wanted : Bool → Option Bool → Bool
wanted grabbed none = grabbed
wanted grabbed (some should_grab) = should_grab

abbrev push : Option InputEvent → List InputEvent → List InputEvent
push none events = events
push (some event) events = event ∷ events

abbrev pub last_wish : Bool → List Round → Bool
last_wish grabbed [] = grabbed
last_wish grabbed (round ∷ rounds) = last_wish (wanted grabbed round.wish) rounds

abbrev pub captured_events : List Round → List InputEvent
captured_events [] = []
captured_events (round ∷ rounds) = push round.next_event (captured_events rounds)

abbrev pub passed_events : List Call → List InputEvent
passed_events [] = []
passed_events (pass_on event ∷ calls) = event ∷ passed_events calls
passed_events (_ ∷ calls) = passed_events calls

-- Grab and ungrab take turns, the first according to whether the pointer is grabbed before.
abbrev pub TakeTurns : Bool → List Call → Type 0
TakeTurns grabbed [] = Unit {0}
TakeTurns grabbed (grab_pointer ∷ calls) = (grabbed ≡ false) × TakeTurns true calls
TakeTurns grabbed (ungrab_pointer ∷ calls) = (grabbed ≡ true) × TakeTurns false calls
TakeTurns grabbed (pass_on event ∷ calls) = TakeTurns grabbed calls

going :
    (grabbed : Bool) (round : Round) (rounds : List Round) (event : InputEvent)
    → round.shutdown ≡ false
    → round.grab_works ≡ true
    → round.next_event ≡ some event
    → round.received ≡ true
    → let (grabbed', calls) = follow_wish true grabbed round.wish in
      let (last, more) = run_capture_loop grabbed' rounds in
      run_capture_loop grabbed (round ∷ rounds) ≡ (last, calls ++ pass_on event ∷ more)
unfolding run_capture_loop pass_event
going grabbed round rounds event live works next open_end = simp (live, works, next, open_end)

-- What a wish does to a grab that works.
wish_lem :
    (grabbed : Bool) (wish : Option Bool) (event : InputEvent) (more : List Call)
    → let (grabbed', calls) = follow_wish true grabbed wish in
      (grabbed' ≡ (elim wish [ none ↦ grabbed | some should_grab ↦ should_grab ]))
      × (TakeTurns grabbed' more → TakeTurns grabbed (calls ++ pass_on event ∷ more))
      × (passed_events (calls ++ pass_on event ∷ more) ≡ event ∷ passed_events more)
unfolding follow_wish
wish_lem grabbed none event more = (refl, λ h. h, refl)
wish_lem true (some true) event more = (refl, λ h. h, refl)
wish_lem false (some true) event more = (refl, λ h. (refl, h), refl)
wish_lem true (some false) event more = (refl, λ h. (refl, h), refl)
wish_lem false (some false) event more = (refl, λ h. h, refl)

-- In rounds that do not end the loop and in which every grab and ungrab works: the pointer is
-- grabbed in the end exactly if the last wish was for it, grabs and ungrabs take turns, and every
-- captured event is passed on, in order.
pub run_capture_loop_lem :
    (grabbed : Bool) (rounds : List Round)
    → All GoesOn rounds
    → let (grabbed', calls) = run_capture_loop grabbed rounds in
      (grabbed' ≡ last_wish grabbed rounds)
      × TakeTurns grabbed calls
      × (passed_events calls ≡ captured_events rounds)
unfolding run_capture_loop
run_capture_loop_lem grabbed [] h = (refl, tt, refl)
run_capture_loop_lem grabbed (round ∷ rounds) h =
    let (live, works, (event, next), open_end) = h.0 in
    let grabbed' : Bool = (follow_wish true grabbed round.wish).0 in
    let rest : Bool × List Call = run_capture_loop grabbed' rounds in
    let (follows, turns, passed) = wish_lem grabbed round.wish event rest.1 in
    let (last, turns', passed') = run_capture_loop_lem grabbed' rounds h.1 in
    let e = going grabbed round rounds event live works next open_end in
    (
      ap (λ (r : Bool × List Call). r.0) e ∙ last ∙ ap (λ g. last_wish g rounds) follows,
      rw e (turns turns'),
      ap (λ (r : Bool × List Call). passed_events r.1) e
          ∙ passed
          ∙ ap (◌∷◌ event) passed'
          ∙ ap (λ n. push n (captured_events rounds)) (sym next),
    )
