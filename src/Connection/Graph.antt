-- ===== src/Connection/Graph.antt =====
-- state.rs: the transition diagram, and what is reachable in it.
use Prim.Native.String.{String}
use text.Mathlib.Text.{◌==◌ as str_eq}
use kmflow.Prelude.{
  Bool-cases, Option, arith, if◌then◌else◌, inl, inr, none, refl, some, true, ◌≡◌, ◌⊎◌,
}
use kmflow.Connection.{
  ConnectionState, active, can_transition_to, connected, disconnected, discovering, invalid,
  is_connected, ok, pairing, reconnecting, suspended, to_string, transition_to,
}

infix 40 ◌⟶◌ ◌⟶*◌
pub data ◌⟶◌ : ConnectionState → ConnectionState → Type 0 where
  look : disconnected ⟶ discovering
  pair_up : discovering ⟶ pairing
  found : discovering ⟶ connected
  paired : pairing ⟶ connected
  activate : connected ⟶ active
  suspend : active ⟶ suspended
  drop : active ⟶ disconnected
  wake : suspended ⟶ reconnecting
  regain : reconnecting ⟶ active
  give_up : reconnecting ⟶ disconnected
  shortcut : disconnected ⟶ active
  lose : active ⟶ reconnecting
  leave : connected ⟶ disconnected

pub data ◌⟶*◌ : ConnectionState → ConnectionState → Type 0 where
  here : {s : ConnectionState} → s ⟶* s
  step : {s t u : ConnectionState} → s ⟶ t → t ⟶* u → s ⟶* u

ruleset edges = (
  look, pair_up, found, paired, activate, suspend, drop, wake, regain, give_up, shortcut, lose,
  leave,
)

⟶-allowed : {s t : ConnectionState} → s ⟶ t → can_transition_to s t ≡ true
unfolding can_transition_to
⟶-allowed look = refl
⟶-allowed _ = refl

allowed-⟶ : (s t : ConnectionState) → can_transition_to s t ≡ true → s ⟶ t
unfolding can_transition_to
allowed-⟶ disconnected discovering h = look
allowed-⟶ discovering pairing h = pair_up
allowed-⟶ discovering connected h = found
allowed-⟶ pairing connected h = paired
allowed-⟶ connected active h = activate
allowed-⟶ active suspended h = suspend
allowed-⟶ active disconnected h = drop
allowed-⟶ suspended reconnecting h = wake
allowed-⟶ reconnecting active h = regain
allowed-⟶ reconnecting disconnected h = give_up
allowed-⟶ disconnected active h = shortcut
allowed-⟶ active reconnecting h = lose
allowed-⟶ connected disconnected h = leave
allowed-⟶ _ _ h = absurd (cc)

-- A request is granted exactly along an edge of the diagram; then the state is the one asked for,
-- and otherwise it stays and the error names both states.
transition_to-⟶ :
    (s t : ConnectionState)
    → ((s ⟶ t) × (transition_to s t ≡ (t, ok)))
      ⊎ (¬ (s ⟶ t) × (transition_to s t ≡ (s, invalid s t)))
unfolding transition_to
transition_to-⟶ s t = elim (Bool-cases (can_transition_to s t)) [
  | inl granted ↦ inl (allowed-⟶ s t granted, rw granted)
  | inr refused ↦ inr (λ e. cc (⟶-allowed e), rw refused)
]

⟶*-join : {s t u : ConnectionState} → s ⟶* t → t ⟶* u → s ⟶* u
⟶*-join here r = r
⟶*-join (step e q) r = step e (⟶*-join q r)

to_disconnected : (s : ConnectionState) → s ⟶* disconnected
to_disconnected disconnected = here
to_disconnected active = step drop here
to_disconnected connected = step leave here
to_disconnected _ = search (here, step, edges)

from_disconnected : (s : ConnectionState) → disconnected ⟶* s
from_disconnected disconnected = here
from_disconnected _ = search (here, step, edges)

-- Every state can be reached from every state.
pub ⟶*-total : (s t : ConnectionState) → s ⟶* t
⟶*-total s t = ⟶*-join (to_disconnected s) (from_disconnected t)

-- A connected state is left only to a connected one or to `disconnected`.
pub is_connected-⟶ :
    {s t : ConnectionState}
    → s ⟶ t
    → is_connected s ≡ true
    → (is_connected t ≡ true) ⊎ (t ≡ disconnected)
unfolding is_connected
is_connected-⟶ e h = grind arith

named : String → Option ConnectionState
named n =
    if str_eq n "disconnected"
    then some disconnected
    else if str_eq n "discovering"
    then some discovering
    else if str_eq n "pairing"
    then some pairing
    else if str_eq n "connected"
    then some connected
    else if str_eq n "active"
    then some active
    else if str_eq n "suspended"
    then some suspended
    else if str_eq n "reconnecting"
    then some reconnecting
    else none

named-to_string : (s : ConnectionState) → named (to_string s) ≡ some s
unfolding named to_string
named-to_string disconnected = refl
named-to_string _ = refl

-- The printed names tell the states apart.
to_string-injective : (s t : ConnectionState) → to_string s ≡ to_string t → s ≡ t
to_string-injective s t h = cc (named-to_string s, named-to_string t)
