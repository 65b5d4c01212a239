-- ===== src/Connection.antt =====
-- crates/kmflow-daemon/src/state.rs: the life cycle of a connection.
pub mod Graph
use Prim.Native.String.{String}
use kmflow.Prelude.{Bool, false, if◌then◌else◌, true}

pub data ConnectionState : Type 0 where
  disconnected discovering pairing connected active suspended reconnecting : ConnectionState

-- The pairs that `matches!` lists; the last clause is its default.
unfoldable pub can_transition_to : ConnectionState → ConnectionState → Bool
can_transition_to disconnected discovering = true
can_transition_to discovering pairing = true
can_transition_to discovering connected = true
can_transition_to pairing connected = true
can_transition_to connected active = true
can_transition_to active suspended = true
can_transition_to active disconnected = true
can_transition_to suspended reconnecting = true
can_transition_to reconnecting active = true
can_transition_to reconnecting disconnected = true
can_transition_to disconnected active = true
can_transition_to active reconnecting = true
can_transition_to connected disconnected = true
can_transition_to _ _ = false

-- `Display`.
unfoldable pub to_string : ConnectionState → String
to_string disconnected = "disconnected"
to_string discovering = "discovering"
to_string pairing = "pairing"
to_string connected = "connected"
to_string active = "active"
to_string suspended = "suspended"
to_string reconnecting = "reconnecting"

-- The error carries the two states that its text names.
pub data Transition : Type 0 where
  ok : Transition
  invalid : ConnectionState → ConnectionState → Transition

-- The new state of the receiver, and the result.
unfoldable pub transition_to : ConnectionState → ConnectionState → ConnectionState × Transition
unfolding can_transition_to
transition_to from next =
    if can_transition_to from next then (next, ok) else (from, invalid from next)

unfoldable pub is_connected : ConnectionState → Bool
is_connected connected = true
is_connected active = true
is_connected suspended = true
is_connected reconnecting = true
is_connected _ = false
