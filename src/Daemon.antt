-- ===== src/Daemon.antt =====
-- crates/kmflow-daemon/src/lib.rs: the state that the daemon shares between its sessions, and the
-- helpers that act on it (key tracking, emergency hotkey, sequence numbers, releases).
pub mod Tracking
pub mod Sequence
use kmflow.Prelude.{Bool, List, Option, [], false, map, none, ℕ, ◌%◌, ◌&&◌, ◌++◌, ◌+◌}
use kmflow.Prelude.Int.{ℤ}
use kmflow.Prelude.Eq.{nat_eq}
use kmflow.Prelude.Machine.{half_i32, two32, u32_as_i32}
use kmflow.HashSet.{contains, insert, remove}
use kmflow.Proto.{
  button_eq, ButtonState, Edge, InputEvent, KeyState, MouseButton, ScreenInfo, key, mouse_button,
}
use kmflow.Connection.{ConnectionState}

abbrev pub emergency_hotkey_ctrl : ℕ
emergency_hotkey_ctrl = 29

abbrev pub emergency_hotkey_alt : ℕ
emergency_hotkey_alt = 56

abbrev pub emergency_hotkey_esc : ℕ
emergency_hotkey_esc = 1

pub record DaemonState : Type 0 where
  pub connection_state : ConnectionState
  pub pressed_keys : List ℕ
  pub pressed_buttons : List MouseButton
  pub local_screen : ScreenInfo
  pub remote_screen : Option ScreenInfo
  pub seq_counter : ℕ
  pub focus_is_remote : Bool
  pub cursor_x : ℤ
  pub cursor_y : ℤ
  pub last_focus_switch : ℕ  -- an Instant, in nanoseconds

-- The state that `Daemon::new` builds, for the screen that it found and the present instant.
unfoldable pub initial : ScreenInfo → ℕ → DaemonState
initial screen now = record {
  connection_state = ConnectionState.disconnected;
  pressed_keys = [];
  pressed_buttons = [];
  local_screen = screen;
  remote_screen = none;
  seq_counter = 0;
  focus_is_remote = false;
  cursor_x = half_i32 (u32_as_i32 screen.width);
  cursor_y = half_i32 (u32_as_i32 screen.height);
  last_focus_switch = now;
}

unfoldable pub check_emergency_hotkey : DaemonState → Bool
check_emergency_hotkey s =
    contains s.pressed_keys emergency_hotkey_ctrl
    && contains s.pressed_keys emergency_hotkey_alt
    && contains s.pressed_keys emergency_hotkey_esc

-- The state with the counter advanced, and the number; `wrapping_add` on a u32.
unfoldable pub next_seq : DaemonState → DaemonState × ℕ
next_seq s = let n = (s.seq_counter + 1) % two32 in (record s { seq_counter = n }, n)

unfoldable pub track_key_state : DaemonState → InputEvent → DaemonState
track_key_state s (key scancode KeyState.pressed) = record s {
  pressed_keys = insert scancode s.pressed_keys;
}
track_key_state s (key scancode KeyState.released) = record s {
  pressed_keys = remove scancode s.pressed_keys;
}
track_key_state s (mouse_button button ButtonState.pressed) = record s {
  pressed_buttons = insert button s.pressed_buttons;
}
track_key_state s (mouse_button button ButtonState.released) = record s {
  pressed_buttons = remove button s.pressed_buttons;
}
track_key_state s _ = s

abbrev pub key_release : ℕ → InputEvent
key_release scancode = key scancode KeyState.released

abbrev pub button_release : MouseButton → InputEvent
button_release button = mouse_button button ButtonState.released

unfoldable pub flush_pressed_keys : DaemonState → List InputEvent
flush_pressed_keys s = map key_release s.pressed_keys ++ map button_release s.pressed_buttons

unfoldable pub opposite_edge : Edge → Edge
opposite_edge Edge.right = Edge.left
opposite_edge Edge.left = Edge.right
opposite_edge Edge.top = Edge.bottom
opposite_edge Edge.bottom = Edge.top

-- The cursor at the centre of the screen.
unfoldable pub center_cursor : ScreenInfo → DaemonState → DaemonState
center_cursor screen s = record s {
  cursor_x = half_i32 (u32_as_i32 screen.width);
  cursor_y = half_i32 (u32_as_i32 screen.height);
}
