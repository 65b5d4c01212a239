-- ===== src/Proto.antt =====
-- crates/kmflow-proto/src/lib.rs: the messages of the protocol and the configuration.
use Prim.Native.String.{String}
use kmflow.Prelude.{Bool, List, Option, [], arith, none, true, ℕ, ◌↔◌, ◌≡◌}
use kmflow.Prelude.F64.{F64}
use kmflow.Prelude.Eq.{nat_eq, HasEq, ◌==◌}

abbrev pub protocol_version : ℕ
protocol_version = 1

abbrev pub default_port : ℕ
default_port = 4242

pub data MouseButton : Type 0 where
  left right middle back forward : MouseButton

pub data ButtonState : Type 0 where
  pressed released : ButtonState

pub data KeyState : Type 0 where
  pressed released : KeyState

pub data InputEvent : Type 0 where
  mouse_move : F64 → F64 → InputEvent  -- dx, dy
  mouse_button : MouseButton → ButtonState → InputEvent
  scroll : F64 → F64 → InputEvent  -- dx, dy
  key : ℕ → KeyState → InputEvent  -- scancode

pub record EventFrame : Type 0 where
  pub seq : ℕ
  pub timestamp_us : ℕ
  pub events : List InputEvent

pub data Edge : Type 0 where
  left right top bottom : Edge

pub record ScreenPosition : Type 0 where
  pub edge : Edge
  pub monitor_id : ℕ

pub record ScreenInfo : Type 0 where
  pub width : ℕ
  pub height : ℕ
  pub scale_factor : F64
  pub position : ScreenPosition

pub record Hello : Type 0 where
  pub protocol_version : ℕ
  pub hostname : String
  pub screen_info : ScreenInfo
  pub edge : Option Edge

pub data ControlCommand : Type 0 where
  ping : ℕ → ControlCommand  -- timestamp_us
  pong : ℕ → ControlCommand  -- echo_timestamp_us
  handshake : Hello → ControlCommand
  handshake_ack : Hello → ControlCommand
  switch_focus : String → ControlCommand  -- to_peer
  release_focus : ControlCommand
  peer_disconnecting : ControlCommand

pub data ClipboardContent : Type 0 where
  text : String → ClipboardContent
  image : String → List ℕ → ClipboardContent  -- mime, data
  file_uri : List String → ClipboardContent

pub record ClipboardPayload : Type 0 where
  pub origin_peer_id : String
  pub content : ClipboardContent

pub record PeerIdentity : Type 0 where
  pub fingerprint : String
  pub hostname : String
  pub last_seen : ℕ

pub record LayoutEntry : Type 0 where
  pub peer_hostname : String
  pub edge : Edge

pub record KmflowConfig : Type 0 where
  pub port : ℕ
  pub hostname : Option String
  pub layout : List LayoutEntry
  pub known_peers : List PeerIdentity
  pub scale_override : Option F64

-- `KmflowConfig::default()`.
unfoldable pub default_config : KmflowConfig
default_config = record {
  port = default_port;
  hostname = none;
  layout = [];
  known_peers = [];
  scale_override = none;
}

-- The derived equality of mouse buttons.
abbrev button_index : MouseButton → ℕ
button_index MouseButton.left = 0
button_index MouseButton.right = 1
button_index middle = 2
button_index back = 3
button_index forward = 4

abbrev pub button_beq : MouseButton → MouseButton → Bool
button_beq a b = button_index a == button_index b

pub button_beq_iff : (a b : MouseButton) → (button_beq a b ≡ true) ↔ (a ≡ b)
button_beq_iff a b = ground arith

instance abbrev pub button_eq : HasEq MouseButton
button_eq = record { beq = button_beq; beq_iff = button_beq_iff }
