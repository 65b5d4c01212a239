-- ===== src/Cli.antt =====
-- crates/kmflow-cli/src/main.rs: from the command line to the daemon's configuration and requests;
-- and the edge that crates/kmflow-daemon/src/lib.rs takes from the configuration.
pub mod Start
pub mod OneFlag
pub mod Commands
pub mod Pairing
use Prim.Native.String.{String}
use kmflow.Prelude.{Bool, List, Option, [], if◌then◌else◌, none, some, ℕ, ◌∷◌}
use kmflow.Prelude.F64.{F64}
use kmflow.Proto.{Edge, KmflowConfig, LayoutEntry, default_config}

-- The four flags of `start`.
pub record Sides : Type 0 where
  pub to_right : Bool
  pub to_left : Bool
  pub to_top : Bool
  pub to_bottom : Bool

unfoldable pub start_edge : Sides → Option Edge
start_edge sides =
    if sides.to_right
    then some Edge.right
    else if sides.to_left
    then some Edge.left
    else if sides.to_top
    then some Edge.top
    else if sides.to_bottom
    then some Edge.bottom
    else none

unfoldable pub start_layout : Option Edge → List LayoutEntry → List LayoutEntry
start_layout (some e) layout = record { peer_hostname = ""; edge = e } ∷ []
start_layout none layout = layout

-- The configuration of the daemon, from the options and the file; without a file it is the default.
unfoldable pub start_config : ℕ → Option Edge → Option F64 → Option KmflowConfig → KmflowConfig
unfolding start_layout
start_config port edge scale none = record default_config {
  port = port;
  layout = start_layout edge default_config.layout;
  scale_override = scale;
}
start_config port edge scale (some config) = record config {
  port = port;
  layout = start_layout edge config.layout;
  scale_override = scale;
}

-- `config.layout.first().map(|l| l.edge)`.
unfoldable pub configured_edge : KmflowConfig → Option Edge
configured_edge config = elim config.layout [ [] ↦ none | entry ∷ layout ↦ some entry.edge ]

-- The peer and the edge of a layout request: the first of right, left, top and bottom that is given.
unfoldable pub layout_request :
    {A : Type 0} → Option A → Option A → Option A → Option A → Option (A × String)
layout_request (some p) to_left to_top to_bottom = some (p, "right")
layout_request none (some p) to_top to_bottom = some (p, "left")
layout_request none none (some p) to_bottom = some (p, "top")
layout_request none none none (some p) = some (p, "bottom")
layout_request none none none none = none
