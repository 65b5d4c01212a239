-- ===== src/Cli/Start.antt =====
-- main.rs: what `kmflow start` on two machines leads to.
use kmflow.Prelude.{Option, arith, false, none, refl, some, true, ℕ, ◌≡◌}
use kmflow.Prelude.F64.{F64}
use kmflow.Proto.{Edge, KmflowConfig, default_config}
use kmflow.Cli.{Sides, configured_edge, start_config, start_edge, start_layout}

-- The one flag that is set for an edge.
abbrev pub only : Edge → Sides
only Edge.right = record { to_right = true; to_left = false; to_top = false; to_bottom = false }
only Edge.left = record { to_right = false; to_left = true; to_top = false; to_bottom = false }
only Edge.top = record { to_right = false; to_left = false; to_top = true; to_bottom = false }
only Edge.bottom = record { to_right = false; to_left = false; to_top = false; to_bottom = true }

abbrev pub no_sides : Sides
no_sides = record { to_right = false; to_left = false; to_top = false; to_bottom = false }

-- `kmflow start` with one of the four flags sets the edge, whatever the file says; without one, the
-- edge is that of the file's first layout entry, if there is one. The scale is that of the option
-- alone: one that the file sets is dropped.
pub configured_edge-start_config :
    (port : ℕ) (e : Edge) (scale : Option F64) (file : Option KmflowConfig) (config : KmflowConfig)
    → (configured_edge (start_config port (start_edge (only e)) scale file) ≡ some e)
      × (configured_edge (start_config port (start_edge no_sides) scale none) ≡ none)
      × (configured_edge (start_config port (start_edge no_sides) scale (some config))
          ≡ configured_edge config)
      × ((start_config port (start_edge no_sides) none (some config)).scale_override ≡ none)
unfolding configured_edge start_config start_edge start_layout default_config
configured_edge-start_config port e scale file config = (of_flag e file, refl, refl, refl)
  where
    of_flag :
        (e : Edge) (file : Option KmflowConfig)
        → configured_edge (start_config port (start_edge (only e)) scale file) ≡ some e
    of_flag e none = ground arith
    of_flag e (some config) = ground arith
