-- ===== src/Edge.antt =====
-- crates/kmflow-daemon/src/edge.rs: when the cursor counts as having reached the shared edge.
pub mod Regions
use kmflow.Prelude.{Bool, false, if◌then◌else◌, true, ℕ, ◌&&◌, ◌||◌}
use kmflow.Prelude.Int.{leb_ℤ, ltb_ℤ, pos, ℤ}
use kmflow.Prelude.Machine.{sub_i32, u32_as_i32}
use kmflow.Proto.{Edge, ScreenInfo, bottom, left, right, top}

abbrev pub dead_zone_px : ℕ
dead_zone_px = 50

pub record EdgeDetector : Type 0 where
  pub screen : ScreenInfo
  pub target_edge : Edge
  pub dead_zone : ℕ

pub data EdgeHit : Type 0 where
  none : EdgeHit
  triggered : Edge → EdgeHit

-- `EdgeDetector::new` and `with_dead_zone`.
unfoldable pub new : ScreenInfo → Edge → EdgeDetector
new screen target_edge = record {
  screen = screen;
  target_edge = target_edge;
  dead_zone = dead_zone_px;
}

unfoldable pub with_dead_zone : EdgeDetector → ℕ → EdgeDetector
with_dead_zone d px = record d { dead_zone = px }

-- A corner is where a horizontal and a vertical margin meet.
unfoldable pub in_corner : EdgeDetector → ℤ → ℤ → Bool
in_corner d x y =
    let w = u32_as_i32 d.screen.width in
    let h = u32_as_i32 d.screen.height in
    let dz = u32_as_i32 d.dead_zone in
    let in_top = ltb_ℤ y dz in
    let in_bottom = ltb_ℤ (sub_i32 h dz) y in
    let in_left = ltb_ℤ x dz in
    let in_right = ltb_ℤ (sub_i32 w dz) x in (in_top || in_bottom) && (in_left || in_right)

-- The arms of the `match` on the target edge.
unfoldable pub at_edge : ScreenInfo → Edge → ℤ → ℤ → EdgeHit
at_edge screen right x y =
    if leb_ℤ (sub_i32 (u32_as_i32 screen.width) (pos 1)) x then triggered right else none
at_edge screen left x y = if leb_ℤ x (pos 0) then triggered left else none
at_edge screen top x y = if leb_ℤ y (pos 0) then triggered top else none
at_edge screen bottom x y =
    if leb_ℤ (sub_i32 (u32_as_i32 screen.height) (pos 1)) y then triggered bottom else none

unfoldable pub check : EdgeDetector → ℤ → ℤ → EdgeHit
check d x y = if in_corner d x y then none else at_edge d.screen d.target_edge x y

-- `check(..) != EdgeHit::None`.
abbrev is_hit : EdgeHit → Bool
is_hit none = false
is_hit (triggered _) = true

unfoldable pub hits : EdgeDetector → ℤ → ℤ → Bool
unfolding check
hits d x y = is_hit (check d x y)
