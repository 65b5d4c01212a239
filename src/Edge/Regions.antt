-- ===== src/Edge/Regions.antt =====
-- edge.rs: the pixels of a screen at which the detector fires, for screens whose sides fit an i32.
use kmflow.Prelude.{arith, leb, ltb, true, ℕ, ◌&&◌, ◌+◌, ◌<◌, ◌||◌, ◌↔◌, ◌≡◌, ◌≤◌}
use kmflow.Prelude.Int.{leb_ℤ, pos}
use kmflow.Prelude.Machine.{sub_i32, sub_i32_nat, two31, u32_as_i32, u32_as_i32-of_lt}
use kmflow.Proto.{Edge, ScreenInfo, bottom, left, right, top}
use kmflow.Edge.{at_edge, hits, in_corner, new}

-- Both sides lie between 1 and 2^31 - 1.
pub record IsScreen (s : ScreenInfo) : Type 0 where
  pub width_pos : 0 < s.width
  pub width_i32 : s.width < two31
  pub height_pos : 0 < s.height
  pub height_i32 : s.height < two31

-- Column i, row j: on the outermost line of the edge, and off both ends of that line. The far end
-- of a line is guarded by one pixel less than the near end.
abbrev pub Region : ScreenInfo → Edge → ℕ → ℕ → Type 0
Region s left i j = (i ≡ 0) × (50 ≤ j) × (j + 50 ≤ s.height)
Region s right i j = (i + 1 ≡ s.width) × (50 ≤ j) × (j + 50 ≤ s.height)
Region s top i j = (j ≡ 0) × (50 ≤ i) × (i + 50 ≤ s.width)
Region s bottom i j = (j + 1 ≡ s.height) × (50 ≤ i) × (i + 50 ≤ s.width)

module _ (s : ScreenInfo) (v : IsScreen s) where
  open v use {width_i32, height_i32}

  -- The margins in plain numbers: the far one begins at n - 49.
  in_corner_lem :
      (e : Edge) (i j : ℕ)
      → in_corner (new s e) (pos i) (pos j)
        ≡ ((ltb j 50 || ltb s.height (j + 50)) && (ltb i 50 || ltb s.width (i + 50)))
  unfolding in_corner new
  in_corner_lem e i j =
      rw
        (
          u32_as_i32-of_lt s.width width_i32,
          u32_as_i32-of_lt s.height height_i32,
          u32_as_i32-of_lt 50 (omega arith),
          sub_i32_nat s.width 50 width_i32 (omega arith),
          sub_i32_nat s.height 50 height_i32 (omega arith),
        )
        (ground arith)

  far_line : (n i : ℕ) → n < two31 → leb_ℤ (sub_i32 (u32_as_i32 n) (pos 1)) (pos i) ≡ leb n (i + 1)
  far_line n i h = rw (u32_as_i32-of_lt n h, sub_i32_nat n 1 h (omega arith)) (ground arith)

  -- On a screen whose sides are positive and fit an i32, the detector fires at a pixel exactly if the
  -- pixel lies in the region of the target edge: on its outermost line, 50 pixels or more from the
  -- near end and 49 or more from the far end.
  pub hits-Region :
      (e : Edge) (i j : ℕ)
      → i < s.width
      → j < s.height
      → (hits (new s e) (pos i) (pos j) ≡ true) ↔ Region s e i j
  unfolding hits at_edge new
  hits-Region left i j hi hj = rw (in_corner_lem left i j) (ground arith)
  hits-Region right i j hi hj =
      rw (in_corner_lem right i j, far_line s.width i width_i32) (ground arith)
  hits-Region top i j hi hj = rw (in_corner_lem top i j) (ground arith)
  hits-Region bottom i j hi hj =
      rw (in_corner_lem bottom i j, far_line s.height j height_i32) (ground arith)
