-- ===== src/Recording/Geometry.antt =====
-- `Geometry` of src/recording.rs.
use agenttender.Common.Words.{IsU16}
use agenttender.Common.{ℕ, ◌<◌, Option, none, some, ◌||◌, if◌then◌else◌, ◌==◌}

-- Terminal dimensions; neither is zero.
pub record Geometry : Type 0 where
  pub rows : ℕ
  pub cols : ℕ

-- `Geometry::new`
unfoldable pub new : ℕ → ℕ → Option Geometry
new rows cols =
    if (rows == 0) || (cols == 0) then none else some (record { rows = rows; cols = cols })

-- Two u16 that are not zero.
pub record IsGeometry (g : Geometry) : Type 0 where
  pub rows_range : IsU16 g.rows
  pub cols_range : IsU16 g.cols
  pub rows_pos : 0 < g.rows
  pub cols_pos : 0 < g.cols
