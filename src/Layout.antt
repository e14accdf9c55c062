-- ===== src/Layout.antt =====
-- The tracks of the grid: `updateGrid` of `public/js/layout.js`.
pub mod Fit
mod Examples
use shells.Prelude.{ℕ, Bool, ◌&&◌, ◌+◌, ◌-◌, ◌/◌, Option, none, some, if◌then◌else◌, leb}

pub data Mode : Type 0 where
  auto : Mode
  columns : Mode
  rows : Mode
  grid : Mode

-- The properties that are set on the grid; none where the property is removed or was never set.
pub record Tracks : Type 0 where
  pub master_span : Option ℕ
  pub stack_cols : Option ℕ
  pub col_count : Option ℕ

-- `Math.ceil(n / d)`
unfoldable pub ceil_div : ℕ → ℕ → ℕ
ceil_div n d = (n + (d - 1)) / d

unfoldable pub auto_cols : ℕ → ℕ
auto_cols count = if leb 8 count then 3 else 2

unfoldable pub no_tracks : Tracks
no_tracks = record { master_span = none; stack_cols = none; col_count = none }

-- The tracks after `updateGrid`, from those before: the branches that set some leave the others.
unfoldable pub update_grid : Tracks → ℕ → Mode → Tracks
unfolding ceil_div auto_cols no_tracks
update_grid t count auto =
    if leb 5 count
    then record t {
      master_span = some (ceil_div (count - 1) (auto_cols count));
      stack_cols = some (auto_cols count);
    }
    else no_tracks
update_grid t count columns = record t { col_count = some count }
update_grid t count rows = no_tracks
update_grid t count grid = no_tracks
