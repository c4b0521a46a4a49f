-- ===== src/Placement.antt =====
-- Where a new window opens: `view::get_box` and `view::place` (src/view.cc). Windows cascade down the
-- diagonal of the usable area; `cascade_n` counts the windows of a column and `cascade_x` is the
-- column's shift. Both start at 0 and only grow by a positive step, so they are natural numbers.
pub mod Bounds
use steppewm.Base.{
  ℕ, ℤ, pos, pos_part, ◌+◌, ◌*◌, ◌+ℤ◌, ◌-ℤ◌, ◌*ℤ◌, ltb, ltb_ℤ, leb_ℤ, Bool, ◌||◌, Option, none,
  some, List, [], ◌∷◌, if◌then◌else◌,
}
use steppewm.Wlr.{Box, Wlroots}
use steppewm.State.{View, Output, Server, Config, move_window}
use steppewm.Output.{usable_area}
use steppewm.Window.{deco_x, deco_y}

-- `view::get_box`: the decorated box of a window at its position.
unfoldable pub get_box : ℕ → Server → Box
get_box v s =
    let o = s.store v in
    let bw = deco_x v s in
    record {
      x = o.x;
      y = o.y;
      width = o.geometry.width +ℤ pos 2 *ℤ bw;
      height = o.geometry.height +ℤ deco_y v s +ℤ bw;
    }

-- The diagonal step, 30 if the configured sizes give none.
unfoldable pub cascade_step : Config → ℕ
cascade_step cfg =
    if leb_ℤ (cfg.title_h +ℤ cfg.border_w) (pos 0)
    then 30
    else pos_part (cfg.title_h +ℤ cfg.border_w)

-- The slack of a window of size `n` in `room`, at least 0.
unfoldable pub max_offset : ℤ → ℤ → ℕ
max_offset room n = if ltb_ℤ (room -ℤ n) (pos 0) then 0 else pos_part (room -ℤ n)

-- The cascade's counters, and the offset that they give to one window.
pub record Cascade : Type 0 where
  pub n : ℕ
  pub shift : ℕ
  pub x_off : ℕ
  pub y_off : ℕ

-- "start a new column" when the current one is full.
unfoldable pub next_column : ℕ → ℕ → ℕ → ℕ → Cascade
next_column step max_off_y n shift =
    if ltb max_off_y (n * step)
    then record { n = 0; shift = shift + 2 * step; x_off = 0; y_off = 0 }
    else record { n = n; shift = shift; x_off = 0; y_off = n * step }

-- "columns filled the width", and the offset down the column.
unfoldable pub offset_column : ℕ → ℕ → Cascade → Cascade
offset_column step max_off_x c =
    let shift = if ltb max_off_x c.shift then 0 else c.shift in
    let x_off = shift + c.n * step in
    record c {
      shift = shift;
      x_off = if ltb max_off_x x_off then max_off_x else x_off;
      n = c.n + 1;
    }

unfoldable pub cascade : ℕ → ℕ → ℕ → ℕ → ℕ → Cascade
cascade step max_off_x max_off_y n shift =
    offset_column step max_off_x (next_column step max_off_y n shift)

-- "if (area.height < 0) area.height = 0".
unfoldable pub clip_height : Box → Box
clip_height area = if ltb_ℤ area.height (pos 0) then record area { height = pos 0 } else area

-- The window goes to its place in the area, and the cascade moves on.
unfoldable pub place_in : Box → ℕ → Server → Server
place_in area v s =
    let self = get_box v s in
    let c =
      cascade (cascade_step s.cfg) (max_offset area.width self.width)
        (max_offset area.height self.height) s.cascade_n s.cascade_x in
    move_window v (area.x +ℤ pos c.x_off) (area.y +ℤ pos c.y_off)
      (record s { cascade_n = c.n; cascade_x = c.shift })

unfoldable pub first_output : List Output → Option ℕ
first_output [] = none
first_output (o ∷ os) = some o.wlr_output

module _ (w : Wlroots) where
  -- The output under the cursor, or else the first one.
  unfoldable pub pick_output : Server → Option ℕ
  pick_output s = elim (w.output_at s.calls s.cursor_x s.cursor_y) [
    | some out ↦ some out
    | none ↦ first_output s.outputs
  ]

  unfoldable pub place_on : Option ℕ → ℕ → Server → Server
  place_on none v s = s
  place_on (some out) v s = place_in (clip_height (usable_area w s (some out))) v s

  -- `view::place`.
  unfoldable pub place : ℕ → Server → Server
  place v s =
      if (s.store v).maximized || (s.store v).fullscreen then s else place_on (pick_output s) v s
