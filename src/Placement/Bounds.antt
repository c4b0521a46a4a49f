-- ===== src/Placement/Bounds.antt =====
-- The cascade of new windows, against the usable area, and its counters: `view::place` of src/view.cc.
use steppewm.Base.{ℕ, ℤ, pos, ◌+◌, ◌*◌, ◌≤◌, ◌+ℤ◌, ◌≤ℤ◌, +ℤ_parts, -ℤ_parts, ◌≡◌, arith, ==_refl}
use steppewm.Wlr.{Box}
use steppewm.State.{Server}
use steppewm.Placement.{
  get_box, cascade_step, max_offset, next_column, offset_column, cascade, place_in,
}

column_bounds :
    (step max_off_y n shift : ℕ)
    → let c = next_column step max_off_y n shift in (c.y_off ≤ max_off_y) × (c.y_off ≡ c.n * step)
unfolding next_column
column_bounds step max_off_y n shift = ground arith

cascade_bounds :
    (step max_off_x max_off_y n shift : ℕ)
    → let c = cascade step max_off_x max_off_y n shift in
      (c.x_off ≤ max_off_x)
      × (c.y_off ≤ max_off_y)
      × (c.shift ≤ max_off_x)
      × (c.n * step ≤ max_off_y + step)
unfolding cascade offset_column
cascade_bounds step max_off_x max_off_y n shift =
    let c = next_column step max_off_y n shift in
    let facts = column_bounds step max_off_y n shift in
    (ground arith, facts.0, ground arith, ground arith)

max_offset_fits :
    (start room n : ℤ) (off : ℕ)
    → n ≤ℤ room
    → off ≤ max_offset room n
    → (start ≤ℤ start +ℤ pos off) × (start +ℤ pos off +ℤ n ≤ℤ start +ℤ room)
unfolding max_offset
max_offset_fits start room n off fits h = ground (
  arith,
  -ℤ_parts room n,
  +ℤ_parts start (pos off),
  +ℤ_parts (start +ℤ pos off) n,
  +ℤ_parts start room,
)

-- A new window that fits the usable area opens wholly on it, however many windows opened before; the
-- column's shift is then at most the slack to the right of the window.
pub place_in_fits :
    (area : Box) (v : ℕ) (s : Server)
    → (get_box v s).width ≤ℤ area.width
    → (get_box v s).height ≤ℤ area.height
    → let r = place_in area v s in
      let o = r.store v in
      (area.x ≤ℤ o.x)
      × (o.x +ℤ (get_box v s).width ≤ℤ area.x +ℤ area.width)
      × (area.y ≤ℤ o.y)
      × (o.y +ℤ (get_box v s).height ≤ℤ area.y +ℤ area.height)
      × (r.cascade_x ≤ max_offset area.width (get_box v s).width)
unfolding place_in
place_in_fits area v s hw hh =
    let self = get_box v s in
    let c =
      cascade (cascade_step s.cfg) (max_offset area.width self.width)
        (max_offset area.height self.height) s.cascade_n s.cascade_x in
    let bounds =
      cascade_bounds (cascade_step s.cfg) (max_offset area.width self.width)
        (max_offset area.height self.height) s.cascade_n s.cascade_x in
    let across = max_offset_fits area.x area.width self.width c.x_off hw bounds.0 in
    let down = max_offset_fits area.y area.height self.height c.y_off hh bounds.1 in
    rw (==_refl v) (across.0, across.1, down.0, down.1, bounds.2)
