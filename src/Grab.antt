-- ===== src/Grab.antt =====
-- Moving and resizing a window with the pointer: `server::cursor_begin_interactive`,
-- `process_cursor_move`, `process_cursor_resize` and the release of the button in
-- `server::on_cursor_button` (src/input.cc), and `view::unmaximize_to_cursor` (src/view.cc). Cursor
-- coordinates and grab offsets are in 256ths of a pixel, and the source's `double` arithmetic is exact.
pub mod Resize
pub mod Requested
pub mod Drag
pub mod Drop
use Prim.Native.Nat.{bit_and}
use steppewm.Base.{
  ℕ, ℤ, pos, pos_part, ◌+ℤ◌, ◌-ℤ◌, ◌*ℤ◌, ◌/ℤ◌, ◌*◌, ltb_ℤ, leb_ℤ, Bool, true, false, not, ◌&&◌,
  ◌||◌, Option, none, some, ◌==◌, if◌then◌else◌,
}
use steppewm.Wlr.{
  Box, Wlroots, node_set_position, node_set_enabled, node_raise_to_top, rect_set_size,
  snap_indicator, toplevel_set_size,
}
use steppewm.State.{
  View, Server, Grab, CursorMode, passthrough, move, resize, SnapEdge, unsnapped, emit, move_window,
}
use steppewm.Snap.{SnapDetect, pixels, detect_snap, edge_top, edge_bottom, edge_left, edge_right}
use steppewm.Window.{is_special, is_snapped, deco_x, deco_y, snap_to, apply_state, toggle_maximize}
use steppewm.Placement.{get_box}
use steppewm.Lifecycle.{release_grab}

abbrev pub has_edge : ℕ → ℕ → Bool
has_edge edges e = not (bit_and edges e == 0)

unfoldable pub begin_move : ℕ → Server → Server
begin_move v s =
    let o = s.store v in
    let special = is_special o in
    record s {
      grab = record s.grab {
        mode = move;
        grabbed_view = some v;
        restore_pending = special;
        start_x = if special then s.cursor_x else s.grab.start_x;
        start_y = if special then s.cursor_y else s.grab.start_y;
        grab_x = s.cursor_x -ℤ pixels o.x;
        grab_y = s.cursor_y -ℤ pixels o.y;
      };
    }

unfoldable pub begin_resize : ℕ → ℕ → Server → Server
begin_resize edges v s =
    let o = s.store v in
    let geo = o.geometry in
    let sx = o.x +ℤ deco_x v s +ℤ geo.x in
    let sy = o.y +ℤ deco_y v s +ℤ geo.y in
    let border_x = sx +ℤ (if has_edge edges edge_right then geo.width else pos 0) in
    let border_y = sy +ℤ (if has_edge edges edge_bottom then geo.height else pos 0) in
    record s {
      grab = record s.grab {
        mode = resize;
        grabbed_view = some v;
        restore_pending = false;
        grab_x = s.cursor_x -ℤ pixels border_x;
        grab_y = s.cursor_y -ℤ pixels border_y;
        geobox = record { x = sx; y = sy; width = geo.width; height = geo.height };
        resize_edges = edges;
      };
    }

-- `server::cursor_begin_interactive` with the mode `move` or `resize`, as its callers give it.
unfoldable pub cursor_begin_interactive : CursorMode → ℕ → ℕ → Server → Server
cursor_begin_interactive move edges v s = begin_move v s
cursor_begin_interactive _ edges v s = begin_resize edges v s

-- The two ends of a span that is resized.
pub record Span : Type 0 where
  pub low : ℤ
  pub high : ℤ

-- The edge under the pointer follows it, at least one pixel from the other.
unfoldable pub drag_low : ℤ → Span → Span
drag_low border sp = record sp { low = if leb_ℤ sp.high border then sp.high -ℤ pos 1 else border }

unfoldable pub drag_high : ℤ → Span → Span
drag_high border sp = record sp { high = if leb_ℤ border sp.low then sp.low +ℤ pos 1 else border }

unfoldable pub drag_span : Bool → Bool → ℤ → Span → Span
drag_span low high border sp =
    if low then drag_low border sp else if high then drag_high border sp else sp

abbrev pub span : ℤ → ℤ → Span
span x n = record { low = x; high = x +ℤ n }

-- The conversion of a coordinate to `int`.
abbrev pub to_pixels : ℤ → ℤ
to_pixels c = c /ℤ 256

unfoldable pub resized_across : Server → Span
resized_across s =
    let g = s.grab in
    drag_span (has_edge g.resize_edges edge_left) (has_edge g.resize_edges edge_right)
      (to_pixels (s.cursor_x -ℤ g.grab_x)) (span g.geobox.x g.geobox.width)

unfoldable pub resized_down : Server → Span
resized_down s =
    let g = s.grab in
    drag_span (has_edge g.resize_edges edge_top) (has_edge g.resize_edges edge_bottom)
      (to_pixels (s.cursor_y -ℤ g.grab_y)) (span g.geobox.y g.geobox.height)

-- `server::process_cursor_resize`, for the grabbed window.
unfoldable pub process_cursor_resize : ℕ → Server → Server
process_cursor_resize v s =
    let across = resized_across s in
    let down = resized_down s in
    let geo = (s.store v).geometry in
    emit (toplevel_set_size v (across.high -ℤ across.low) (down.high -ℤ down.low))
      (move_window v (across.low -ℤ deco_x v s -ℤ geo.x) (down.low -ℤ deco_y v s -ℤ geo.y) s)

-- The cursor's fraction of a decorated width, as the numerator over 256 times that width, clipped to
-- the range 0 to 1.
unfoldable pub clip_fraction : ℤ → ℕ → ℤ
clip_fraction n width =
    if ltb_ℤ n (pos 0)
    then pos 0
    else if ltb_ℤ (pixels (pos width)) n
    then pixels (pos width)
    else n

-- `(int) (cursor_x - frac_x * restored_w)`.
unfoldable pub restored_x : ℤ → Box → ℤ → ℤ
restored_x cursor_x cur restored_w =
    if ltb_ℤ (pos 0) cur.width
    then (cursor_x *ℤ cur.width
        -ℤ clip_fraction (cursor_x -ℤ pixels cur.x) (pos_part cur.width) *ℤ restored_w)
      /ℤ (pos_part cur.width * 256)
    else to_pixels cursor_x

-- `show_snap_indicator`, `hide_snap_indicator`.
unfoldable pub show_snap_indicator : Box → Server → Server
show_snap_indicator zone s = emit (node_raise_to_top snap_indicator) (
    emit (node_set_enabled snap_indicator true) (
      emit (rect_set_size snap_indicator (zone.width -ℤ pos 8) (zone.height -ℤ pos 8))
        (emit (node_set_position snap_indicator (zone.x +ℤ pos 4) (zone.y +ℤ pos 4)) s)))

unfoldable pub hide_snap_indicator : Server → Server
hide_snap_indicator s = emit (node_set_enabled snap_indicator false) s

unfoldable pub show_preview : SnapDetect → Server → Server
show_preview sd s =
    if is_snapped sd.edge || sd.maximize
    then show_snap_indicator sd.zone s
    else hide_snap_indicator s

-- The pointer has moved less than DRAG_THRESHOLD, 5 pixels, since the grab began.
unfoldable pub below_threshold : Server → Bool
below_threshold s =
    let dx = s.cursor_x -ℤ s.grab.start_x in
    let dy = s.cursor_y -ℤ s.grab.start_y in
    ltb_ℤ (dx *ℤ dx +ℤ dy *ℤ dy) (pixels (pos 5) *ℤ pixels (pos 5))

module _ (w : Wlroots) where
  -- `view::unmaximize_to_cursor`, at the cursor's position.
  unfoldable pub unmaximize_to_cursor : ℕ → Server → Server
  unmaximize_to_cursor v s =
      let cur = get_box v s in
      let s1 =
        if is_snapped (s.store v).snapped
        then snap_to w unsnapped v s
        else apply_state w false false v s in
      let restored_w = (s1.store v).saved_geo.width +ℤ pos 2 *ℤ deco_x v s1 in
      if not (is_special (s.store v))
      then s
      else move_window v (restored_x s.cursor_x cur restored_w)
          (to_pixels (s.cursor_y -ℤ deco_y v s1 *ℤ pos 128)) s1

  -- "crossed the threshold, restore under the cursor and recompute the offset".
  unfoldable pub start_drag : ℕ → Server → Server
  start_drag v s =
      let s1 = unmaximize_to_cursor v s in
      let o = s1.store v in
      record s1 {
        grab = record s1.grab {
          grab_x = s1.cursor_x -ℤ pixels o.x;
          grab_y = s1.cursor_y -ℤ pixels o.y;
          restore_pending = false;
        };
      }

  -- The window follows the pointer, and the zone that it would snap to is shown.
  unfoldable pub drag_window : ℕ → Server → Server
  drag_window v s =
      let s1 =
        move_window v (to_pixels (s.cursor_x -ℤ s.grab.grab_x))
          (to_pixels (s.cursor_y -ℤ s.grab.grab_y)) s in
      show_preview (detect_snap w s1) s1

  -- `server::process_cursor_move`, for the grabbed window.
  unfoldable pub process_cursor_move : ℕ → Server → Server
  process_cursor_move v s =
      let s1 = start_drag v s in
      if not s.grab.restore_pending
      then drag_window v s
      else if below_threshold s
      then s
      else drag_window v s1

  unfoldable pub snap_dropped : SnapDetect → ℕ → Server → Server
  snap_dropped sd v s =
      if sd.maximize
      then toggle_maximize w v s
      else if is_snapped sd.edge
      then snap_to w sd.edge v s
      else s

  unfoldable pub drop_window : CursorMode → Option ℕ → Server → Server
  drop_window move (some v) s = if (s.store v).mapped then snap_dropped (detect_snap w s) v s else s
  drop_window _ _ s = s

  -- The release of a button in `server::on_cursor_button`.
  unfoldable pub release_button : Server → Server
  release_button s =
      drop_window s.grab.mode s.grab.grabbed_view
        (hide_snap_indicator (record s { grab = release_grab s.grab }))
