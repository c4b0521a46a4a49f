-- ===== src/Window.antt =====
-- Maximized, fullscreen and snapped windows: `view::snap_to`, `view::apply_state` and the handlers that
-- call it, `view::get_box` and `view::unmaximize_to_cursor` (src/view.cc).
pub mod Geometry
pub mod Restore
pub mod States
use steppewm.Base.{
  ℕ, ℤ, pos, pos_part, ◌+ℤ◌, ◌-ℤ◌, ◌*ℤ◌, ◌/ℤ◌, ltb_ℤ, leb_ℤ, ◌*◌, Bool, true, false, not, ◌&&◌,
  ◌||◌, Option, none, some, if◌then◌else◌,
}
use steppewm.Wlr.{
  Box, Wlroots, node_raise_to_top, scene_tree, toplevel_set_size, toplevel_set_maximized,
  toplevel_set_fullscreen, toplevel_set_tiled, schedule_configure, deco_set_visible,
  foreign_set_maximized, foreign_set_fullscreen,
}
use steppewm.State.{
  View, Server, SnapEdge, unsnapped, left, right, top_left, top_right, bottom_left, bottom_right,
  DecoMode, server, client, emit, emit_if, modify, move_window, move_content,
}
use steppewm.Output.{usable_area}
use steppewm.Snap.{pixels, snap_zone, snap_tiled_edges}
use steppewm.View.{raise_overlays}

abbrev pub is_snapped : SnapEdge → Bool
is_snapped unsnapped = false
is_snapped _ = true

-- The window's geometry is not its own: `was_special`.
abbrev pub is_special : View → Bool
is_special o = o.maximized || o.fullscreen || is_snapped o.snapped

abbrev if_server : DecoMode → ℤ → ℤ
if_server server n = n
if_server client n = pos 0

-- The width of the border and the height of the title bar, nothing without server-side decorations.
abbrev pub deco_x : ℕ → Server → ℤ
deco_x v s = if_server (s.store v).decoration_mode s.cfg.border_w

abbrev pub deco_y : ℕ → Server → ℤ
deco_y v s = if_server (s.store v).decoration_mode s.cfg.title_h

-- "save the current geometry", unless the window has left it already.
unfoldable pub with_saved_geometry : View → View
with_saved_geometry o = if is_special o then o else record o {
  saved_geo = record { x = o.x; y = o.y; width = o.geometry.width; height = o.geometry.height };
}

unfoldable pub save_geometry : ℕ → Server → Server
save_geometry v s = modify v with_saved_geometry s

-- The fields that say how the window is shown, and the client is told.
unfoldable pub set_states : Bool → Bool → SnapEdge → ℕ → Server → Server
set_states maximized fullscreen edge v s = emit (toplevel_set_tiled v (snap_tiled_edges edge)) (
    emit (toplevel_set_fullscreen v fullscreen) (
      emit (toplevel_set_maximized v maximized) (
        modify v (λ o. record o { maximized = maximized; fullscreen = fullscreen; snapped = edge })
          s)))

-- The last calls of both branches of `view::snap_to`.
unfoldable pub show_snapped : ℕ → Server → Server
show_snapped v s = emit (schedule_configure v) (raise_overlays (emit (deco_set_visible v true) s))

-- `view::snap_to` with the edge NONE.
unfoldable pub unsnap : ℕ → Server → Server
unsnap v s =
    if not (is_special (s.store v))
    then s
    else (let geo = (s.store v).saved_geo in
        let s1 = move_content v (deco_x v s) (deco_y v s) s in
        let s2 = emit (toplevel_set_size v geo.width geo.height) (move_window v geo.x geo.y s1) in
        show_snapped v (set_states false false unsnapped v s2))

-- The window takes a zone, decorations included.
unfoldable pub occupy : Box → SnapEdge → ℕ → Server → Server
occupy zone edge v s =
    let ox = deco_x v s in
    let oy = deco_y v s in
    let s1 = move_content v ox oy (move_window v zone.x zone.y s) in
    let s2 = emit (toplevel_set_size v (zone.width -ℤ pos 2 *ℤ ox) (zone.height -ℤ oy -ℤ ox)) s1 in
    show_snapped v (set_states false false edge v s2)

-- `view::apply_state` tells the window's handle, too.
unfoldable pub announce_states : Bool → Bool → ℕ → Server → Server
announce_states maximized fullscreen v s =
    let has_handle = (s.store v).foreign_handle in
    emit_if has_handle (foreign_set_fullscreen v fullscreen)
      (emit_if has_handle (foreign_set_maximized v maximized) s)

-- "restore state if we are exiting".
unfoldable pub restore_geometry : ℕ → Server → Server
restore_geometry v s =
    let geo = (s.store v).saved_geo in
    emit (toplevel_set_size v geo.width geo.height)
      (move_window v geo.x geo.y (move_content v (deco_x v s) (deco_y v s) s))

-- The end of `view::apply_state`: the stacking, and the configure event.
unfoldable pub restack : Bool → Bool → ℕ → Server → Server
restack was_fullscreen fullscreen v s =
    let s1 = emit (deco_set_visible v (not fullscreen)) s in
    let s2 =
      if fullscreen
      then emit (node_raise_to_top (scene_tree v)) s1
      else if was_fullscreen
      then raise_overlays s1
      else s1 in
    emit_if (s2.store v).initialized (schedule_configure v) s2

module _ (w : Wlroots) where
  -- The output under the cursor, or else under the window's corner.
  unfoldable pub output_for : ℕ → Server → Option ℕ
  output_for v s = elim (w.output_at s.calls s.cursor_x s.cursor_y) [
    | some out ↦ some out
    | none ↦ w.output_at s.calls (pixels (s.store v).x) (pixels (s.store v).y)
  ]

  -- `view::snap_to` with an edge other than NONE. No output, no change.
  unfoldable pub snap_on : Option ℕ → SnapEdge → ℕ → Server → Server
  snap_on none edge v s = s
  snap_on (some out) edge v s = elim (snap_zone edge (usable_area w s (some out))) [
    | none ↦ s
    | some zone ↦ occupy zone edge v s
  ]

  unfoldable pub snap_to_edge : SnapEdge → ℕ → Server → Server
  snap_to_edge edge v s = let s1 = save_geometry v s in snap_on (output_for v s1) edge v s1

  -- `view::snap_to`.
  unfoldable pub snap_to : SnapEdge → ℕ → Server → Server
  snap_to edge v s =
      if not (s.store v).initialized
      then s
      else if is_snapped edge
      then snap_to_edge edge v s
      else unsnap v s

  -- "fill the output with the view": the whole output, or its usable area.
  unfoldable pub fill_output : Option ℕ → Bool → ℕ → Server → Server
  fill_output out true v s =
      let b = w.get_box s.calls out in
      emit (toplevel_set_size v b.width b.height)
        (move_content v (pos 0) (pos 0) (move_window v b.x b.y s))
  fill_output out false v s =
      let b = usable_area w s out in
      let ox = deco_x v s in
      let oy = deco_y v s in
      emit (toplevel_set_size v (b.width -ℤ pos 2 *ℤ ox) (b.height -ℤ oy -ℤ ox))
        (move_content v ox oy (move_window v b.x b.y s))

  unfoldable pub change_geometry : Bool → Bool → ℕ → Server → Server
  change_geometry maximized fullscreen v s =
      if maximized || fullscreen
      then (let s1 = save_geometry v s in fill_output (output_for v s1) fullscreen v s1)
      else if is_special (s.store v)
      then restore_geometry v s
      else s

  -- `view::apply_state`.
  unfoldable pub apply_state : Bool → Bool → ℕ → Server → Server
  apply_state maximized fullscreen v s =
      if not (s.store v).initialized
      then s
      else (let s1 = change_geometry maximized fullscreen v s in
          let s2 =
            announce_states maximized fullscreen v
              (set_states maximized fullscreen unsnapped v s1) in
          restack (s.store v).fullscreen fullscreen v s2)

  -- `view::handle_request_maximize` and `view::handle_request_fullscreen`, with the state that the
  -- client requests.
  unfoldable pub handle_request_maximize : Bool → ℕ → Server → Server
  handle_request_maximize requested v s = apply_state requested (s.store v).fullscreen v s

  unfoldable pub handle_request_fullscreen : Bool → ℕ → Server → Server
  handle_request_fullscreen requested v s = apply_state (s.store v).maximized requested v s

  -- `view::toggle_maximize` and `view::toggle_fullscreen`.
  unfoldable pub toggle_maximize : ℕ → Server → Server
  toggle_maximize v s = apply_state (not (s.store v).maximized) (s.store v).fullscreen v s

  unfoldable pub toggle_fullscreen : ℕ → Server → Server
  toggle_fullscreen v s = apply_state (s.store v).maximized (not (s.store v).fullscreen) v s
