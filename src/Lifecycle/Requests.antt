-- ===== src/Lifecycle/Requests.antt =====
-- New windows, a reload's pass over the windows, and activation requests: `view::on_new`, `reconfigure_all`,
-- `from_surface` and `handle_activation_request` of src/view.cc.
use steppewm.Base.{
  ℕ, pos, Bool, true, false, not, ◌||◌, is_some, Option, none, some, ◌==◌, if◌then◌else◌, for_each,
}
use steppewm.Wlr.{
  Box, Wlroots, Surface, toplevel, lock_tree, node_raise_to_top, deco_update, deco_set_focus,
}
use steppewm.Wlr.Seat.{is_surface}
use steppewm.State.{View, Server, DecoMode, unsnapped, emit, emit_if, modify, move_content}
use steppewm.View.{focus, set_urgent}
use steppewm.Workspace.{workspace_switch}

abbrev no_box : Box
no_box = record { x = pos 0; y = pos 0; width = pos 0; height = pos 0 }

-- `new view()` with the assignments of `on_new`; the client switches to server decorations later.
unfoldable pub new_view : View
new_view = record {
  decoration_mode = DecoMode.client;
  pending_deco = false;
  maximized = false;
  fullscreen = false;
  minimized = false;
  urgent = false;
  mapped = false;
  pinned = false;
  workspace = 0;
  snapped = unsnapped;
  saved_geo = no_box;
  foreign_handle = false;
  foreign_ext_handle = false;
  initial_configure_idle = false;
  initialized = false;
  has_data = true;
  geometry = no_box;
  x = pos 0;
  y = pos 0;
  xdg_x = pos 0;
  xdg_y = pos 0;
}

-- `on_new`, for the address of the new window.
unfoldable pub on_new : ℕ → Server → Server
on_new v s = emit_if s.locked (node_raise_to_top lock_tree) (modify v (λ o. new_view) s)

-- The xdg surface that is the root of a surface, by its role: none at all or another role, a toplevel by the
-- address of its window, a popup with no parent, or a popup with the root of its parent.
pub data Root : Type 0 where
  not_xdg orphan : Root
  xdg_toplevel : ℕ → Root
  xdg_popup : Root → Root

-- The loop of `from_surface`: up from a popup to the surface that it belongs to.
unfoldable pub above : Root → Root
above (xdg_popup parent) = above parent
above r = r

-- "static_cast<view*>(xdg->toplevel->base->data)" of a toplevel, which is null once the window is gone.
unfoldable pub view_of : Root → Server → Option ℕ
view_of (xdg_toplevel v) s = if (s.store v).has_data then some v else none
view_of r s = none

-- `struct wlr_xdg_activation_token_v1`: its surface, whether its seat is the compositor's, and whether the
-- serial is one of its client's on that seat.
pub record Token : Type 0 where
  pub surface : Option Surface
  pub of_seat : Bool
  pub valid_serial : Bool

abbrev pub same_window : Option ℕ → Option ℕ → Bool
same_window none none = true
same_window (some a) (some b) = a == b
same_window _ _ = false

module _ (w : Wlroots) where
  -- The body of the loop of `reconfigure_all`.
  unfoldable pub redecorate : Option Surface → ℕ → Server → Server
  redecorate focused v s =
      let s1 = emit (deco_update v) (move_content v s.cfg.border_w s.cfg.title_h s) in
      let s2 = emit (deco_set_focus v (is_surface focused (toplevel v))) s1 in
      elim (s.store v).decoration_mode [ DecoMode.server ↦ s2 | DecoMode.client ↦ s ]

  -- `reconfigure_all`, with the new sizes in `cfg`.
  unfoldable pub reconfigure_all : Server → Server
  reconfigure_all s =
      let s1 = record s { hovered_deco_view = none; hovered_deco_node = none } in
      for_each (redecorate (w.focused_surface s1.calls)) s1.views s1

  -- `root` gives what wlroots knows of the root surface of a surface.
  module _ (root : Surface → Root) where
    -- `from_surface`.
    unfoldable pub from_surface : Option Surface → Server → Option ℕ
    from_surface none s = none
    from_surface (some x) s = view_of (above (root x)) s

    -- `activation_token_valid`, for the request's token.
    unfoldable pub token_valid : Option Surface → Option Token → Server → Bool
    token_valid focused none s = false
    token_valid focused (some t) s =
        if not t.of_seat || not (is_some t.surface)
        then false
        else if not (is_some focused)
        then false
        else if not (same_window (from_surface focused s) (from_surface t.surface s))
        then false
        else t.valid_serial

    -- `surface_is_view_focused`.
    unfoldable pub is_view_focused : ℕ → Server → Bool
    is_view_focused v s = same_window (from_surface (w.focused_surface s.calls) s) (some v)

    unfoldable pub activate_target : Bool → ℕ → Server → Server
    activate_target valid v s =
        let o = s.store v in
        if valid
        then focus w v (
            if o.workspace == s.current_workspace
            then s
            else workspace_switch w (pos o.workspace) s)
        else if is_view_focused v s
        then s
        else set_urgent true v s

    -- `handle_activation_request`, for the surface to activate and the token.
    unfoldable pub handle_activation_request : Option Surface → Option Token → Server → Server
    handle_activation_request target token s = elim (from_surface target s) [
      | none ↦ s
      | some v ↦
          if (s.store v).mapped
          then activate_target (token_valid (w.focused_surface s.calls) token s) v s
          else s
    ]
