-- ===== src/Wlr.antt =====
-- What the compositor sees of wlroots: boxes (`struct wlr_box`), the surfaces and scene nodes that
-- its code tells apart, and the calls that it makes. wlroots is not part of the repository. Its state
-- is a function of the calls made so far, and the record `Wlroots` holds the functions that the source
-- reads back; `IsSeat` states what is documented of the keyboard focus.
pub mod Seat
pub mod Layout
use Prim.Native.String.{String}
use steppewm.Base.{ℕ, ℤ, Bool, Option, List}

-- `struct wlr_box`.
pub record Box : Type 0 where
  pub x : ℤ
  pub y : ℤ
  pub width : ℤ
  pub height : ℤ

-- A surface that may hold a focus: a window's, a layer surface's, a lock surface's, or another one
-- (a popup, a subsurface, a cursor), each by its address.
pub data Surface : Type 0 where
  toplevel layer lock other : ℕ → Surface

-- The scene nodes that the modelled code touches. A window's nodes carry its address, an output's
-- layer trees its address and the layer's number, a button of a decoration the window's address and
-- the button's number.
pub data Node : Type 0 where
  scene_tree xdg_tree lock_surface_tree : ℕ → Node
  layer_tree deco_button : ℕ → ℕ → Node
  lock_tree lock_bg lock_msg_tree switcher_tree snap_indicator drag_icon_tree tray_menu_tree
        osd_tree :
      Node

-- What a tablet's tool or its pad tells the focused client.
pub data ToolEvent : Type 0 where
  tool_motion tool_pressure tool_distance tool_tilt : ToolEvent
  tool_rotation tool_slider tool_wheel tool_down tool_up : ToolEvent
  tool_proximity_in : Option Surface → ToolEvent
  tool_proximity_out : ToolEvent
  tool_button : ℕ → Bool → ToolEvent
  pad_button : ℕ → Bool → ToolEvent
  pad_ring pad_strip : ℕ → Bool → ToolEvent

-- The calls with an effect outside the modelled state. `taskbar_*`, `deco_*` and `render_switcher`
-- stand for the drawing that the compositor does itself. `output_commit` has the mode that is set, by its
-- size and rate, whether a scale is, and the transform.
pub data Call : Type 0 where
  node_set_enabled : Node → Bool → Call
  node_set_position : Node → ℤ → ℤ → Call
  node_raise_to_top node_destroy : Node → Call
  rect_set_size : Node → ℤ → ℤ → Call
  toplevel_set_size : ℕ → ℤ → ℤ → Call
  toplevel_set_maximized toplevel_set_fullscreen toplevel_set_activated : ℕ → Bool → Call
  toplevel_set_tiled : ℕ → ℕ → Call
  toplevel_send_close schedule_configure : ℕ → Call
  decoration_set_mode_server : ℕ → Call
  foreign_create foreign_destroy ext_foreign_create ext_foreign_destroy : ℕ → Call
  foreign_set_maximized foreign_set_fullscreen foreign_set_minimized : ℕ → Bool → Call
  foreign_set_activated : ℕ → Bool → Call
  keyboard_enter : Surface → Call
  keyboard_clear_focus pointer_clear_focus : Call
  set_inhibited : Bool → Call
  taskbar_create taskbar_delete : ℕ → Call
  taskbar_refresh taskbar_raise taskbar_update_geometry : ℕ → Call
  taskbar_view_added taskbar_view_removed : ℕ → ℕ → Call
  deco_set_focus : ℕ → Bool → Call
  deco_set_visible : ℕ → Bool → Call
  deco_create deco_update deco_destroy : ℕ → Call
  render_switcher : Call
  osd_show_workspace : ℕ → Call
  lock_destroy lock_send_locked : ℕ → Call
  lock_surface_configure : ℕ → ℤ → ℤ → Call
  lock_message_draw : ℕ → Call
  constraint_update display_terminate reload_config : Call
  spawn : String → Call
  notify_activity : Call
  pointer_notify_enter pointer_notify_motion : Surface → Call
  pointer_notify_button : ℕ → Bool → Call
  pointer_notify_axis : Call
  set_cursor : String → Call
  deco_set_hover : Node → Bool → Call
  tray_menu_hover tray_close_menu : Call
  tray_menu_click tray_activate tray_secondary_activate tray_context_menu : ℕ → Call
  constraint_activated constraint_deactivated : ℕ → Call
  seat_set_keyboard keyboard_notify_modifiers : Call
  keyboard_notify_key : ℕ → Bool → Call
  session_change_vt : ℕ → Call
  osd_show_text : List ℕ → Call
  output_commit : ℕ → Bool → Option (ℤ × ℤ × ℤ) → Bool → Option ℕ → Call
  output_layout_add : ℕ → Option (ℤ × ℤ) → Call
  output_layout_remove scene_output_create output_init_render layer_surfaces_configure : ℕ → Call
  broadcast_output_config : Call
  node_lower_to_bottom : Node → Call
  node_place_above : Node → Node → Call
  layer_surface_destroy : ℕ → Call
  layer_surface_create : ℕ → ℕ → ℕ → Call
  layer_surface_configure : ℕ → ℤ → ℤ → Call
  popup_create : ℕ → Call
  popup_unconstrain : ℕ → Box → Call
  tablet_notify : ℕ → ToolEvent → Call
  pointer_enter_tip : Option Surface → Call
  pointer_motion_tip : Call
  output_config_answer : Bool → Call
  cursor_move cursor_warp relative_motion : ℤ → ℤ → Call

-- What the source reads of wlroots, as functions of the calls made so far (the newest first):
-- `seat->keyboard_state.focused_surface`, `seat->pointer_state.focused_surface`, whether
-- `wlr_seat_get_keyboard` is not null, `wlr_output_layout_output_at` (at a point in 256ths of a
-- layout pixel), `wlr_output_layout_get_box` (of one output, or of the whole layout), and whether the
-- creation of a window's foreign-toplevel handles gives one.
pub record Wlroots : Type 0 where
  pub focused_surface : List Call → Option Surface
  pub pointer_surface : List Call → Option Surface
  pub has_keyboard : List Call → Bool
  pub output_at : List Call → ℤ → ℤ → Option ℕ
  pub get_box : List Call → Option ℕ → Box
  pub foreign_created : List Call → Bool
  pub ext_foreign_created : List Call → Bool
