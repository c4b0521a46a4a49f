-- ===== src/Tests.antt =====
-- A small desktop, and the theorems at work on it: three windows, one output with a taskbar, a seat
-- whose focus is read off the log, and an output layout of one box.
pub mod Windows
pub mod Screen
pub mod Locking
pub mod Handovers
pub mod Bars
pub mod Configs
pub mod Requests
pub mod Trays
pub mod Scenes
pub mod Starting
use steppewm.Base.{
  ℕ, ℤ, pos, negsuc, ◌+ℤ◌, ◌-ℤ◌, Bool, true, false, Option, none, some, List, [], ◌∷◌, ◌≡◌, refl,
  arith, ◌==◌, if◌then◌else◌, leb_ℤ, ltb_ℤ, ◌&&◌,
}
use steppewm.Wlr.{
  Box, Surface, toplevel, other, Call, keyboard_enter, keyboard_clear_focus, Wlroots,
}
use steppewm.Lifecycle.Requests.{Root, not_xdg, xdg_toplevel, xdg_popup, Token}
use steppewm.Wlr.Seat.{IsSeat, is_focus_call}
use steppewm.Wlr.Layout.{IsLayout}
use steppewm.Snap.{box}
use steppewm.State.{
  View, Output, Server, DecoMode, SnapEdge, CursorMode, TaskbarPos, unsnapped, left,
}

abbrev pub monitor : Box
monitor = box (pos 0) (pos 0) (pos 1920) (pos 1080)

abbrev focus_of : Call → Option Surface
focus_of (keyboard_enter x) = some x
focus_of _ = none

abbrev pub last_focus : List Call → Option Surface
last_focus [] = some (toplevel 1)
last_focus (c ∷ cs) = if is_focus_call c then focus_of c else last_focus cs

abbrev pub wlr : Wlroots
wlr = record {
  focused_surface = last_focus;
  pointer_surface = λ cs. none;
  has_keyboard = λ cs. true;
  output_at = λ cs x y. some 7;
  get_box = λ cs o. monitor;
  foreign_created = λ cs. true;
  ext_foreign_created = λ cs. true;
}

pub seat : IsSeat wlr
seat = record {
  focused-enter = λ x cs. refl;
  focused-clear = λ cs. refl;
  focused-other = λ c cs h. rw h refl;
}

abbrev pub layout : IsLayout wlr
layout = record { output_at-call = λ c cs x y. refl; get_box-call = λ c cs o. refl }

pub keyboard : (cs : List Call) → wlr.has_keyboard cs ≡ true
keyboard cs = refl

-- Surface 70 is a popup of window 3.
abbrev pub root : Surface → Root
root (toplevel v) = xdg_toplevel v
root (other a) = if a == 70 then xdg_popup (xdg_toplevel 3) else not_xdg
root x = not_xdg

-- A token from window 3, which does not have the keyboard.
abbrev pub bad_token : Option Token
bad_token = some (record { surface = some (toplevel 3); of_seat = true; valid_serial = true })

abbrev pub window : ℕ → View
window workspace = record {
  decoration_mode = DecoMode.server;
  pending_deco = false;
  maximized = false;
  fullscreen = false;
  minimized = false;
  urgent = true;
  mapped = true;
  pinned = false;
  workspace = workspace;
  snapped = unsnapped;
  saved_geo = box (pos 0) (pos 0) (pos 0) (pos 0);
  foreign_handle = true;
  foreign_ext_handle = true;
  initial_configure_idle = false;
  initialized = true;
  has_data = true;
  geometry = box (pos 0) (pos 0) (pos 640) (pos 480);
  x = pos 100;
  y = pos 50;
  xdg_x = pos 2;
  xdg_y = pos 21;
}

abbrev pub screen : Output
screen = record {
  wlr_output = 7;
  scene_output = true;
  dpms_off = false;
  output_taskbar = true;
  layer_trees = λ i. i == 2;
}

-- Windows 1 and 2 are on workspace 0, window 3 on workspace 1.
abbrev pub desk : Server
desk = record {
  store = λ v. window (if v == 3 then 1 else 0);
  views = 1 ∷ 2 ∷ 3 ∷ [];
  outputs = screen ∷ [];
  cascade_n = 2;
  cascade_x = 0;
  current_workspace = 0;
  max_visible_workspace = 1;
  focused_layer = none;
  sw = some (record { views = 1 ∷ 2 ∷ []; selected = 1; mods = 8 });
  cursor_x = pos 25600;
  cursor_y = pos 12800;
  inhibitors = record { address = 40; surface = toplevel 3; surface_mapped = true } ∷ [];
  idle_inhibit_manual = false;
  cur_lock = none;
  lock_msg_tree = false;
  locked = false;
  grab = record {
    mode = CursorMode.resize;
    grabbed_view = some 2;
    grab_x = pos 0;
    grab_y = pos 0;
    geobox = box (pos 102) (pos 71) (pos 640) (pos 480);
    resize_edges = 10;
    restore_pending = false;
    start_x = pos 0;
    start_y = pos 0;
  };
  titlebar_last_click_time = 0;
  titlebar_last_click_view = some 2;
  hovered_deco_node = none;
  hovered_deco_view = some 2;
  osd_overlay = true;
  cfg = record {
    title_h = pos 21;
    border_w = pos 2;
    taskbar_h = pos 30;
    taskbar_position = TaskbarPos.bottom;
    taskbar_all_outputs = false;
    taskbar_all_workspaces = false;
    taskbar_button_w = pos 150;
    taskbar_button_pad = pos 2;
    pins = "term" ∷ "web" ∷ [];
  };
  calls = [];
}
