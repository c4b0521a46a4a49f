-- ===== src/Pointer.antt =====
-- Pointer events: `server::on_cursor_button`, `on_cursor_axis`, `process_cursor_motion`, `cursor_move_relative` and
-- `on_cursor_motion` of src/input.cc. What is found under the pointer in the scene (`view::at` and `deco_at`), the
-- tray and its menu are arguments; the bars are those of Taskbar, as they are drawn.
pub mod Press
pub mod Motion
pub mod Places
pub mod Clicked
use Prim.Native.String.{String}
use steppewm.Base.{ℕ, ℤ, Bool, Option, List}
use steppewm.Wlr.{Surface}
use steppewm.State.{Server}
use steppewm.Deco.{DecoNode}
use steppewm.Taskbar.{Taskbar}

-- What is under the pointer: the window of `view::at` and the surface that it finds, and the decoration
-- of `deco_at` with the node that was hit.
pub record Under : Type 0 where
  pub view : Option ℕ
  pub surface : Option Surface
  pub deco : Option (ℕ × DecoNode)

-- `tray_host`, if there is one: how many items it has, whether its menu is open, and which item of the
-- menu is under the pointer.
pub record Tray : Type 0 where
  pub items : ℕ
  pub menu_open : Bool
  pub menu_item : Option ℕ

-- The commands of `class config` that a click or the wheel can run.
pub record Commands : Type 0 where
  pub pins : List String
  pub brightness_scroll_up : String
  pub brightness_scroll_down : String
  pub volume_scroll_up : String
  pub volume_scroll_down : String
  pub volume_middle_button : String

-- The server with its bars, by the address of their output, and its active pointer constraint.
pub record Pointing : Type 0 where
  pub srv : Server
  pub bars : ℕ → Taskbar
  pub active_constraint : Option ℕ
