-- ===== src/Taskbar.antt =====
-- The taskbar of one output: `class taskbar` of src/taskbar.h and src/taskbar.cc. Drawing is left out:
-- the texts' widths, the battery, the backlight, the volume and the tray are what the code measures, and
-- are arguments. Canvases of positive size can be painted, and the tray is compiled in.
pub mod Slots
pub mod Rows
pub mod Hits
pub mod Labels
pub mod Frame
pub mod Places
pub mod Shown
pub mod Monitors
use Prim.Native.String.{String}
use steppewm.Base.{ℕ, ℤ, pos, Bool, Option, List}

-- `class task_button`: the window, and the app id of its toplevel.
pub record Button : Type 0 where
  pub v : ℕ
  pub app_id : Option String

-- `taskbar::display_slot`. A slot has a button exactly if it has a window, the button's; so `btn` is not
-- a field of its own.
pub record Slot : Type 0 where
  pub v : Option ℕ
  pub pin_idx : Option ℕ
  pub x : ℤ
  pub w : ℤ

-- One of the texts on the right: its width, the place of its node in the bar, whether that is shown, and
-- the place on the screen that the hit tests read.
pub record Indicator : Type 0 where
  pub w : ℤ
  pub node_x : ℤ
  pub shown : Bool
  pub x : ℤ

-- `class taskbar`. `ws_labels` are the places of the shown workspace labels in the bar, and `urgent_armed`
-- says that the timer of the urgent flash is set.
pub record Taskbar : Type 0 where
  pub x : ℤ
  pub y : ℤ
  pub width : ℤ
  pub height : ℤ
  pub clock : Indicator
  pub layout_ind : Indicator
  pub battery : Indicator
  pub brightness : Indicator
  pub volume : Indicator
  pub idle_ind : Indicator
  pub tray_total_w : ℤ
  pub tray_x : ℤ
  pub ws_button_w : ℤ
  pub ws_labels : List ℤ
  pub slots : List Slot
  pub buttons : List Button
  pub button_w : ℤ
  pub hovered_ws_idx : Option ℕ
  pub hovered_slot_idx : Option ℕ
  pub urgent_flash_on : Bool
  pub urgent_armed : Bool

-- What the code measures while it lays the bar out: the widths of the texts (none where there is nothing
-- to read), and the number of tray items, if there is a tray.
pub record Metrics : Type 0 where
  pub clock_text : ℤ
  pub layout_text : ℤ
  pub battery_text : Option ℤ
  pub brightness_text : Option ℤ
  pub volume_text : Option ℤ
  pub idle_text : ℤ
  pub tray_items : Option ℕ
