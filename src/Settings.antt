-- ===== src/Settings.antt =====
-- The configuration: `class config` of src/config.h with src/config.cc, which runs a Lua file. Lua, libc and
-- xkbcommon are not part of the repository: `Env` holds what the code asks of them. A `float` is a value of a
-- type `F`, of which the code needs the decimal literals and a few conversions.
pub mod Defaults
pub mod Read
pub mod Calls
pub mod Outputs
pub mod Theme
pub mod Load
pub mod Limits
pub mod Errors
pub mod Registry
pub mod Startup
pub mod Look
pub mod Reloading
use Prim.Native.String.{String}
use steppewm.Base.{ℕ, ℤ, Bool, Option, List}
use steppewm.State.{TaskbarPos}
use steppewm.Dispatch.{Keybind, Switchbind}

-- What the code asks of its surroundings. `cut n` is what `strncpy` and `snprintf` keep of a text that goes
-- into `n + 1` bytes; `tokens` are those of `strtok_r` at "+"; `scan_mode` gives the numbers that
-- `sscanf` reads with "%dx%d@%f", as far as it gets. The directories are those of `opendir`, in the order of
-- `readdir`; `uninitialized` is what a buffer on the stack holds before it is written.
pub record Env (F : Type 0) : Type 0 where
  pub cut : ℕ → String → String
  pub drop_bytes : ℕ → String → String
  pub same_ignoring_case : String → String → Bool
  pub starts_ignoring_case : String → String → Bool
  pub starts_with : String → String → Bool
  pub tokens : String → List String
  pub keysym_from_name : String → Option ℕ
  pub scan_mode : String → Option ℤ × Option ℤ × Option F
  pub hundredths : ℕ → F
  pub to_int : F → ℤ
  pub to_mhz : F → ℤ
  pub is_positive : F → Bool
  pub power_supply : List String
  pub backlight : List String
  pub getenv : String → Option String
  pub is_dir : String → Bool
  pub uninitialized : String

-- A Lua value, by what the functions `lua_is*` and `lua_to*` answer: whether it is a table and what its
-- elements are as numbers; its value as a Boolean, an integer, a number and a text, if it is one.
pub record Value (F : Type 0) : Type 0 where
  pub is_table : Bool
  pub nth : ℕ → Option F
  pub boolean : Option Bool
  pub integer : Option ℤ
  pub number : Option F
  pub text : Option String

pub record Color (F : Type 0) : Type 0 where
  pub r : F
  pub g : F
  pub b : F
  pub a : F

-- The colors of `class config`.
pub record Colors (F : Type 0) : Type 0 where
  pub color_title_active : Color F
  pub color_title_inactive : Color F
  pub color_border : Color F
  pub color_border_active : Color F
  pub color_border_inactive : Color F
  pub color_close_active : Color F
  pub color_close_inactive : Color F
  pub color_button : Color F
  pub color_button_inactive : Color F
  pub color_title_text : Color F
  pub color_maximize_active : Color F
  pub color_maximize_inactive : Color F
  pub color_minimize_active : Color F
  pub color_minimize_inactive : Color F
  pub color_close_hover : Color F
  pub color_maximize_hover : Color F
  pub color_minimize_hover : Color F
  pub color_taskbar_bg : Color F
  pub color_taskbar_accent : Color F
  pub color_task_normal : Color F
  pub color_task_active : Color F
  pub color_task_minimized : Color F
  pub color_task_urgent : Color F
  pub color_task_text : Color F
  pub color_tray_bg : Color F
  pub color_indicator_bg : Color F

-- The sizes and styles that a theme can set.
pub record Sizes : Type 0 where
  pub title_h : ℤ
  pub border_w : ℤ
  pub corner_size : ℤ
  pub close_button_w : ℤ
  pub maximize_button_w : ℤ
  pub minimize_button_w : ℤ
  pub title_font_size : ℤ
  pub taskbar_h : ℤ
  pub taskbar_button_w : ℤ
  pub taskbar_button_pad : ℤ
  pub title_gradient : Bool
  pub button_style : String
  pub border_style : String
  pub font : String
  pub center_title_text : Bool
  pub buttons_left : Bool
  pub taskbar_position : TaskbarPos

-- `class pinned_app`.
pub record PinnedApp : Type 0 where
  pub app_id : String
  pub command : String
  pub icon_path : String

-- `class output_config`. A transform of none is the -1 that means unset.
pub record OutputConfig (F : Type 0) : Type 0 where
  pub name : String
  pub width : ℤ
  pub height : ℤ
  pub refresh_mhz : ℤ
  pub has_position : Bool
  pub x : ℤ
  pub y : ℤ
  pub scale : F
  pub transform : Option ℕ
  pub enabled : Bool

-- The fields that `load` reads from the user's file only.
pub record Options (F : Type 0) : Type 0 where
  pub xkb_layout : String
  pub xkb_variant : String
  pub xkb_options : String
  pub repeat_rate : ℤ
  pub repeat_delay : ℤ
  pub tap_to_click : Bool
  pub natural_scroll : Bool
  pub pointer_accel : F
  pub accel_profile : String
  pub xwayland : Bool
  pub theme_path : String
  pub theme_name : String
  pub taskbar_all_outputs : Bool
  pub taskbar_all_workspaces : Bool
  pub battery_path : String
  pub backlight_path : String
  pub brightness_scroll_up : String
  pub brightness_scroll_down : String
  pub volume_scroll_up : String
  pub volume_scroll_down : String
  pub volume_middle_button : String

-- `class config`. The arrays of bindings keep what an earlier load left in their elements; of the other
-- arrays every field of an element is written when it is taken into use.
pub record Settings (F : Type 0) : Type 0 where
  pub binds : ℕ → Keybind
  pub nbinds : ℕ
  pub switchbinds : ℕ → Switchbind
  pub nswitchbinds : ℕ
  pub execs : List String
  pub ran_execs : List String
  pub output_cfgs : List (OutputConfig F)
  pub pins : List PinnedApp
  pub colors : Colors F
  pub sizes : Sizes
  pub options : Options F
