-- ===== src/Taskbar/Monitors.antt =====
-- What the bar's indicators show, and the timers and watches that refresh them: `read_battery` and `read_brightness` (on
-- Linux), `layout_code`, `clock_tick`, `on_indicator_poll`, `on_brightness_inotify` and `init_monitors` of
-- src/taskbar.cc. What files contain is an argument.
use steppewm.Base.{
  ℕ, ◌-◌, ℤ, pos, negsuc, ◌+ℤ◌, ◌*ℤ◌, ◌/ℤ◌, leb_ℤ, pos_part, Bool, true, false, not, ◌&&◌, Option,
  none, some, [], ◌++◌, if◌then◌else◌, Bytes, codes, print_to, same, is_empty,
}
use steppewm.Wlr.{osd_show_text}
use steppewm.State.{Server, emit, refresh_taskbars}
use steppewm.Keyboard.{skip_layouts, layout_name, or_us}

-- `bat_state`, and `bat_info` with the percentage.
pub data BatState : Type 0 where
  charging discharging full unknown : BatState

pub record BatInfo : Type 0 where
  pub capacity : ℤ
  pub state : BatState

unfoldable pub state_of : Bytes → BatState
state_of status =
    if same status (codes "Charging")
    then charging
    else if same status (codes "Full")
    then full
    else if same status (codes "Discharging")
    then discharging
    else unknown

-- Whether the path of a device is one to read: neither empty nor "auto".
unfoldable pub is_path : Bytes → Bool
is_path path = not (is_empty path) && not (same path (codes "auto"))

abbrev pub or_zero : Option ℤ → ℤ
or_zero none = pos 0
or_zero (some n) = n

abbrev pub or_empty : Option Bytes → Bytes
or_empty none = []
or_empty (some cs) = cs

-- `read_int` gives the number that a file starts with, if the file can be opened and starts with one;
-- `read_word` the first 31 bytes of its first word.
module _ (read_int : Bytes → Option (Option ℤ)) (read_word : Bytes → Option Bytes) where
  -- `bat_info::read_battery`, with what it returns.
  unfoldable pub read_battery : Bytes → BatInfo → BatInfo × Bool
  read_battery path b =
      if is_path path
      then elim (read_int (print_to 383 (path ++ codes "/capacity"))) [
        | none ↦ (b, false)
        | some n ↦ (
          record {
            capacity = or_zero n;
            state = state_of (or_empty (read_word (print_to 383 (path ++ codes "/status"))));
          },
          true,
        )
      ]
      else (b, false)

  -- The percentage of a brightness; none is -1.
  unfoldable pub percentage : ℤ → ℤ → Option ℤ
  percentage cur max =
      if leb_ℤ max (pos 0) then none else some ((cur *ℤ pos 100 +ℤ max /ℤ 2) /ℤ pos_part max)

  unfoldable pub read_levels : Option (Option ℤ) → Option (Option ℤ) → Option ℤ
  read_levels (some cur) (some max) = percentage (or_zero cur) (or_zero max)
  read_levels _ _ = none

  -- `read_brightness`.
  unfoldable pub read_brightness : Bytes → Option ℤ
  read_brightness path =
      if is_path path
      then read_levels (read_int (print_to 383 (path ++ codes "/brightness")))
          (read_int (print_to 383 (path ++ codes "/max_brightness")))
      else none

  unfoldable pub show_brightness : (ℤ → Bytes) → Option ℤ → Server → Server
  show_brightness to_string none s = s
  show_brightness to_string (some pct) s =
      if leb_ℤ (pos 0) pct
      then emit (osd_show_text (print_to 31 (codes "BRI " ++ to_string pct ++ codes "%"))) s
      else s

  -- `on_brightness_inotify`, with the path of the backlight.
  unfoldable pub on_brightness_inotify : (ℤ → Bytes) → Bytes → Server → Server
  on_brightness_inotify to_string path s =
      let s1 = refresh_taskbars s in
      if s1.osd_overlay then show_brightness to_string (read_brightness path) s1 else s1

-- `layout_code` into `len` bytes: the name of the keyboard's group among the configured layouts.
unfoldable pub layout_code : (ℕ → ℕ) → ℕ → Bytes → Option ℕ → Bytes
layout_code to_upper len xkb_layout none = or_us (layout_name to_upper (len - 1) xkb_layout)
layout_code to_upper len xkb_layout (some group) =
    or_us (layout_name to_upper (len - 1) (skip_layouts group xkb_layout))

-- What `clock_tick` arms its timer with, in milliseconds, at a second of the minute.
unfoldable pub clock_ms : ℤ → ℤ
clock_ms sec =
    let ms = (pos 60 +ℤ negsuc 0 *ℤ sec) *ℤ pos 1000 in if leb_ℤ ms (pos 0) then pos 60000 else ms

-- The server with the timer that polls the indicators, in milliseconds, and the file that is watched.
pub record Monitors : Type 0 where
  pub srv : Server
  pub indicator_timer : Option ℕ
  pub watched : Option Bytes

-- `on_indicator_poll`.
unfoldable pub on_indicator_poll : Monitors → Monitors
on_indicator_poll k = record k { srv = refresh_taskbars k.srv; indicator_timer = some 2000 }

-- `init_monitors` on Linux; `can_watch` says that inotify takes the file.
unfoldable pub init_monitors : (Bytes → Bool) → Bytes → Monitors → Monitors
init_monitors can_watch path k =
    let file = print_to 383 (path ++ codes "/brightness") in
    record k {
      indicator_timer = some 2000;
      watched = if is_path path && can_watch file then some file else none;
    }
