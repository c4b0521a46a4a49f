-- ===== src/Settings/Read.antt =====
-- The globals of a Lua state, and `config::read_visual` of src/config.cc.
use Prim.Native.String.{String}
use text.Mathlib.Text.{◌==◌ as str_eq}
use steppewm.Base.{ℕ, ℤ, pos, negsuc, ◌-◌, ◌%◌, ◌^◌, Bool, Option, none, some, ltb, if◌then◌else◌}
use steppewm.State.{TaskbarPos, top, bottom}
use steppewm.Settings.{Env, Value, Color, Colors, Sizes}

-- `static_cast<int>` of a 64-bit integer.
abbrev pub residue : ℤ → ℕ
residue (pos n) = n % 2 ^ 32
residue (negsuc n) = 2 ^ 32 - 1 - n % 2 ^ 32

abbrev pub wrap_int : ℤ → ℤ
wrap_int n = if ltb (residue n) (2 ^ 31) then pos (residue n) else negsuc (2 ^ 32 - 1 - residue n)

unfoldable pub or_old {ℓ} : {A : Type ℓ} → Option A → A → A
or_old none old = old
or_old (some new) old = new

module _ {F : Type 0} (env : Env F) where
  -- `read_color`, `read_bool`, `read_int`, `read_float` and `read_string`, on the global's value and the field's.
  unfoldable pub read_color : Value F → Color F → Color F
  read_color v c =
      if v.is_table
      then record {
        r = or_old (v.nth 1) c.r;
        g = or_old (v.nth 2) c.g;
        b = or_old (v.nth 3) c.b;
        a = or_old (v.nth 4) c.a;
      }
      else c

  unfoldable pub read_bool : Value F → Bool → Bool
  read_bool v old = or_old v.boolean old

  unfoldable pub read_number : Option F → ℤ → ℤ
  read_number none old = old
  read_number (some x) old = env.to_int x

  unfoldable pub read_int : Value F → ℤ → ℤ
  read_int v old = elim v.integer [ none ↦ read_number v.number old | some n ↦ wrap_int n ]

  unfoldable pub read_float : Value F → F → F
  read_float v old = or_old v.number old

  unfoldable pub cut_or_old : ℕ → Option String → String → String
  cut_or_old n none old = old
  cut_or_old n (some s) old = env.cut n s

  -- For a field of `n + 1` bytes.
  unfoldable pub read_string : ℕ → Value F → String → String
  read_string n v old = cut_or_old n v.text old

  unfoldable pub position_named : String → TaskbarPos → TaskbarPos
  position_named s old = if str_eq s "top" then top else if str_eq s "bottom" then bottom else old

  module _ (globals : String → Value F) where
    unfoldable pub read_sizes : Sizes → Sizes
    read_sizes c = record {
      title_h = read_int (globals "title_height") c.title_h;
      border_w = read_int (globals "border_width") c.border_w;
      corner_size = read_int (globals "corner_size") c.corner_size;
      close_button_w = read_int (globals "close_button_width") c.close_button_w;
      maximize_button_w = read_int (globals "maximize_button_width") c.maximize_button_w;
      minimize_button_w = read_int (globals "minimize_button_width") c.minimize_button_w;
      title_font_size = read_int (globals "title_font_size") c.title_font_size;
      taskbar_h = read_int (globals "taskbar_height") c.taskbar_h;
      taskbar_button_w = read_int (globals "taskbar_button_width") c.taskbar_button_w;
      taskbar_button_pad = read_int (globals "taskbar_button_pad") c.taskbar_button_pad;
      title_gradient = read_bool (globals "title_gradient") c.title_gradient;
      button_style = read_string 15 (globals "button_style") c.button_style;
      border_style = read_string 15 (globals "border_style") c.border_style;
      font = read_string 63 (globals "font") c.font;
      center_title_text = read_bool (globals "center_title_text") c.center_title_text;
      buttons_left = read_bool (globals "buttons_left") c.buttons_left;
      taskbar_position =
          position_named (read_string 15 (globals "taskbar_position") "") c.taskbar_position;
    }

    unfoldable pub read_colors : Colors F → Colors F
    read_colors c =
        let border = read_color (globals "border_color") c.color_border in
        let button = read_color (globals "button_color") c.color_button in
        let button_inactive = read_color (globals "button_inactive") c.color_button_inactive in
        let task_normal = read_color (globals "task_normal") c.color_task_normal in
        record {
          color_title_active = read_color (globals "title_active") c.color_title_active;
          color_title_inactive = read_color (globals "title_inactive") c.color_title_inactive;
          color_border = border;
          color_border_active = read_color (globals "border_active") border;
          color_border_inactive = read_color (globals "border_inactive") border;
          color_close_active = read_color (globals "close_active") c.color_close_active;
          color_close_inactive = read_color (globals "close_inactive") c.color_close_inactive;
          color_button = button;
          color_button_inactive = button_inactive;
          color_title_text = read_color (globals "title_text") c.color_title_text;
          color_maximize_active = read_color (globals "maximize_active") button;
          color_maximize_inactive = read_color (globals "maximize_inactive") button_inactive;
          color_minimize_active = read_color (globals "minimize_active") button;
          color_minimize_inactive = read_color (globals "minimize_inactive") button_inactive;
          color_close_hover = read_color (globals "close_hover") c.color_close_hover;
          color_maximize_hover = read_color (globals "maximize_hover") c.color_maximize_hover;
          color_minimize_hover = read_color (globals "minimize_hover") c.color_minimize_hover;
          color_taskbar_bg = read_color (globals "taskbar_bg") c.color_taskbar_bg;
          color_taskbar_accent = read_color (globals "taskbar_accent") c.color_taskbar_accent;
          color_task_normal = task_normal;
          color_task_active = read_color (globals "task_active") c.color_task_active;
          color_task_minimized = read_color (globals "task_minimized") c.color_task_minimized;
          color_task_urgent = read_color (globals "task_urgent") c.color_task_urgent;
          color_task_text = read_color (globals "task_text") c.color_task_text;
          color_tray_bg = read_color (globals "tray_bg") task_normal;
          color_indicator_bg = read_color (globals "indicator_bg") task_normal;
        }

    unfoldable pub read_visual : Colors F × Sizes → Colors F × Sizes
    read_visual (colors, sizes) = (read_colors colors, read_sizes sizes)
