-- ===== src/Settings/Defaults.antt =====
-- `config::set_defaults` of src/config.cc.
use Prim.Native.String.{String, ◌++◌}
use steppewm.Base.{ℕ, pos, Bool, false, not, none, some, List, [], find}
use steppewm.State.{bottom}
use steppewm.Settings.{Env, Color, Colors, Sizes, Options, Settings}

-- The first entry of a directory that passes a test, as a path; "auto" if there is none.
unfoldable pub first_entry : (String → String) → String → (String → Bool) → List String → String
first_entry shorten folder test names = elim (find test names) [
  | none ↦ "auto"
  | some name ↦ shorten (folder ++ name)
]

-- Titles 20 high, borders 3 wide, a bar 24 high at the bottom.
unfoldable pub default_sizes : Sizes
default_sizes = record {
  title_h = pos 20;
  border_w = pos 3;
  corner_size = pos 8;
  close_button_w = pos 40;
  maximize_button_w = pos 20;
  minimize_button_w = pos 20;
  title_font_size = pos 0;
  taskbar_h = pos 24;
  taskbar_button_w = pos 150;
  taskbar_button_pad = pos 2;
  title_gradient = false;
  button_style = "symbol";
  border_style = "flat";
  font = "sans-serif";
  center_title_text = false;
  buttons_left = false;
  taskbar_position = bottom;
}

module _ {F : Type 0} (env : Env F) where
  unfoldable pub rgba : ℕ → ℕ → ℕ → ℕ → Color F
  rgba r g b a = record {
    r = env.hundredths r;
    g = env.hundredths g;
    b = env.hundredths b;
    a = env.hundredths a;
  }

  -- The colors; those that are copied from another are written as it.
  unfoldable pub default_colors : Colors F
  default_colors = record {
    color_title_active = rgba 24 24 24 100;
    color_title_inactive = rgba 14 14 14 100;
    color_border = rgba 20 20 20 100;
    color_border_active = rgba 20 20 20 100;
    color_border_inactive = rgba 20 20 20 100;
    color_close_active = rgba 85 8 8 100;
    color_close_inactive = rgba 45 6 6 100;
    color_button = rgba 38 38 38 100;
    color_button_inactive = rgba 32 32 32 100;
    color_title_text = rgba 88 88 88 100;
    color_maximize_active = rgba 38 38 38 100;
    color_maximize_inactive = rgba 32 32 32 100;
    color_minimize_active = rgba 38 38 38 100;
    color_minimize_inactive = rgba 32 32 32 100;
    color_close_hover = rgba 0 0 0 0;
    color_maximize_hover = rgba 0 0 0 0;
    color_minimize_hover = rgba 0 0 0 0;
    color_taskbar_bg = rgba 8 8 8 100;
    color_taskbar_accent = rgba 0 0 0 0;
    color_task_normal = rgba 18 18 18 100;
    color_task_active = rgba 30 30 30 100;
    color_task_minimized = rgba 12 12 12 100;
    color_task_urgent = rgba 65 8 8 100;
    color_task_text = rgba 88 88 88 100;
    color_tray_bg = rgba 18 18 18 100;
    color_indicator_bg = rgba 18 18 18 100;
  }

  -- `volume_middle_button` keeps its value.
  unfoldable pub default_options : Options F → Options F
  default_options o = record {
    xkb_layout = "";
    xkb_variant = "";
    xkb_options = "";
    repeat_rate = pos 25;
    repeat_delay = pos 600;
    tap_to_click = false;
    natural_scroll = false;
    pointer_accel = env.hundredths 0;
    accel_profile = "";
    xwayland = false;
    theme_path = "";
    theme_name = "";
    taskbar_all_outputs = false;
    taskbar_all_workspaces = false;
    battery_path =
        first_entry (env.cut 319) "/sys/class/power_supply/" (λ n. env.starts_with "BAT" n)
          env.power_supply;
    backlight_path =
        first_entry (env.cut 319) "/sys/class/backlight/" (λ n. not (env.starts_with "." n))
          env.backlight;
    brightness_scroll_up = "";
    brightness_scroll_down = "";
    volume_scroll_up = "";
    volume_scroll_down = "";
    volume_middle_button = o.volume_middle_button;
  }

  unfoldable pub set_defaults : Settings F → Settings F
  set_defaults c = record c {
    nbinds = 0;
    nswitchbinds = 0;
    output_cfgs = [];
    pins = [];
    colors = default_colors;
    sizes = default_sizes;
    options = default_options c.options;
  }
