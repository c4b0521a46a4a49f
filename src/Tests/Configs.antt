-- ===== src/Tests/Configs.antt =====
-- The theorems on the configuration, on a small file: `F` is ℕ, a float counted in hundredths.
use Prim.Native.String.{String}
use text.Mathlib.Text.{◌==◌ as str_eq}
use steppewm.Base.{
  ℕ, pos, ◌+◌, ltb, true, false, none, some, List, [], ◌∷◌, ◌≡◌, refl, arith, if◌then◌else◌,
}
use steppewm.Base.{◌==◌}
use steppewm.State.{Server}
use steppewm.Output.Taskbars.{taskbars}
use steppewm.Output.Configure.{Backend, reconfigure_all}
use steppewm.Output.Configured.{reconfigure_all-one}
use steppewm.Settings.Outputs.{fresh}
use steppewm.Tests.{desk, screen}
use steppewm.Settings.{Env, Value, OutputConfig, Settings}
use steppewm.Settings.Defaults.{set_defaults}
use steppewm.Settings.Calls.{lua_exec, lua_bind, bind_sym}
use steppewm.Settings.Outputs.{OutputTable, find_output, lua_output, read_entry}
use steppewm.Settings.Theme.{Dims}
use steppewm.Settings.Load.{LuaCall, output}
use steppewm.Settings.Load.{
  exec, bind, Statement, File, script, run_call, run_calls, run_execs, load,
}
use steppewm.Settings.Limits.{IsBounded, load-IsBounded}
use steppewm.Settings.Errors.{SameLook, IsSpared, run_call-raised, load-failed}
use steppewm.Settings.Registry.{rewritten, lua_output-rewritten}
use steppewm.Settings.Startup.{count, run_execs_once}
use steppewm.Settings.Reloading.{load-over_theme}
use steppewm.Settings.Look.{IsUsers}

abbrev env : Env ℕ
env = record {
  cut = λ n s. s;
  drop_bytes = λ n s. if str_eq s "lid:on" then "on" else "off";
  same_ignoring_case = λ a b. str_eq a b;
  starts_ignoring_case = λ p s. str_eq p "lid:";
  starts_with = λ p s. str_eq p "BAT";
  tokens = λ s. s ∷ [];
  keysym_from_name = λ s. if str_eq s "Return" then some 65293 else none;
  scan_mode = λ s.
      if str_eq s "1920x1080"
      then (some (pos 1920), some (pos 1080), none)
      else (some (pos 640), none, none);
  hundredths = λ n. n;
  to_int = λ n. pos n;
  to_mhz = λ n. pos (10 + n);
  is_positive = λ n. ltb 0 n;
  power_supply = "BAT0" ∷ [];
  backlight = [];
  getenv = λ s. some "/home/me";
  is_dir = λ s. true;
  uninitialized = "";
}

abbrev nil : Value ℕ
nil = record {
  is_table = false;
  nth = λ i. none;
  boolean = none;
  integer = none;
  number = none;
  text = none;
}

abbrev integer : ℕ → Value ℕ
integer n = record {
  is_table = false;
  nth = λ i. none;
  boolean = none;
  integer = some (pos n);
  number = some n;
  text = none;
}

abbrev named : String → Value ℕ
named s = record {
  is_table = false;
  nth = λ i. none;
  boolean = none;
  integer = none;
  number = none;
  text = some s;
}

abbrev red : Value ℕ
red = record {
  is_table = true;
  nth = λ i. some 90;
  boolean = none;
  integer = none;
  number = none;
  text = none;
}

-- The user sets the theme and the height of titles; the theme sets that too, and the active border.
abbrev user_globals : String → Value ℕ
user_globals s =
    if str_eq s "title_height" then integer 24 else if str_eq s "theme" then named "dark" else nil

abbrev theme_globals : String → Value ℕ
theme_globals s =
    if str_eq s "title_height" then integer 30 else if str_eq s "border_active" then red else nil

abbrev theme_file : String → File ℕ
theme_file s = script [] false theme_globals

abbrev calls : List (Statement ℕ)
calls =
    record { called = exec (some "panel"); protected = false }
    ∷ record {
      called = bind (some "super") (some "Return") (some "exec") (some "term");
      protected = false;
    }
    ∷ record { called = bind (some "super") (some "Retrun") (some "exec") none; protected = true }
    ∷ []

abbrev blank : Settings ℕ
blank = record {
  binds = λ i. record { modifiers = 0; sym = 0; action = ""; arg = "" };
  nbinds = 0;
  switchbinds = λ i. record { kind = 0; state_on = false; action = ""; arg = "" };
  nswitchbinds = 0;
  execs = [];
  ran_execs = "bar" ∷ [];
  output_cfgs = [];
  pins = [];
  colors = steppewm.Settings.Defaults.default_colors env;
  sizes = steppewm.Settings.Defaults.default_sizes;
  options = record {
    xkb_layout = "us";
    xkb_variant = "";
    xkb_options = "";
    repeat_rate = pos 30;
    repeat_delay = pos 600;
    tap_to_click = true;
    natural_scroll = false;
    pointer_accel = 0;
    accel_profile = "";
    xwayland = false;
    theme_path = "";
    theme_name = "";
    taskbar_all_outputs = false;
    taskbar_all_workspaces = false;
    battery_path = "auto";
    backlight_path = "auto";
    brightness_scroll_up = "";
    brightness_scroll_down = "";
    volume_scroll_up = "";
    volume_scroll_down = "";
    volume_middle_button = "mute";
  };
}

abbrev started : Settings ℕ
started = record blank { execs = "panel" ∷ "bar" ∷ "panel" ∷ [] }

blank-IsBounded : IsBounded blank
blank-IsBounded = record {
  binds = omega arith;
  switchbinds = omega arith;
  execs = omega arith;
  outputs = omega arith;
  pins = omega arith;
}

load-IsBounded_example : IsBounded (load env theme_file (script calls false user_globals) blank).cfg
load-IsBounded_example =
    load-IsBounded env theme_file (script calls false user_globals) blank blank-IsBounded

-- A second entry is refused for its position, after its mode was read.
abbrev refused : LuaCall ℕ
refused = output (some "DP-2") (
    some (record {
      mode = some "1920x1080";
      position = some (some (pos 0), none);
      scale = none;
      transform = none;
      enabled = none;
    }))

abbrev one_output : Settings ℕ
one_output = record blank { output_cfgs = fresh env "DP-1" ∷ [] }

run_call-raised_example : IsSpared env refused one_output (run_call env refused one_output).cfg
unfolding run_call lua_output find_output fresh read_entry steppewm.Settings.Outputs.and_then
    steppewm.Settings.Outputs.read_mode steppewm.Settings.Outputs.set_mode
    steppewm.Settings.Read.or_old steppewm.Settings.Outputs.read_position
run_call-raised_example = run_call-raised env refused one_output refl

load-failed_example :
    SameLook env (load env theme_file (script calls true user_globals) blank).cfg blank
unfolding load run_calls run_call lua_exec lua_bind bind_sym
load-failed_example = load-failed env theme_file (script calls true user_globals) blank refl

abbrev table : OutputTable ℕ
table = record {
  mode = some "1920x1080";
  position = none;
  scale = none;
  transform = some "90";
  enabled = none;
}

lua_output-rewritten_example :
    find_output "DP-1" (lua_output env (some "DP-1") (some table) blank).cfg.output_cfgs
    ≡ rewritten env "DP-1" (λ o. (read_entry env table o).oc) (λ k. none) "DP-1"
unfolding find_output
lua_output-rewritten_example = lua_output-rewritten env "DP-1" "DP-1" table blank refl refl

run_execs_once_example :
    (count "panel" (run_execs started).spawned ≡ 1)
    × ((run_execs (run_execs started).cfg).spawned ≡ [])
run_execs_once_example = run_execs_once "panel" started (omega arith)

-- The same settings with other bindings, launchers and commands in use.
abbrev other : Settings ℕ
other = record blank { nbinds = 4; pins = []; execs = "xterm" ∷ [] }

abbrev no_images : String → Dims
no_images s = record { title_h = pos 0; close_w = pos 0; maximize_w = pos 0; minimize_w = pos 0 }

load-over_theme_example :
    let r = (load env theme_file (script calls false user_globals) blank).cfg in
    IsUsers env user_globals r.colors r.sizes
    × ((user_globals "border_active").is_table ≡ false
        → r.colors.color_border_active ≡ r.colors.color_border)
unfolding run_calls run_call lua_exec lua_bind bind_sym
load-over_theme_example = load-over_theme env theme_file calls user_globals blank refl

abbrev backend : Backend
backend = record {
  name = λ o. if o == 7 then "DP-1" else "DP-2";
  modes = λ o. [];
  preferred_mode = λ o. none;
  commits = λ cs o. true;
}

-- The first of two outputs is turned off.
abbrev off : OutputConfig ℕ
off = record (fresh env "DP-1") { enabled = false }

abbrev two_screens : Server
two_screens = record desk {
  outputs =
      screen ∷ record screen { wlr_output = 8; output_taskbar = false; scene_output = false } ∷ [];
}

reconfigure_all-one_example :
    taskbars (reconfigure_all env backend (off ∷ []) two_screens).outputs ≡ 1
unfolding find_output fresh
reconfigure_all-one_example =
    reconfigure_all-one env backend (off ∷ []) two_screens (refl, (refl, tt)) refl
