-- ===== src/Settings/Load.antt =====
-- Running the configuration file: `load_theme_lua`, `load`, `run_execs` and `reload` of src/config.cc.
use Prim.Native.String.{String}
use text.Mathlib.Text.{◌==◌ as str_eq}
use steppewm.Base.{
  Bool, true, false, not, ◌&&◌, ◌||◌, Option, List, [], ◌∷◌, ◌++◌, if◌then◌else◌, length, ltb, any,
}
use steppewm.Settings.{Env, Value, Options, Settings}
use steppewm.Settings.Defaults.{set_defaults}
use steppewm.Settings.Read.{or_old, read_bool, read_int, read_float, read_string, read_visual}
use steppewm.Settings.Calls.{Called, max_execs, lua_exec, lua_bind, lua_bindswitch, lua_pin}
use steppewm.Settings.Outputs.{OutputTable, lua_output}
use steppewm.Settings.Theme.{is_set, resolve_name, Dims, fit_theme}

-- A call that the file makes, with its arguments as texts where they are texts.
pub data LuaCall (F : Type 0) : Type 0 where
  exec : Option String → LuaCall F
  bind : Option String → Option String → Option String → Option String → LuaCall F
  bindswitch : Option String → Option String → Option String → LuaCall F
  output : Option String → Option (OutputTable F) → LuaCall F
  pin : Option String → Option String → Option String → LuaCall F

-- One call of a file; a protected one (`pcall`) does not end the file when it raises an error.
pub record Statement (F : Type 0) : Type 0 where
  pub called : LuaCall F
  pub protected : Bool

-- A file as `load` meets it: it cannot be read; there is no memory for a Lua state; or it makes the calls, may
-- then fail, and leaves the globals.
pub data File (F : Type 0) : Type 0 where
  unreadable no_state : File F
  script : List (Statement F) → Bool → (String → Value F) → File F

-- The settings after `load`, and what it returns.
pub record Loaded (F : Type 0) : Type 0 where
  pub cfg : Settings F
  pub ok : Bool

-- The settings after `run_execs`, and the commands that it starts.
pub record Started (F : Type 0) : Type 0 where
  pub cfg : Settings F
  pub spawned : List String

module _ {F : Type 0} (env : Env F) where
  unfoldable pub run_call : LuaCall F → Settings F → Called F
  run_call (exec cmd) c = lua_exec env cmd c
  run_call (bind mods key action arg) c = lua_bind env mods key action arg c
  run_call (bindswitch switch action arg) c = lua_bindswitch env switch action arg c
  run_call (output name t) c = lua_output env name t c
  run_call (pin app_id command icon) c = lua_pin env app_id command icon c

  -- `luaL_dofile`, as far as the file's calls go.
  unfoldable pub run_calls : List (Statement F) → Settings F → Called F
  run_calls [] c = record { cfg = c; raised = false }
  run_calls (s ∷ ss) c =
      let r = run_call s.called c in
      let rest = run_calls ss r.cfg in if r.raised && not s.protected then r else rest

  -- Reads the colors and the sizes.
  unfoldable pub show_globals : (String → Value F) → Settings F → Settings F
  show_globals globals c =
      let seen = read_visual env globals (c.colors, c.sizes) in
      record c { colors = seen.0; sizes = seen.1 }

  unfoldable pub read_theme : File F → Settings F → Settings F
  read_theme unreadable c = c
  read_theme no_state c = c
  read_theme (script calls fails globals) c = if fails then c else show_globals globals c

  -- `theme_file` gives the `theme.lua` of a folder; the functions of the configuration are not defined there.
  unfoldable pub load_theme_lua : (String → File F) → Settings F → Settings F
  load_theme_lua theme_file c =
      if is_set c.options.theme_path then read_theme (theme_file c.options.theme_path) c else c

  -- The options up to the theme.
  unfoldable pub read_input : (String → Value F) → Options F → Options F
  read_input globals o = record o {
    xkb_layout = read_string env 63 (globals "keyboard_layout") o.xkb_layout;
    xkb_variant = read_string env 63 (globals "keyboard_variant") o.xkb_variant;
    xkb_options = read_string env 127 (globals "keyboard_options") o.xkb_options;
    repeat_rate = read_int env (globals "repeat_rate") o.repeat_rate;
    repeat_delay = read_int env (globals "repeat_delay") o.repeat_delay;
    tap_to_click = read_bool env (globals "tap_to_click") o.tap_to_click;
    natural_scroll = read_bool env (globals "natural_scroll") o.natural_scroll;
    pointer_accel = read_float env (globals "pointer_accel") o.pointer_accel;
    accel_profile = read_string env 15 (globals "accel_profile") o.accel_profile;
    xwayland = read_bool env (globals "xwayland") o.xwayland;
    theme_name = read_string env 127 (globals "theme") o.theme_name;
  }

  unfoldable pub find_theme : Options F → Options F
  find_theme o = record o {
    theme_path =
        if is_set o.theme_name
        then or_old (resolve_name env o.theme_name) o.theme_path
        else o.theme_path;
  }

  -- The options after the colors and sizes.
  unfoldable pub read_bar : (String → Value F) → Options F → Options F
  read_bar globals o = record o {
    taskbar_all_outputs = read_bool env (globals "taskbar_all_outputs") o.taskbar_all_outputs;
    taskbar_all_workspaces =
        read_bool env (globals "taskbar_all_workspaces") o.taskbar_all_workspaces;
    battery_path = read_string env 319 (globals "battery_path") o.battery_path;
    backlight_path = read_string env 319 (globals "backlight_path") o.backlight_path;
    brightness_scroll_up =
        read_string env 511 (globals "brightness_scroll_up") o.brightness_scroll_up;
    brightness_scroll_down =
        read_string env 511 (globals "brightness_scroll_down") o.brightness_scroll_down;
    volume_scroll_up = read_string env 511 (globals "volume_scroll_up") o.volume_scroll_up;
    volume_scroll_down = read_string env 511 (globals "volume_scroll_down") o.volume_scroll_down;
    volume_middle_button =
        read_string env 511 (globals "volume_middle_button") o.volume_middle_button;
  }

  -- What `load` reads once the file has run.
  unfoldable pub read_globals : (String → File F) → (String → Value F) → Settings F → Settings F
  read_globals theme_file globals c =
      let c1 = record c { options = find_theme (read_input globals c.options) } in
      let c2 = show_globals globals (load_theme_lua theme_file c1) in
      record c2 { options = read_bar globals c2.options }

  unfoldable pub load : (String → File F) → File F → Settings F → Loaded F
  load theme_file unreadable c = record { cfg = c; ok = true }
  load theme_file no_state c = record { cfg = c; ok = false }
  load theme_file (script calls fails globals) c =
      let r = run_calls calls c in
      if r.raised || fails
      then record { cfg = r.cfg; ok = false }
      else record { cfg = read_globals theme_file globals r.cfg; ok = true }

-- "don't run those we already ran".
abbrev pub is_among : String → List String → Bool
is_among cmd cmds = any (λ c. str_eq cmd c) cmds

-- The commands remembered as run, and those started, for the commands that are left.
unfoldable pub start_execs : List String → List String → List String × List String
start_execs [] ran = (ran, [])
start_execs (cmd ∷ cmds) ran =
    let already = is_among cmd ran in
    let room = not already && ltb (length ran) max_execs in
    let (ran1, started) = start_execs cmds (if room then ran ++ (cmd ∷ []) else ran) in
    (ran1, if already then started else cmd ∷ started)

unfoldable pub run_execs : {F : Type 0} → Settings F → Started F
run_execs c =
    let (ran, started) = start_execs c.execs c.ran_execs in
    record { cfg = record c { ran_execs = ran }; spawned = started }

-- `reload` up to the devices, windows and outputs that then take the new settings; `dims` is what
-- `get_dims` gives for the theme of a folder.
unfoldable pub reload :
    {F : Type 0} → Env F → (String → File F) → (String → Dims) → File F → Settings F → Started F
reload env theme_file dims file c =
    let c1 = record (set_defaults env c) { execs = [] } in
    let r = run_execs (load env theme_file file c1).cfg in
    let c2 = r.cfg in
    record r { cfg = record c2 { sizes = fit_theme (dims c2.options.theme_path) c2.sizes } }
