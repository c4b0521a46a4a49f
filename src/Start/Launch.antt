-- ===== src/Start/Launch.antt =====
-- `server::run` and `main` of src/main.cc: what is started in which order, and what decides where the configuration is
-- read.
use steppewm.Base.{
  ℕ, Bool, true, false, not, Option, none, some, List, [], ◌∷◌, ◌++◌, if◌then◌else◌, Bytes, codes,
  print_to, is_empty,
}
use steppewm.Start.{
  System, Process, set_env, start_xwayland, setup_portals, fix_dbus_address, start_keyring,
  update_dbus_environment,
}

module _ (to_string : ℕ → Bytes) (sys : System) where
  -- The variables that `server::run` sets before it starts programs.
  unfoldable pub name_session : Bytes → Process → Process
  name_session socket p = set_env (codes "XDG_CURRENT_DESKTOP") (codes "steppewm") (
      set_env (codes "XDG_SESSION_TYPE") (codes "wayland")
        (set_env (codes "WAYLAND_DISPLAY") socket p))

  -- What `server::run` does before the monitors, the tray and the commands of the configuration.
  unfoldable pub prepare : Bool → Bytes → Process → Process
  prepare xwayland socket p =
      let named = name_session socket p in
      let x = if xwayland then start_xwayland to_string sys named else named in
      update_dbus_environment (start_keyring sys (setup_portals sys (fix_dbus_address sys x)))

  -- `server::run` up to the event loop; false if it gives up.
  unfoldable pub run : Bool → Option Bytes → Bool → Process → Process × Bool
  run xwayland none started p = (p, false)
  run xwayland (some socket) started p =
      if started then (prepare xwayland socket p, true) else (p, false)

-- What `getopt_long` finds on the command line.
pub data Opt : Type 0 where
  opt_config : Bytes → Opt
  opt_version opt_help opt_other : Opt

-- How the command line is answered: the process ends with a code, or goes on with the path of `-c`.
pub data Answer : Type 0 where
  exit_with : Bool → Answer
  go_on : Option Bytes → Answer

-- The loop over the options; `path` is `cli_config_path`.
unfoldable pub read_options : List Opt → Option Bytes → Answer
read_options [] path = go_on path
read_options (opt_config arg ∷ opts) path = read_options opts (some arg)
read_options (opt_version ∷ opts) path = exit_with true
read_options (opt_help ∷ opts) path = exit_with true
read_options (opt_other ∷ opts) path = exit_with false

abbrev pub is_text : Option Bytes → Bool
is_text none = false
is_text (some cs) = not (is_empty cs)

abbrev pub text_or : Bytes → Option Bytes → Bytes
text_or default none = default
text_or default (some cs) = cs

-- Where `main` reads the configuration: from the path of `-c`, from `XDG_CONFIG_HOME`, or from `HOME`.
unfoldable pub config_path : Option Bytes → Option Bytes → Option Bytes → Bytes
config_path cli config_home home =
    if is_text cli
    then print_to 511 (text_or [] cli)
    else if is_text config_home
    then print_to 511 (text_or [] config_home ++ codes "/steppewm/config.lua")
    else print_to 511 (text_or (codes "/root") home ++ codes "/.config/steppewm/config.lua")
