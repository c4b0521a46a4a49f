-- ===== src/Start.antt =====
-- Starting the compositor: the environment that src/main.cc sets up, the display for X, the path of the
-- configuration, and the command line. libc and the programs that are started are arguments.
pub mod Displays
pub mod Launch
use steppewm.Base.{
  ℕ, zero, suc, Bool, true, false, not, ◌&&◌, ◌||◌, Option, none, some, List, [], ◌∷◌, ◌++◌, ◌==◌,
  if◌then◌else◌, Bytes, codes, print_to, same, is_empty,
}

-- What the files and the programs of the system are: which paths exist, which can be opened for writing, and what
-- the keyring daemon prints, piece by piece as `fgets` gives it.
pub record System : Type 0 where
  pub exists : Bytes → Bool
  pub writable : Bytes → Bool
  pub keyring_output : Option (List Bytes)

-- What is done outside of the process.
pub data Effect : Type 0 where
  execute : List Bytes → Effect
  make_dir : Bytes → Effect
  write_file : Bytes → Effect

-- The environment of the process, and what it did, the newest first.
pub record Process : Type 0 where
  pub environment : Bytes → Option Bytes
  pub effects : List Effect

-- `setenv` with overwriting; a variable has a name.
unfoldable pub set_env : Bytes → Bytes → Process → Process
set_env name value p =
    if is_empty name
    then p
    else record p { environment = λ x. if same x name then some value else p.environment x }

abbrev pub effect : Effect → Process → Process
effect e p = record p { effects = e ∷ p.effects }

abbrev pub x_socket : (ℕ → Bytes) → ℕ → Bytes
x_socket to_string n = print_to 63 (codes "/tmp/.X11-unix/X" ++ to_string n)

abbrev pub x_lock : (ℕ → Bytes) → ℕ → Bytes
x_lock to_string n = print_to 63 (codes "/tmp/.X" ++ to_string n ++ codes "-lock")

-- The directory of `setup_portals`, if one of the two variables is set.
unfoldable pub portals_dir : Option Bytes → Option Bytes → Option Bytes
portals_dir (some config_home) home =
    some (print_to 511 (config_home ++ codes "/xdg-desktop-portal"))
portals_dir none (some home) = some (print_to 511 (home ++ codes "/.config/xdg-desktop-portal"))
portals_dir none none = none

-- A text up to a byte, and the text after it, if it is there.
unfoldable pub before : ℕ → Bytes → Bytes
before b [] = []
before b (c ∷ cs) = let rest = before b cs in if c == b then [] else c ∷ rest

unfoldable pub after : ℕ → Bytes → Option Bytes
after b [] = none
after b (c ∷ cs) = let rest = after b cs in if c == b then some cs else rest

-- A line that the keyring daemon prints: `NAME=value`.
unfoldable pub read_line : Bytes → Process → Process
read_line line p =
    let text = before b'\n' line in
    elim (after b'=' text) [ none ↦ p | some value ↦ set_env (before b'=' text) value p ]

unfoldable pub read_lines : List Bytes → Process → Process
read_lines [] p = p
read_lines (line ∷ lines) p = read_lines lines (read_line line p)

abbrev pub keyring_command : List Bytes
keyring_command =
    codes "gnome-keyring-daemon" ∷ codes "--start" ∷ codes "--components=secrets,ssh,pkcs11" ∷ []

unfoldable pub read_keyring : Option (List Bytes) → Process → Process
read_keyring none p = p
read_keyring (some lines) p = read_lines lines (effect (execute keyring_command) p)

-- `update_dbus_environment`.
unfoldable pub update_dbus_environment : Process → Process
update_dbus_environment p =
    effect (execute (codes "dbus-update-activation-environment" ∷ codes "--all" ∷ [])) p

module _ (to_string : ℕ → Bytes) (sys : System) where
  abbrev pub is_free : ℕ → Bool
  is_free n = not (sys.exists (x_socket to_string n)) && not (sys.exists (x_lock to_string n))

  -- The loop of `find_free_x_display` from display `n` on, with `rounds` left.
  unfoldable pub free_from : ℕ → ℕ → Option ℕ
  free_from zero n = none
  free_from (suc rounds) n =
      let rest = free_from rounds (suc n) in if is_free n then some n else rest

  -- `server::find_free_x_display`; none is its -1.
  unfoldable pub find_free_x_display : Option ℕ
  find_free_x_display = free_from 32 0

  unfoldable pub serve_display : Option ℕ → Process → Process
  serve_display none p = p
  serve_display (some n) p =
      let display = print_to 15 (codes ":" ++ to_string n) in
      set_env (codes "DISPLAY") display
        (effect (execute (codes "xwayland-satellite" ∷ display ∷ [])) p)

  -- `server::start_xwayland`.
  unfoldable pub start_xwayland : Process → Process
  start_xwayland p = serve_display find_free_x_display p

module _ (sys : System) where
  unfoldable pub write_portals : Option Bytes → Process → Process
  write_portals none p = p
  write_portals (some dir) p =
      let path = print_to 575 (dir ++ codes "/steppewm-portals.conf") in
      let made = effect (make_dir dir) p in
      if sys.exists path
      then p
      else if sys.writable path
      then effect (write_file path) made
      else made

  -- `setup_portals`.
  unfoldable pub setup_portals : Process → Process
  setup_portals p =
      let env = p.environment in
      write_portals (portals_dir (env (codes "XDG_CONFIG_HOME")) (env (codes "HOME"))) p

  unfoldable pub use_bus : Option Bytes → Process → Process
  use_bus none p = p
  use_bus (some runtime_dir) p =
      let bus_path = print_to 255 (runtime_dir ++ codes "/bus") in
      if sys.exists bus_path
      then set_env (codes "DBUS_SESSION_BUS_ADDRESS")
          (print_to 299 (codes "unix:path=" ++ bus_path)) p
      else p

  -- `fix_dbus_address`.
  unfoldable pub fix_dbus_address : Process → Process
  fix_dbus_address p = use_bus (p.environment (codes "XDG_RUNTIME_DIR")) p

  -- `start_keyring`.
  unfoldable pub start_keyring : Process → Process
  start_keyring p = read_keyring sys.keyring_output p
