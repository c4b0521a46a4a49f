-- ===== src/Settings/Calls.antt =====
-- The functions that `config::load` gives to the Lua file: `lua_exec`, `lua_bind`, `lua_bindswitch`, `lua_pin`
-- and `lua_output` of src/config.cc.
use Prim.Native.String.{String}
use Prim.Native.Nat.{bit_or}
use steppewm.Base.{
  ℕ, suc, leb, Bool, true, false, ◌||◌, Option, none, some, List, [], ◌∷◌, ◌++◌, ◌==◌,
  if◌then◌else◌, length,
}
use steppewm.Dispatch.{Keybind, Switchbind}
use steppewm.Settings.{Env, PinnedApp, Settings}
use steppewm.Settings.Read.{cut_or_old}

-- `src/config.h`: CFG_MAX_BINDS and so on.
abbrev pub max_binds : ℕ
max_binds = 128

abbrev pub max_switchbinds : ℕ
max_switchbinds = 16

abbrev pub max_execs : ℕ
max_execs = 64

abbrev pub max_output_cfgs : ℕ
max_output_cfgs = 16

abbrev pub max_pins : ℕ
max_pins = 32

-- What a call leaves, and whether it raised a Lua error.
pub record Called (F : Type 0) : Type 0 where
  pub cfg : Settings F
  pub raised : Bool

-- `WLR_MODIFIER_SHIFT`, `_CTRL`, `_ALT` and `_LOGO`.
abbrev pub modifier_shift : ℕ
modifier_shift = 1

abbrev pub modifier_ctrl : ℕ
modifier_ctrl = 4

abbrev pub modifier_alt : ℕ
modifier_alt = 8

abbrev pub modifier_logo : ℕ
modifier_logo = 64

-- Writes one element of an array.
abbrev pub set_at {ℓ} : {A : Type ℓ} → ℕ → A → (ℕ → A) → ℕ → A
set_at i x f j = if j == i then x else f j

-- `lid` and `tablet_mode` of `enum class switch_type`.
abbrev pub lid : ℕ
lid = 0

abbrev pub tablet_mode : ℕ
tablet_mode = 1

module _ {F : Type 0} (env : Env F) where
  abbrev pub failed : Settings F → Called F
  failed c = record { cfg = c; raised = true }

  abbrev pub done : Settings F → Called F
  done c = record { cfg = c; raised = false }

  -- The body of the loop of `parse_modifiers`.
  unfoldable pub modifier_named : String → ℕ
  modifier_named tok =
      if env.same_ignoring_case tok "alt"
      then modifier_alt
      else if env.same_ignoring_case tok "super" || env.same_ignoring_case tok "mod4"
      then modifier_logo
      else if env.same_ignoring_case tok "shift"
      then modifier_shift
      else if env.same_ignoring_case tok "ctrl" || env.same_ignoring_case tok "control"
      then modifier_ctrl
      else 0

  unfoldable pub add_modifiers : ℕ → List String → ℕ
  add_modifiers mods [] = mods
  add_modifiers mods (tok ∷ toks) = add_modifiers (bit_or mods (modifier_named tok)) toks

  unfoldable pub parse_modifiers : String → ℕ
  parse_modifiers str = add_modifiers 0 (env.tokens (env.cut 63 str))

  -- `exec(command)`. An argument that is no text makes `luaL_checkstring` raise an error.
  unfoldable pub lua_exec : Option String → Settings F → Called F
  lua_exec none c = failed c
  lua_exec (some cmd) c =
      if leb max_execs (length c.execs)
      then failed c
      else done (record c { execs = c.execs ++ (env.cut 511 cmd ∷ []) })

  -- The binding that is written over `old`.
  unfoldable pub key_slot : String → ℕ → String → Option String → Keybind → Keybind
  key_slot mods sym action arg old = record {
    modifiers = parse_modifiers mods;
    sym = sym;
    action = env.cut 31 action;
    arg = cut_or_old env 511 arg old.arg;
  }

  unfoldable pub bind_sym : Option ℕ → String → String → Option String → Settings F → Called F
  bind_sym none mods action arg c = failed c
  bind_sym (some sym) mods action arg c = done (record c {
    binds = set_at c.nbinds (key_slot mods sym action arg (c.binds c.nbinds)) c.binds;
    nbinds = suc c.nbinds;
  })

  -- `bind(mods, key, action, arg)`; the `keysym` of a text that names no key is none.
  unfoldable pub lua_bind :
      Option String → Option String → Option String → Option String → Settings F → Called F
  lua_bind (some mods) (some key) (some action) arg c =
      if leb max_binds c.nbinds
      then failed c
      else bind_sym (env.keysym_from_name key) mods action arg c
  lua_bind _ _ _ arg c = failed c

  -- "on" and "off".
  unfoldable pub switch_state : String → Option Bool
  switch_state s =
      if env.same_ignoring_case s "on"
      then some true
      else if env.same_ignoring_case s "off"
      then some false
      else none

  -- The type and the state that the first argument of `bindswitch` names.
  unfoldable pub parse_switch : String → ℕ × Option Bool
  parse_switch s =
      if env.starts_ignoring_case "lid:" s
      then (lid, switch_state (env.drop_bytes 4 s))
      else if env.starts_ignoring_case "tablet:" s
      then (tablet_mode, switch_state (env.drop_bytes 7 s))
      else (lid, none)

  unfoldable pub switch_slot : ℕ → Bool → String → Option String → Switchbind → Switchbind
  switch_slot kind on action arg old = record {
    kind = kind;
    state_on = on;
    action = env.cut 31 action;
    arg = cut_or_old env 511 arg old.arg;
  }

  unfoldable pub bind_switch : ℕ × Option Bool → String → Option String → Settings F → Called F
  bind_switch (kind, none) action arg c = failed c
  bind_switch (kind, some on) action arg c = done (record c {
    switchbinds =
        set_at c.nswitchbinds (switch_slot kind on action arg (c.switchbinds c.nswitchbinds))
          c.switchbinds;
    nswitchbinds = suc c.nswitchbinds;
  })

  -- `bindswitch(switch, action, arg)`.
  unfoldable pub lua_bindswitch :
      Option String → Option String → Option String → Settings F → Called F
  lua_bindswitch (some switch) (some action) arg c =
      if leb max_switchbinds c.nswitchbinds
      then failed c
      else bind_switch (parse_switch switch) action arg c
  lua_bindswitch _ _ arg c = failed c

  unfoldable pub pin_slot : String → String → Option String → PinnedApp
  pin_slot app_id command icon = record {
    app_id = env.cut 127 app_id;
    command = env.cut 511 command;
    icon_path = cut_or_old env 511 icon "";
  }

  -- `pin(app_id, command, icon)`.
  unfoldable pub lua_pin : Option String → Option String → Option String → Settings F → Called F
  lua_pin (some app_id) (some command) icon c =
      if leb max_pins (length c.pins)
      then failed c
      else done (record c { pins = c.pins ++ (pin_slot app_id command icon ∷ []) })
  lua_pin _ _ icon c = failed c
