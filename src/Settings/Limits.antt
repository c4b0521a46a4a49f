-- ===== src/Settings/Limits.antt =====
-- The limits of src/config.h under the calls of a configuration file, and what a failed file leaves
-- (src/config.cc).
use Prim.Native.String.{String}
use steppewm.Base.{
  ℕ, ◌≤◌, ◌+◌, leb, Bool, true, false, not, ◌&&◌, ◌||◌, Option, none, some, List, [], ◌∷◌, ◌++◌,
  ◌≡◌, refl, arith, length, is_some, Bool-cases, inl, inr,
}
use steppewm.Settings.{Env, Value, OutputConfig, Settings}
use steppewm.Settings.Calls.{
  max_binds, max_switchbinds, max_execs, max_output_cfgs, max_pins, lua_exec, lua_bind,
  lua_bindswitch, lua_pin, pin_slot, bind_sym, bind_switch, parse_switch,
}
use steppewm.Settings.Outputs.{OutputTable, Entry, find_output, put_output, read_entry, lua_output}
use steppewm.Settings.Theme.{is_set}
use steppewm.Settings.Load.{
  read_input, LuaCall, exec, bind, bindswitch, output, pin, Statement, File, unreadable, no_state,
  script, run_call, run_calls, read_globals, find_theme, show_globals, read_theme, load_theme_lua,
  load,
}

pub length-append {ℓ} : {A : Type ℓ} (xs : List A) (x : A) → length (xs ++ (x ∷ [])) ≡ length xs + 1
length-append [] x = refl
length-append (y ∷ ys) x = omega (arith, length-append ys x)

-- Every array has room for what it holds.
pub record IsBounded {F : Type 0} (c : Settings F) : Type 0 where
  pub binds : c.nbinds ≤ max_binds
  pub switchbinds : c.nswitchbinds ≤ max_switchbinds
  pub execs : length c.execs ≤ max_execs
  pub outputs : length c.output_cfgs ≤ max_output_cfgs
  pub pins : length c.pins ≤ max_pins

module _ {F : Type 0} (env : Env F) where
  length-put_output_known :
      (name : String) (f : OutputConfig F → Entry F) (os : List (OutputConfig F))
      → is_some (find_output name os) ≡ true
      → length (put_output env name f os) ≡ length os
  unfolding put_output find_output
  length-put_output_known name f [] h = ground arith
  length-put_output_known name f (o ∷ os) h = ground (arith, length-put_output_known name f os)

  length-put_output_new :
      (name : String) (f : OutputConfig F → Entry F) (os : List (OutputConfig F))
      → length (put_output env name f os) ≤ length os + 1
  unfolding put_output
  length-put_output_new name f [] = omega arith
  length-put_output_new name f (o ∷ os) = ground (arith, length-put_output_new name f os)

  lua_exec-IsBounded :
      (cmd : Option String) (c : Settings F) → IsBounded c → IsBounded (lua_exec env cmd c).cfg
  unfolding lua_exec
  lua_exec-IsBounded none c h = h
  lua_exec-IsBounded (some cmd) c h = ground (arith, length-append c.execs (env.cut 511 cmd))

  bind_sym-IsBounded :
      (sym : Option ℕ) (mods action : String) (arg : Option String) (c : Settings F)
      → IsBounded c
      → leb max_binds c.nbinds ≡ false
      → IsBounded (bind_sym env sym mods action arg c).cfg
  unfolding bind_sym
  bind_sym-IsBounded none mods action arg c h room = h
  bind_sym-IsBounded (some sym) mods action arg c h room = ground arith

  lua_bind-IsBounded :
      (mods key action arg : Option String) (c : Settings F)
      → IsBounded c
      → IsBounded (lua_bind env mods key action arg c).cfg
  unfolding lua_bind
  lua_bind-IsBounded (some mods) (some key) (some action) arg c h =
      elim (Bool-cases (leb max_binds c.nbinds)) [
        | inl e ↦ rw e h
        | inr e ↦ rw e (bind_sym-IsBounded (env.keysym_from_name key) mods action arg c h e)
      ]
  lua_bind-IsBounded none key action arg c h = h
  lua_bind-IsBounded (some mods) none action arg c h = h
  lua_bind-IsBounded (some mods) (some key) none arg c h = h

  bind_switch-IsBounded :
      (on : ℕ × Option Bool) (action : String) (arg : Option String) (c : Settings F)
      → IsBounded c
      → leb max_switchbinds c.nswitchbinds ≡ false
      → IsBounded (bind_switch env on action arg c).cfg
  unfolding bind_switch
  bind_switch-IsBounded (kind, none) action arg c h room = h
  bind_switch-IsBounded (kind, some on) action arg c h room = ground arith

  lua_bindswitch-IsBounded :
      (switch action arg : Option String) (c : Settings F)
      → IsBounded c
      → IsBounded (lua_bindswitch env switch action arg c).cfg
  unfolding lua_bindswitch
  lua_bindswitch-IsBounded (some switch) (some action) arg c h =
      elim (Bool-cases (leb max_switchbinds c.nswitchbinds)) [
        | inl e ↦ rw e h
        | inr e ↦ rw e (bind_switch-IsBounded (parse_switch env switch) action arg c h e)
      ]
  lua_bindswitch-IsBounded none action arg c h = h
  lua_bindswitch-IsBounded (some switch) none arg c h = h

  lua_pin-IsBounded :
      (app command icon : Option String) (c : Settings F)
      → IsBounded c
      → IsBounded (lua_pin env app command icon c).cfg
  unfolding lua_pin
  lua_pin-IsBounded (some app) (some command) icon c h =
      ground (arith, length-append c.pins (pin_slot env app command icon))
  lua_pin-IsBounded none command icon c h = h
  lua_pin-IsBounded (some app) none icon c h = h

  lua_output-IsBounded :
      (name : Option String) (t : Option (OutputTable F)) (c : Settings F)
      → IsBounded c
      → IsBounded (lua_output env name t c).cfg
  unfolding lua_output
  lua_output-IsBounded (some name) (some t) c h = ground (
    arith,
    length-put_output_known name (read_entry env t) c.output_cfgs,
    length-put_output_new name (read_entry env t) c.output_cfgs,
  )
  lua_output-IsBounded none t c h = h
  lua_output-IsBounded (some name) none c h = h

  run_call-IsBounded :
      (call : LuaCall F) (c : Settings F) → IsBounded c → IsBounded (run_call env call c).cfg
  unfolding run_call
  run_call-IsBounded (exec cmd) c h = lua_exec-IsBounded cmd c h
  run_call-IsBounded (bind mods key action arg) c h = lua_bind-IsBounded mods key action arg c h
  run_call-IsBounded (bindswitch switch action arg) c h =
      lua_bindswitch-IsBounded switch action arg c h
  run_call-IsBounded (output name t) c h = lua_output-IsBounded name t c h
  run_call-IsBounded (pin app command icon) c h = lua_pin-IsBounded app command icon c h

  run_calls-IsBounded :
      (ss : List (Statement F)) (c : Settings F) → IsBounded c → IsBounded (run_calls env ss c).cfg
  unfolding run_calls
  run_calls-IsBounded [] c h = h
  run_calls-IsBounded (s ∷ ss) c h =
      let first = run_call-IsBounded s.called c h in
      elim (Bool-cases ((run_call env s.called c).raised && not s.protected)) [
        | inl e ↦ rw e first
        | inr e ↦ rw e (run_calls-IsBounded ss (run_call env s.called c).cfg first)
      ]

  read_theme-IsBounded :
      (file : File F) (c : Settings F) → IsBounded c → IsBounded (read_theme env file c)
  unfolding read_theme show_globals
  read_theme-IsBounded unreadable c h = h
  read_theme-IsBounded no_state c h = h
  read_theme-IsBounded (script calls true globals) c h = h
  read_theme-IsBounded (script calls false globals) c h = record {
    binds = h.binds;
    switchbinds = h.switchbinds;
    execs = h.execs;
    outputs = h.outputs;
    pins = h.pins;
  }

  load_theme_lua-IsBounded :
      (theme_file : String → File F) (c : Settings F)
      → IsBounded c
      → IsBounded (load_theme_lua env theme_file c)
  unfolding load_theme_lua
  load_theme_lua-IsBounded theme_file c h = elim (Bool-cases (is_set c.options.theme_path)) [
    | inl e ↦ rw e (read_theme-IsBounded (theme_file c.options.theme_path) c h)
    | inr e ↦ rw e h
  ]

  read_globals-IsBounded :
      (theme_file : String → File F) (globals : String → Value F) (c : Settings F)
      → IsBounded c
      → IsBounded (read_globals env theme_file globals c)
  unfolding read_globals show_globals
  read_globals-IsBounded theme_file globals c h =
      let c1 = record c { options = find_theme env (read_input env globals c.options) } in
      let r = load_theme_lua-IsBounded theme_file c1 (record {
        binds = h.binds;
        switchbinds = h.switchbinds;
        execs = h.execs;
        outputs = h.outputs;
        pins = h.pins;
      }) in
      record {
        binds = r.binds;
        switchbinds = r.switchbinds;
        execs = r.execs;
        outputs = r.outputs;
        pins = r.pins;
      }

  -- Whatever calls a configuration file makes and whatever it sets, and also where it fails or there is
  -- none: `load` keeps every array of the configuration within its limit.
  pub load-IsBounded :
      (theme_file : String → File F) (file : File F) (c : Settings F)
      → IsBounded c
      → IsBounded (load env theme_file file c).cfg
  unfolding load
  load-IsBounded theme_file unreadable c h = h
  load-IsBounded theme_file no_state c h = h
  load-IsBounded theme_file (script calls fails globals) c h =
      let ran = run_calls-IsBounded calls c h in
      elim (Bool-cases ((run_calls env calls c).raised || fails)) [
        | inl e ↦ rw e ran
        | inr e ↦ rw e (read_globals-IsBounded theme_file globals (run_calls env calls c).cfg ran)
      ]
