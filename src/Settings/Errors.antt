-- ===== src/Settings/Errors.antt =====
-- What an error in a configuration file leaves (src/config.cc).
use Prim.Native.String.{String}
use text.Mathlib.Text.{◌==◌ as str_eq}
use steppewm.Base.{
  ℕ, leb, Bool, true, false, not, ◌&&◌, ◌||◌, Option, none, some, List, [], ◌∷◌, if◌then◌else◌, ◌≡◌,
  refl, arith, is_some, length, Bool-cases, inl, inr, ◌∙◌,
}
use steppewm.Settings.{Env, OutputConfig, Settings}
use steppewm.Settings.Calls.{
  Called, max_output_cfgs, max_binds, max_switchbinds, max_execs, max_pins, lua_exec, lua_bind,
  lua_bindswitch, lua_pin, bind_sym, bind_switch, parse_switch,
}
use steppewm.Settings.Outputs.{OutputTable, find_output, put_output, fresh, read_entry, lua_output}
use steppewm.Settings.Registry.{read_entry-name}
use steppewm.Settings.Load.{
  LuaCall, exec, bind, bindswitch, output, pin, Statement, File, unreadable, no_state, script,
  run_call, run_calls, load,
}

module _ {F : Type 0} (env : Env F) where
  bind_sym-raised :
      (sym : Option ℕ) (mods action : String) (arg : Option String) (c : Settings F)
      → (bind_sym env sym mods action arg c).raised ≡ true
      → (bind_sym env sym mods action arg c).cfg ≡ c
  unfolding bind_sym
  bind_sym-raised none mods action arg c h = refl
  bind_sym-raised (some sym) mods action arg c h = ground arith

  bind_switch-raised :
      (on : ℕ × Option Bool) (action : String) (arg : Option String) (c : Settings F)
      → (bind_switch env on action arg c).raised ≡ true
      → (bind_switch env on action arg c).cfg ≡ c
  unfolding bind_switch
  bind_switch-raised (kind, none) action arg c h = refl
  bind_switch-raised (kind, some on) action arg c h = ground arith

  lua_bind-raised :
      (mods key action arg : Option String) (c : Settings F)
      → (lua_bind env mods key action arg c).raised ≡ true
      → (lua_bind env mods key action arg c).cfg ≡ c
  unfolding lua_bind
  lua_bind-raised (some mods) (some key) (some action) arg c h =
      elim (Bool-cases (leb max_binds c.nbinds)) [
        | inl e ↦ rw e refl
        | inr e ↦ rw e (bind_sym-raised (env.keysym_from_name key) mods action arg c (rw e at h))
      ]
  lua_bind-raised none key action arg c h = refl
  lua_bind-raised (some mods) none action arg c h = refl
  lua_bind-raised (some mods) (some key) none arg c h = refl

  lua_bindswitch-raised :
      (switch action arg : Option String) (c : Settings F)
      → (lua_bindswitch env switch action arg c).raised ≡ true
      → (lua_bindswitch env switch action arg c).cfg ≡ c
  unfolding lua_bindswitch
  lua_bindswitch-raised (some switch) (some action) arg c h =
      elim (Bool-cases (leb max_switchbinds c.nswitchbinds)) [
        | inl e ↦ rw e refl
        | inr e ↦ rw e (bind_switch-raised (parse_switch env switch) action arg c (rw e at h))
      ]
  lua_bindswitch-raised none action arg c h = refl
  lua_bindswitch-raised (some switch) none arg c h = refl

  lua_exec-raised :
      (cmd : Option String) (c : Settings F)
      → (lua_exec env cmd c).raised ≡ true
      → (lua_exec env cmd c).cfg ≡ c
  unfolding lua_exec
  lua_exec-raised none c h = refl
  lua_exec-raised (some cmd) c h = ground arith

  lua_pin-raised :
      (app command icon : Option String) (c : Settings F)
      → (lua_pin env app command icon c).raised ≡ true
      → (lua_pin env app command icon c).cfg ≡ c
  unfolding lua_pin
  lua_pin-raised (some app) (some command) icon c h = ground arith
  lua_pin-raised none command icon c h = refl
  lua_pin-raised (some app) none icon c h = refl

  -- The second list is the first one with the first entry of that name changed, but for its name, or with
  -- a new entry at the end when there is none.
  abbrev pub OnlyEntry : String → List (OutputConfig F) → List (OutputConfig F) → Type 0
  OnlyEntry name [] [] = Unit
  OnlyEntry name [] (r ∷ []) = r.name ≡ env.cut 63 name
  OnlyEntry name [] (r ∷ q ∷ rs) = ⊥
  OnlyEntry name (o ∷ os) [] = ⊥
  OnlyEntry name (o ∷ os) (r ∷ rs) =
      if str_eq o.name name then (r.name ≡ o.name) × (rs ≡ os) else (r ≡ o) × OnlyEntry name os rs

  OnlyEntry-same : (name : String) (os : List (OutputConfig F)) → OnlyEntry name os os
  OnlyEntry-same name [] = tt
  OnlyEntry-same name (o ∷ os) = elim (Bool-cases (str_eq o.name name)) [
    | inl e ↦ rw e (refl, refl)
    | inr e ↦ rw e (refl, OnlyEntry-same name os)
  ]

  put_output-OnlyEntry :
      (name : String) (t : OutputTable F) (os : List (OutputConfig F))
      → OnlyEntry name os (put_output env name (read_entry env t) os)
  unfolding put_output fresh
  put_output-OnlyEntry name t [] = read_entry-name env t (fresh env name)
  put_output-OnlyEntry name t (o ∷ os) = elim (Bool-cases (str_eq o.name name)) [
    | inl e ↦ rw e (rw e (read_entry-name env t o, refl))
    | inr e ↦ rw e (rw e (refl, put_output-OnlyEntry name t os))
  ]

  -- What a call that raises an error may leave: the settings as they were, but that a call of `output` with
  -- a name and a table may have written the entry of that name.
  abbrev pub IsSpared : LuaCall F → Settings F → Settings F → Type 0
  IsSpared (output (some name) (some t)) c r =
      (r ≡ record c { output_cfgs = r.output_cfgs }) × OnlyEntry name c.output_cfgs r.output_cfgs
  IsSpared _ c r = r ≡ c

  lua_output-IsSpared :
      (name : Option String) (t : Option (OutputTable F)) (c : Settings F)
      → IsSpared (output name t) c (lua_output env name t c).cfg
  unfolding lua_output
  lua_output-IsSpared (some name) (some t) c =
      let os = c.output_cfgs in
      elim (Bool-cases (not (is_some (find_output name os)) && leb max_output_cfgs (length os))) [
        | inl e ↦ rw e (refl, OnlyEntry-same name os)
        | inr e ↦ rw e (refl, put_output-OnlyEntry name t os)
      ]
  lua_output-IsSpared none t c = refl
  lua_output-IsSpared (some name) none c = refl

  -- A call of the configuration file that raises an error changes nothing, but that a call of `output` may
  -- have written the first entry of the output that it names, or a new entry at the end if there is
  -- none: all other entries stay.
  pub run_call-raised :
      (call : LuaCall F) (c : Settings F)
      → (run_call env call c).raised ≡ true
      → IsSpared call c (run_call env call c).cfg
  unfolding run_call
  run_call-raised (exec cmd) c h = lua_exec-raised cmd c h
  run_call-raised (bind mods key action arg) c h = lua_bind-raised mods key action arg c h
  run_call-raised (bindswitch switch action arg) c h = lua_bindswitch-raised switch action arg c h
  run_call-raised (output name t) c h = lua_output-IsSpared name t c
  run_call-raised (pin app command icon) c h = lua_pin-raised app command icon c h

  -- The calls do not touch the colors, the sizes and the options.
  abbrev pub SameLook : Settings F → Settings F → Type 0
  SameLook a b = (a.colors ≡ b.colors) × (a.sizes ≡ b.sizes) × (a.options ≡ b.options)

  bind_sym-SameLook :
      (sym : Option ℕ) (mods action : String) (arg : Option String) (c : Settings F)
      → SameLook (bind_sym env sym mods action arg c).cfg c
  unfolding bind_sym
  bind_sym-SameLook none mods action arg c = (refl, refl, refl)
  bind_sym-SameLook (some sym) mods action arg c = (refl, refl, refl)

  bind_switch-SameLook :
      (on : ℕ × Option Bool) (action : String) (arg : Option String) (c : Settings F)
      → SameLook (bind_switch env on action arg c).cfg c
  unfolding bind_switch
  bind_switch-SameLook (kind, none) action arg c = (refl, refl, refl)
  bind_switch-SameLook (kind, some on) action arg c = (refl, refl, refl)

  if_SameLook :
      (b : Bool) (x y : Called F) (c : Settings F)
      → SameLook x.cfg c
      → SameLook y.cfg c
      → SameLook (if b then x else y).cfg c
  if_SameLook true x y c hx hy = hx
  if_SameLook false x y c hx hy = hy

  run_call-SameLook : (call : LuaCall F) (c : Settings F) → SameLook (run_call env call c).cfg c
  unfolding run_call lua_exec lua_bind lua_bindswitch lua_output lua_pin
  run_call-SameLook (exec none) c = (refl, refl, refl)
  run_call-SameLook (exec (some cmd)) c =
      if_SameLook (leb max_execs (length c.execs)) _ _ c (refl, refl, refl) (refl, refl, refl)
  run_call-SameLook (bind (some mods) (some key) (some action) arg) c =
      if_SameLook (leb max_binds c.nbinds) _ _ c (refl, refl, refl)
        (bind_sym-SameLook (env.keysym_from_name key) mods action arg c)
  run_call-SameLook (bind none key action arg) c = (refl, refl, refl)
  run_call-SameLook (bind (some mods) none action arg) c = (refl, refl, refl)
  run_call-SameLook (bind (some mods) (some key) none arg) c = (refl, refl, refl)
  run_call-SameLook (bindswitch (some switch) (some action) arg) c =
      if_SameLook (leb max_switchbinds c.nswitchbinds) _ _ c (refl, refl, refl)
        (bind_switch-SameLook (parse_switch env switch) action arg c)
  run_call-SameLook (bindswitch none action arg) c = (refl, refl, refl)
  run_call-SameLook (bindswitch (some switch) none arg) c = (refl, refl, refl)
  run_call-SameLook (output (some name) (some t)) c =
      if_SameLook _ _ _ c (refl, refl, refl) (refl, refl, refl)
  run_call-SameLook (output none t) c = (refl, refl, refl)
  run_call-SameLook (output (some name) none) c = (refl, refl, refl)
  run_call-SameLook (pin (some app) (some command) icon) c =
      if_SameLook (leb max_pins (length c.pins)) _ _ c (refl, refl, refl) (refl, refl, refl)
  run_call-SameLook (pin none command icon) c = (refl, refl, refl)
  run_call-SameLook (pin (some app) none icon) c = (refl, refl, refl)

  run_calls-SameLook :
      (ss : List (Statement F)) (c : Settings F) → SameLook (run_calls env ss c).cfg c
  unfolding run_calls
  run_calls-SameLook [] c = (refl, refl, refl)
  run_calls-SameLook (s ∷ ss) c =
      let first = run_call-SameLook s.called c in
      let rest = run_calls-SameLook ss (run_call env s.called c).cfg in
      elim (Bool-cases ((run_call env s.called c).raised && not s.protected)) [
        | inl e ↦ rw e first
        | inr e ↦ rw e (rest.0 ∙ first.0, rest.1 ∙ first.1, rest.2 ∙ first.2)
      ]

  -- A configuration file that fails, or for which there is no memory, leaves the colors, the sizes and the
  -- options as they were: nothing of its globals and of its theme is read.
  pub load-failed :
      (theme_file : String → File F) (file : File F) (c : Settings F)
      → (load env theme_file file c).ok ≡ false
      → SameLook (load env theme_file file c).cfg c
  unfolding load
  load-failed theme_file unreadable c h = (refl, refl, refl)
  load-failed theme_file no_state c h = (refl, refl, refl)
  load-failed theme_file (script calls fails globals) c h =
      elim (Bool-cases ((run_calls env calls c).raised || fails)) [
        | inl e ↦ rw e (run_calls-SameLook calls c)
        | inr e ↦ let odd : true ≡ false = rw e at h in absurd (cc)
      ]
