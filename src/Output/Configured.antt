-- ===== src/Output/Configured.antt =====
-- What `output::reconfigure_all` (src/output.cc) leaves: outputs in the scene, and taskbars.
use steppewm.Base.{
  Bool, false, ◌||◌, List, [], ◌∷◌, ◌≡◌, refl, sym, ap, ◌∙◌, if◌then◌else◌, any, Distinct, subst,
  Bool-cases, inl, inr,
}
use steppewm.Wlr.{Call}
use steppewm.State.{Output, Server}
use steppewm.Settings.{Env, OutputConfig}
use steppewm.Settings.Outputs.{find_output}
use steppewm.Output.Taskbars.{taskbars, addresses, has_scene, ensure_taskbars-one}
use steppewm.Output.Configure.{
  Backend, is_enabled, turn_on, turn_off, apply_config, apply_all, reconfigure_all,
}

module _ {F : Type 0} (env : Env F) (b : Backend) (cfgs : List (OutputConfig F)) where
  -- The configuration has the output on, or says nothing of it.
  abbrev pub is_on : Output → Bool
  is_on o = is_enabled env b cfgs (find_output (b.name o.wlr_output) cfgs)

  apply_config_scene :
      (o : Output) (cs : List Call)
      → let r = (apply_config env b cfgs o cs).output in
        (r.scene_output ≡ is_on o) × (r.wlr_output ≡ o.wlr_output)
  unfolding apply_config turn_on turn_off
  apply_config_scene o cs = elim (Bool-cases (is_on o)) [
    | inl e ↦ rw e (refl, refl)
    | inr e ↦ rw e (refl, refl)
  ]

  addresses-apply_all :
      (os : List Output) (cs : List Call) → addresses (apply_all env b cfgs os cs).0 ≡ addresses os
  unfolding apply_all
  addresses-apply_all [] cs = refl
  addresses-apply_all (o ∷ os) cs =
      let r = apply_config env b cfgs o cs in
      λ i. (apply_config_scene o cs).1 i ∷ addresses-apply_all os r.calls i

  has_scene-apply_all :
      (os : List Output) (cs : List Call) → has_scene (apply_all env b cfgs os cs).0 ≡ any is_on os
  unfolding apply_all
  has_scene-apply_all [] cs = refl
  has_scene-apply_all (o ∷ os) cs =
      let r = apply_config env b cfgs o cs in
      λ i. (apply_config_scene o cs).0 i || has_scene-apply_all os r.calls i

  -- After a reload of the configuration, with a taskbar on one output only: there is exactly one taskbar if
  -- some output is not turned off by the configuration, and none otherwise, whichever outputs were in
  -- the scene before. The outputs have different addresses.
  pub reconfigure_all-one :
      (s : Server)
      → Distinct (addresses s.outputs)
      → s.cfg.taskbar_all_outputs ≡ false
      → taskbars (reconfigure_all env b cfgs s).outputs ≡ (if any is_on s.outputs then 1 else 0)
  unfolding reconfigure_all
  reconfigure_all-one s d single =
      let r = apply_all env b cfgs s.outputs s.calls in
      let next = record s { outputs = r.0; calls = r.1 } in
      ensure_taskbars-one next (subst Distinct (sym (addresses-apply_all s.outputs s.calls)) d)
        single
      ∙ ap (λ (x : Bool). if x then 1 else 0) (has_scene-apply_all s.outputs s.calls)
