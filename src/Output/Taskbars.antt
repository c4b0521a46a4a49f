-- ===== src/Output/Taskbars.antt =====
-- How many taskbars `output::ensure_taskbars` leaves.
use mathlib.Core.List.{reverse, reverse-cons}
use steppewm.Base.{
  ℕ, suc, Bool, true, false, not, ◌&&◌, ◌||◌, Option, none, some, List, [], ◌∷◌, ◌++◌, map, ◌≡◌,
  ◌⊎◌, inl, inr, refl, sym, subst, ap, ◌∙◌, arith, ◌==◌, ==_iff, if◌then◌else◌, any, elem, Distinct,
  is_some, Bool-cases, Option-cases,
}
use steppewm.Wlr.{Call}
use steppewm.State.{Output, Server}
use steppewm.Output.{
  choose_primary, needs_taskbar, settle_taskbar, lay_out_taskbar, settle_taskbars, ensure_taskbars,
}

abbrev pub taskbars : List Output → ℕ
taskbars [] = 0
taskbars (o ∷ os) = if o.output_taskbar then suc (taskbars os) else taskbars os

abbrev pub addresses : List Output → List ℕ
addresses = map (λ o. o.wlr_output)

abbrev settled : Bool → Option ℕ → Output → Output
settled all_outputs primary o = record o { output_taskbar = needs_taskbar all_outputs primary o }

settle_taskbar-settled :
    (views : List ℕ) (needs : Bool) (o : Output) (cs : List Call)
    → (settle_taskbar views needs o cs).0 ≡ record o { output_taskbar = needs }
unfolding settle_taskbar
settle_taskbar-settled views needs o cs = ground arith

settle_taskbars-settled :
    (views : List ℕ) (all_outputs : Bool) (primary : Option ℕ) (os : List Output) (cs : List Call)
    → (settle_taskbars views all_outputs primary os cs).0 ≡ map (settled all_outputs primary) os
unfolding settle_taskbars
settle_taskbars-settled views all_outputs primary [] cs = refl
settle_taskbars-settled views all_outputs primary (o ∷ os) cs =
    let needs = needs_taskbar all_outputs primary o in
    let r = settle_taskbar views needs o cs in
    λ i.
      settle_taskbar-settled views needs o cs i
      ∷ settle_taskbars-settled views all_outputs primary os (lay_out_taskbar r.0 r.1) i

-- An output of the scene at address `a`.
abbrev in_scene_at : ℕ → Output → Bool
in_scene_at a o = o.scene_output && o.wlr_output == a

-- The choice is an output of the scene, unless it was made before; there is none only if the scene has
-- no output.
choose_primary-some :
    (os : List Output) (p : Option ℕ) (a : ℕ)
    → choose_primary os p ≡ some a
    → (p ≡ some a) ⊎ (any (in_scene_at a) os ≡ true)
unfolding choose_primary
choose_primary-some [] p a h = inl h
choose_primary-some (o ∷ os) p a h = ground (
  arith,
  choose_primary-some os (if o.scene_output && not (is_some p) then some o.wlr_output else p) a,
)

choose_primary-none :
    (os : List Output) (p : Option ℕ)
    → choose_primary os p ≡ none
    → (p ≡ none) × (any (λ o. o.scene_output) os ≡ false)
unfolding choose_primary
choose_primary-none [] p h = (h, refl)
choose_primary-none (o ∷ os) p h = ground (
  arith,
  choose_primary-none os (if o.scene_output && not (is_some p) then some o.wlr_output else p),
)

any-append : (f : Output → Bool) (xs ys : List Output) → any f (xs ++ ys) ≡ any f xs || any f ys
any-append f [] ys = refl
any-append f (x ∷ xs) ys = ground (arith, any-append f xs ys)

any-reverse : (f : Output → Bool) (xs : List Output) → any f (reverse xs) ≡ any f xs
any-reverse f [] = refl
any-reverse f (x ∷ xs) =
    rw (reverse-cons x xs) (any-append f (reverse xs) (x ∷ []) ∙ ground (arith, any-reverse f xs))

absent_taskbars :
    (a : ℕ) (os : List Output)
    → elem a (addresses os) ≡ false
    → taskbars (map (settled false (some a)) os) ≡ 0
unfolding needs_taskbar
absent_taskbars a [] h = refl
absent_taskbars a (o ∷ os) h = ground (arith, absent_taskbars a os)

any-elem : (a : ℕ) (os : List Output) → any (in_scene_at a) os ≡ true → elem a (addresses os) ≡ true
any-elem a [] h = ground arith
any-elem a (o ∷ os) h = ground (arith, any-elem a os)

one_taskbar :
    (a : ℕ) (os : List Output)
    → Distinct (addresses os)
    → any (in_scene_at a) os ≡ true
    → taskbars (map (settled false (some a)) os) ≡ 1
unfolding needs_taskbar
one_taskbar a [] d h = ground arith
one_taskbar a (o ∷ os) d h = elim (Bool-cases (o.wlr_output == a)) [
  | inl e ↦
      let same = (==_iff o.wlr_output a).0 e in
      let apart = subst (λ (b : ℕ). elem b (addresses os) ≡ false) same d.0 in
      ground (arith, absent_taskbars a os, any-elem a os)
  | inr e ↦ ground (arith, one_taskbar a os d.1)
]

no_taskbar :
    (all_outputs : Bool) (os : List Output) (p : Option ℕ)
    → any (λ o. o.scene_output) os ≡ false
    → taskbars (map (settled all_outputs p) os) ≡ 0
unfolding needs_taskbar
no_taskbar all_outputs [] p h = refl
no_taskbar all_outputs (o ∷ os) p h = ground (arith, no_taskbar all_outputs os p)

abbrev pub has_scene : List Output → Bool
has_scene = any (λ o. o.scene_output)

any-has_scene : (a : ℕ) (os : List Output) → any (in_scene_at a) os ≡ true → has_scene os ≡ true
any-has_scene a [] h = ground arith
any-has_scene a (o ∷ os) h = ground (arith, any-has_scene a os)

chosen_taskbars :
    (os : List Output)
    → Distinct (addresses os)
    → taskbars (map (settled false (choose_primary (reverse os) none)) os)
      ≡ (if has_scene os then 1 else 0)
chosen_taskbars os d = elim (Option-cases (choose_primary (reverse os) none)) [
  | inl e ↦
      let absent =
        sym (any-reverse (λ o. o.scene_output) os) ∙ (choose_primary-none (reverse os) none e).1 in
      rw (e, absent) (no_taskbar false os none absent)
  | inr (a, e) ↦
      let there : any (in_scene_at a) os ≡ true = elim (choose_primary-some (reverse os) none a e) [
        | inl bad ↦ cc
        | inr found ↦ sym (any-reverse (in_scene_at a) os) ∙ found
      ] in
      rw (e, any-has_scene a os there) (one_taskbar a os d there)
]

settled-all :
    (p : Option ℕ) (os : List Output)
    → map (settled true p) os
      ≡ map {B = Output} (λ o. record o { output_taskbar = o.scene_output }) os
unfolding needs_taskbar
settled-all p [] = refl
settled-all p (o ∷ os) = ground (arith, settled-all p os)

module _ (s : Server) where
  -- With a taskbar on one output only, there is exactly one taskbar if an output is in the scene, and
  -- none otherwise. The outputs have different addresses.
  pub ensure_taskbars-one :
      Distinct (addresses s.outputs)
      → s.cfg.taskbar_all_outputs ≡ false
      → taskbars (ensure_taskbars s).outputs ≡ (if has_scene s.outputs then 1 else 0)
  unfolding ensure_taskbars
  ensure_taskbars-one d single =
      ap taskbars (settle_taskbars-settled s.views s.cfg.taskbar_all_outputs _ s.outputs s.calls)
      ∙ rw single (chosen_taskbars s.outputs d)

  -- With a taskbar on every output, the outputs with one are those of the scene.
  ensure_taskbars-all :
      s.cfg.taskbar_all_outputs ≡ true
      → (ensure_taskbars s).outputs
        ≡ map {B = Output} (λ o. record o { output_taskbar = o.scene_output }) s.outputs
  unfolding ensure_taskbars
  ensure_taskbars-all every =
      settle_taskbars-settled s.views s.cfg.taskbar_all_outputs _ s.outputs s.calls
      ∙ rw every (settled-all _ s.outputs)
