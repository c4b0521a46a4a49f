-- ===== src/View/Focus.antt =====
-- `view::focus` and `view::focus_next`: who has the keyboard afterwards.
use steppewm.Base.{
  ℕ, Bool, true, false, none, some, List, ◌∷◌, ◌≡◌, ◌⊎◌, inl, inr, refl, sym, subst, ◌∙◌, arith,
  remove, Bool-cases, ap, ==_refl,
}
use steppewm.Wlr.{Call, Surface, toplevel, Wlroots, keyboard_enter}
use steppewm.Wlr.Seat.{
  focus_calls, is_surface, is_surface→eq, IsSeat, focused-focus_calls, same_focus,
}
use steppewm.State.{View, Server, log}
use steppewm.View.{
  bool_eq, restore_window, minimize, set_urgent, update_visibility, unfocus_previous, activate,
  raise_overlays, enter_keyboard, take_focus, refocus, focus_surface, focus,
}
use steppewm.View.Quiet.{
  emit_if-quiet, refresh_taskbars-quiet, activate-quiet, raise_overlays-quiet, restore_window-quiet,
  unfocus_previous-quiet,
}
use steppewm.Idle.{update_idle}

-- The fields of a window that `view::focus` restores.
abbrev pub IsRestored : View → Type 0
IsRestored o = (o.minimized ≡ false) × (o.urgent ≡ false)

minimize_minimized :
    (min : Bool) (v : ℕ) (s : Server) → ((minimize min v s).store v).minimized ≡ min
unfolding minimize update_visibility update_idle
minimize_minimized min v s = rw (==_refl v) refl

set_urgent_urgent :
    (u : Bool) (v : ℕ) (s : Server)
    → let r = set_urgent u v s in
      ((r.store v).urgent ≡ u) × ((r.store v).minimized ≡ (s.store v).minimized)
unfolding set_urgent bool_eq
set_urgent_urgent u v s = ground (arith, ==_refl v)

restore_window-IsRestored : (v : ℕ) (s : Server) → IsRestored ((restore_window v s).store v)
unfolding restore_window
restore_window-IsRestored v s = ground (
  arith,
  set_urgent_urgent false v s,
  set_urgent_urgent false v (minimize false v s),
  minimize_minimized false v s,
)

restore_window_keeps :
    (v : ℕ) (s : Server)
    → ((restore_window v s).views ≡ s.views) × ((restore_window v s).locked ≡ s.locked)
unfolding restore_window minimize set_urgent update_visibility update_idle
restore_window_keeps v s = ground arith

pub restore_window_layer :
    (v : ℕ) (s : Server) → (restore_window v s).focused_layer ≡ s.focused_layer
unfolding restore_window minimize set_urgent update_visibility update_idle
restore_window_layer v s = ground arith

module _ (w : Wlroots) where
  pub take_focus_state :
      (v : ℕ) (x : Surface) (s : Server)
      → ((take_focus w v x s).store ≡ s.store)
        × ((take_focus w v x s).views ≡ v ∷ remove v s.views)
        × ((take_focus w v x s).focused_layer ≡ none)
  unfolding take_focus activate enter_keyboard raise_overlays
  take_focus_state v x s = (refl, refl, refl)

  take_focus-focus_calls :
      (v : ℕ) (x : Surface) (s : Server)
      → ((cs : List Call) → w.has_keyboard cs ≡ true)
      → focus_calls (take_focus w v x s).calls ≡ keyboard_enter x ∷ focus_calls s.calls
  unfolding take_focus enter_keyboard
  take_focus-focus_calls v x s k =
      let previous = w.focused_surface s.calls in
      let s0 = log (unfocus_previous s.store previous) s in
      let s1 = activate v s0 in
      let s2 = record (enter_keyboard w x s1) { focused_layer = none } in
      emit_if-quiet (s.store v).fullscreen _ _ refl
      ∙ refresh_taskbars-quiet (raise_overlays s2)
      ∙ raise_overlays-quiet s2
      ∙ rw (k s1.calls) (
          ap (◌∷◌ (keyboard_enter x))
            (activate-quiet v s0 ∙ unfocus_previous-quiet s.store previous s.calls))

  focus_proceeds :
      (v : ℕ) (s : Server)
      → (s.store v).mapped ≡ true
      → s.locked ≡ false
      → focus w v s ≡ refocus w v (toplevel v) (restore_window v s)
  unfolding focus focus_surface
  focus_proceeds v s m u = ground arith

  module _ (seat : IsSeat w) (keyboard : (cs : List Call) → w.has_keyboard cs ≡ true) where
    focused-take_focus :
        (v : ℕ) (x : Surface) (s : Server) → w.focused_surface (take_focus w v x s).calls ≡ some x
    focused-take_focus v x s =
        focused-focus_calls seat _
        ∙ ap w.focused_surface (take_focus-focus_calls v x s keyboard)
        ∙ seat.focused-enter x _

    take_focus-IsRestored :
        (v : ℕ) (s : Server)
        → IsRestored ((take_focus w v (toplevel v) (restore_window v s)).store v)
    take_focus-IsRestored v s =
        subst (λ (st : ℕ → View). IsRestored (st v))
          (sym (take_focus_state v (toplevel v) (restore_window v s)).0)
          (restore_window-IsRestored v s)

    refocus_lem :
        (v : ℕ) (s : Server)
        → let r = refocus w v (toplevel v) (restore_window v s) in
          (w.focused_surface r.calls ≡ some (toplevel v))
          × IsRestored (r.store v)
          × ((r.views ≡ v ∷ remove v s.views)
              ⊎ ((w.focused_surface s.calls ≡ some (toplevel v)) × (r.views ≡ s.views)))
    unfolding refocus
    refocus_lem v s =
        let r = restore_window v s in
        let old = w.focused_surface r.calls in
        elim (Bool-cases (is_surface old (toplevel v))) [
          | inl e ↦
              let had = is_surface→eq old (toplevel v) e in
              rw (e, refocus)
                (
                  had,
                  restore_window-IsRestored v s,
                  inr (
                    sym (
                          same_focus seat (restore_window v s).calls s.calls
                            (restore_window-quiet v s))
                        ∙ had,
                    (restore_window_keeps v s).0,
                  ),
                )
          | inr e ↦
              rw (e, refocus)
                (
                  focused-take_focus v (toplevel v) r,
                  take_focus-IsRestored v s,
                  inl (
                      (take_focus_state v (toplevel v) r).1
                      ∙ ap (λ xs. v ∷ remove v xs) (restore_window_keeps v s).0),
                )
        ]

    -- Focusing a mapped window of an unlocked session gives its surface the keyboard. The window is
    -- then neither minimized nor urgent, and it stands at the front of the list, unless its surface
    -- had the keyboard already: then the list stays as it was. The seat is as documented and has a keyboard.
    pub focus_lem :
        (v : ℕ) (s : Server)
        → (s.store v).mapped ≡ true
        → s.locked ≡ false
        → let r = focus w v s in
          (w.focused_surface r.calls ≡ some (toplevel v))
          × IsRestored (r.store v)
          × ((r.views ≡ v ∷ remove v s.views)
              ⊎ ((w.focused_surface s.calls ≡ some (toplevel v)) × (r.views ≡ s.views)))
    focus_lem v s m u = rw (focus_proceeds v s m u) (refocus_lem v s)
