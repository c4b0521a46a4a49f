-- ===== src/View/Next.antt =====
-- Which window `view::focus_next` focuses, and what `view::focus` leaves as it was: src/view.cc.
use steppewm.Base.{
  ℕ, true, false, Option, none, some, List, ◌≡◌, inl, inr, refl, sym, subst, ◌∙◌, arith, Bool-cases,
  find, find-passes, Option-cases,
}
use mathlib.Core.Option
use steppewm.Wlr.{Call, toplevel, Wlroots, keyboard_clear_focus}
use steppewm.Wlr.Seat.{IsSeat, same_focus}
use steppewm.State.{Server, refresh_taskbars, emit}
use steppewm.View.{
  restore_window, minimize, set_urgent, update_visibility, activate, raise_overlays, enter_keyboard,
  take_focus, refocus, focus_surface, focus, focus_next, is_candidate,
}
use steppewm.View.Quiet.{refresh_taskbars-quiet}
use steppewm.Idle.{update_idle}
use steppewm.View.Focus.{focus_lem, restore_window_layer, take_focus_state}

module _ (w : Wlroots) where
  -- What the workspaces and the lock rest on.
  pub focus_keeps :
      (v : ℕ) (s : Server)
      → let r = focus w v s in
        (r.locked ≡ s.locked)
        × (r.current_workspace ≡ s.current_workspace)
        × (r.max_visible_workspace ≡ s.max_visible_workspace)
  unfolding focus focus_surface refocus restore_window minimize set_urgent update_visibility
      update_idle take_focus activate raise_overlays enter_keyboard
  focus_keeps v s = ground arith

  focus_next-locked : (skip : Option ℕ) (s : Server) → s.locked ≡ true → focus_next w skip s ≡ s
  unfolding focus_next
  focus_next-locked skip s l = ground arith

  focus_next-some :
      (skip : Option ℕ) (v : ℕ) (s : Server)
      → s.locked ≡ false
      → find (is_candidate s skip) s.views ≡ some v
      → focus_next w skip s ≡ focus w v s
  unfolding focus_next
  focus_next-some skip v s u e = ground arith

  focus_next-none :
      (skip : Option ℕ) (s : Server)
      → s.locked ≡ false
      → find (is_candidate s skip) s.views ≡ none
      → focus_next w skip s ≡ refresh_taskbars (emit keyboard_clear_focus s)
  unfolding focus_next
  focus_next-none skip s u e = ground arith

  -- A fact about `focus_next` holds if it holds on each of its branches.
  pub focus_next_cases {ℓ} :
      (P : Server → Type ℓ) (skip : Option ℕ) (s : Server)
      → P s
      → ((v : ℕ) → find (is_candidate s skip) s.views ≡ some v → P (focus w v s))
      → P (refresh_taskbars (emit keyboard_clear_focus s))
      → P (focus_next w skip s)
  focus_next_cases P skip s same found cleared = elim (Bool-cases s.locked) [
    | inl l ↦ subst P (sym (focus_next-locked skip s l)) same
    | inr u ↦ elim (Option-cases (find (is_candidate s skip) s.views)) [
      | inl e ↦ subst P (sym (focus_next-none skip s u e)) cleared
      | inr (v, e) ↦ subst P (sym (focus_next-some skip v s u e)) (found v e)
    ]
  ]

  refocus_layer :
      (v : ℕ) (s : Server)
      → s.focused_layer ≡ none
      → (refocus w v (toplevel v) s).focused_layer ≡ none
  unfolding refocus
  refocus_layer v s h = ground (arith, (take_focus_state w v (toplevel v) s).2)

  focus_keeps_layer :
      (v : ℕ) (s : Server) → s.focused_layer ≡ none → (focus w v s).focused_layer ≡ none
  unfolding focus focus_surface
  focus_keeps_layer v s h =
      ground (arith, refocus_layer v (restore_window v s) (restore_window_layer v s ∙ h))

  -- Looking for a window to focus in an unlocked session gives the keyboard to the first mapped and
  -- shown window of the list other than the skipped one, and to none if there is none. The seat is as
  -- documented and has a keyboard.
  pub focus_next-focus :
      (seat : IsSeat w) (keyboard : (cs : List Call) → w.has_keyboard cs ≡ true) (skip : Option ℕ)
      (s : Server)
      → s.locked ≡ false
      → w.focused_surface (focus_next w skip s).calls
        ≡ Option.map toplevel (find (is_candidate s skip) s.views)
  focus_next-focus seat keyboard skip s u =
      elim (Option-cases (find (is_candidate s skip) s.views)) [
        | inl e ↦
            let cleared = emit keyboard_clear_focus s in
            rw (focus_next-none skip s u e, e)
              (same_focus seat (refresh_taskbars cleared).calls cleared.calls
                  (refresh_taskbars-quiet cleared)
                ∙ seat.focused-clear s.calls)
        | inr (v, e) ↦
            let passed = find-passes (is_candidate s skip) s.views e in
            rw (focus_next-some skip v s u e, e) (focus_lem w seat keyboard v s (ground arith) u).0
      ]

  -- It leaves no layer surface focused if none was.
  pub focus_next_keeps_layer :
      (skip : Option ℕ) (s : Server)
      → s.focused_layer ≡ none
      → (focus_next w skip s).focused_layer ≡ none
  focus_next_keeps_layer skip s h =
      focus_next_cases (λ r. r.focused_layer ≡ none) skip s h (λ v e. focus_keeps_layer v s h) h

  pub focus_next_keeps_locked :
      (skip : Option ℕ) (s : Server) → (focus_next w skip s).locked ≡ s.locked
  focus_next_keeps_locked skip s =
      focus_next_cases (λ r. r.locked ≡ s.locked) skip s refl (λ v e. (focus_keeps v s).0) refl
