-- ===== src/Workspace/Visibility.antt =====
-- What a switch of the workspace shows, and which window it focuses.
use steppewm.Base.{
  ℕ, pos, Bool, true, false, ◌&&◌, Option, none, some, List, [], ◌∷◌, ◌≡◌, ◌≢◌, ◌<◌, ◌⊎◌, inl, inr,
  refl, ap, ◌∙◌, arith, ◌==◌, ==_iff, if◌then◌else◌, find, elem, for_each, Bool-cases, Option-cases,
  find-passes,
}
use mathlib.Core.Option
use steppewm.Wlr.{Call, node_set_enabled, scene_tree, Wlroots, toplevel, osd_show_workspace}
use steppewm.Wlr.Seat.{IsSeat, focus_calls, same_focus}
use steppewm.State.{View, Server, is_shown, num_workspaces, refresh_taskbars}
use steppewm.Idle.{update_idle}
use steppewm.Switcher.{cancel}
use steppewm.View.{update_visibility}
use steppewm.View.Quiet.{refresh_taskbars-quiet, emit_if-quiet}
use steppewm.View.Focus.{focus_lem}
use steppewm.Workspace.{
  grow, is_topmost, show_workspace, focus_topmost, enter_workspace, workspace_switch,
}

-- What the last call for a window's node made of it, if there was one.
abbrev pub last_enabled : ℕ → List Call → Option Bool
last_enabled v [] = none
last_enabled v (node_set_enabled (scene_tree u) b ∷ cs) =
    if u == v then some b else last_enabled v cs
last_enabled v (_ ∷ cs) = last_enabled v cs

-- The loop over the windows only makes calls.
visibility_loop_state :
    (vs : List ℕ) (s : Server)
    → let r = for_each update_visibility vs s in r ≡ record s { calls = r.calls }
unfolding update_visibility update_idle
visibility_loop_state [] s = refl
visibility_loop_state (v ∷ vs) s = visibility_loop_state vs (update_visibility v s)

visibility_loop_shown :
    (v : ℕ) (vs : List ℕ) (s : Server)
    → (elem v vs ≡ true)
      ⊎ (last_enabled v s.calls ≡ some (is_shown (s.store v) s.current_workspace))
    → last_enabled v (for_each update_visibility vs s).calls
      ≡ some (is_shown (s.store v) s.current_workspace)
unfolding update_visibility update_idle
visibility_loop_shown v [] s (inl h) = ground arith
visibility_loop_shown v [] s (inr h) = h
visibility_loop_shown v (u ∷ vs) s h =
    visibility_loop_shown v vs (update_visibility u s) (elim (Bool-cases (u == v)) [
      | inl e ↦ inr (
          rw e (ap (λ (x : ℕ). some (is_shown (s.store x) s.current_workspace)) ((==_iff u v).0 e)))
      | inr e ↦ elim h [ inl m ↦ inl (ground arith) | inr k ↦ inr (rw e k) ]
    ])

abbrev entered : ℕ → Server → Server
entered workspace s = cancel (record s {
  current_workspace = workspace;
  max_visible_workspace = grow s.max_visible_workspace workspace;
})

cancel_store :
    (s : Server)
    → ((cancel s).store ≡ s.store)
      × ((cancel s).views ≡ s.views)
      × ((cancel s).locked ≡ s.locked)
      × ((cancel s).current_workspace ≡ s.current_workspace)
unfolding cancel
cancel_store s = ground arith

pub show_workspace_state :
    (workspace : ℕ) (s : Server)
    → let r = show_workspace workspace s in
      (r.store ≡ s.store) × (r.views ≡ s.views) × (r.locked ≡ s.locked)
unfolding show_workspace
show_workspace_state workspace s =
    let e = visibility_loop_state s.views (entered workspace s) in
    let k = cancel_store (record s {
      current_workspace = workspace;
      max_visible_workspace = grow s.max_visible_workspace workspace;
    }) in
    (
      ap (λ (r : Server). r.store) e ∙ k.0,
      ap (λ (r : Server). r.views) e ∙ k.1,
      ap (λ (r : Server). r.locked) e ∙ k.2,
    )

pub show_workspace_numbers :
    (workspace : ℕ) (s : Server)
    → let r = show_workspace workspace s in
      (r.current_workspace ≡ workspace)
      × (r.max_visible_workspace ≡ grow s.max_visible_workspace workspace)
unfolding show_workspace cancel
show_workspace_numbers workspace s =
    let e = visibility_loop_state s.views (entered workspace s) in
    (
      ap (λ (r : Server). r.current_workspace) e ∙ ground arith,
      ap (λ (r : Server). r.max_visible_workspace) e ∙ ground arith,
    )

-- Entering a workspace leaves every window of the list shown exactly when it is not minimized, and
-- pinned or of that workspace: that is what the last call for its node says.
show_workspace_shows :
    (v workspace : ℕ) (s : Server)
    → elem v s.views ≡ true
    → last_enabled v (show_workspace workspace s).calls ≡ some (is_shown (s.store v) workspace)
unfolding show_workspace
show_workspace_shows v workspace s h =
    let kept = cancel_store (record s {
      current_workspace = workspace;
      max_visible_workspace = grow s.max_visible_workspace workspace;
    }) in
    visibility_loop_shown v s.views (entered workspace s) (inl h) ∙ rw (kept.0, kept.3) refl

module _ {w : Wlroots} (seat : IsSeat w)
    (keyboard : (cs : List Call) → w.has_keyboard cs ≡ true) where
  enter_workspace-focus_calls :
      (workspace : ℕ) (s : Server)
      → focus_calls (enter_workspace w workspace s).calls
        ≡ focus_calls (focus_topmost w workspace (show_workspace workspace s)).calls
  unfolding enter_workspace
  enter_workspace-focus_calls workspace s =
      let s1 = focus_topmost w workspace (show_workspace workspace s) in
      emit_if-quiet (refresh_taskbars s1).osd_overlay (osd_show_workspace workspace)
        (refresh_taskbars s1).calls refl
      ∙ refresh_taskbars-quiet s1

  focused-focus_topmost :
      (workspace : ℕ) (s : Server)
      → s.locked ≡ false
      → w.focused_surface (focus_topmost w workspace s).calls
        ≡ Option.map toplevel (find (is_topmost s workspace) s.views)
  unfolding focus_topmost
  focused-focus_topmost workspace s u =
      elim (Option-cases (find (is_topmost s workspace) s.views)) [
        | inl e ↦ rw (e, focus_topmost) (seat.focused-clear s.calls)
        | inr (v, e) ↦
            let shown = find-passes (is_topmost s workspace) s.views e in
            rw (e, focus_topmost) (focus_lem w seat keyboard v s (ground arith) u).0
      ]

  show_workspace-topmost :
      (workspace : ℕ) (s : Server)
      → let r = show_workspace workspace s in
        find (is_topmost r workspace) r.views ≡ find (is_topmost s workspace) s.views
  show_workspace-topmost workspace s =
      let r = show_workspace workspace s in
      let kept = show_workspace_state workspace s in
      ap (λ (st : ℕ → View). find (λ v. (st v).mapped && is_shown (st v) workspace) r.views) kept.0
      ∙ ap (find (is_topmost s workspace)) kept.1

  pub workspace_switch_enters :
      (workspace : ℕ) (s : Server)
      → workspace < num_workspaces
      → workspace ≢ s.current_workspace
      → workspace_switch w (pos workspace) s ≡ enter_workspace w workspace s
  unfolding workspace_switch
  workspace_switch_enters workspace s h ne = ground arith

  -- Switching an unlocked session to another of the nine workspaces gives the keyboard to the first
  -- window of the list that the workspace shows, and to none if it shows none. The seat is as documented and has a keyboard.
  pub workspace_switch-focus :
      (workspace : ℕ) (s : Server)
      → workspace < num_workspaces
      → workspace ≢ s.current_workspace
      → s.locked ≡ false
      → w.focused_surface (workspace_switch w (pos workspace) s).calls
        ≡ Option.map toplevel (find (is_topmost s workspace) s.views)
  workspace_switch-focus workspace s h ne u =
      let r = show_workspace workspace s in
      rw (workspace_switch_enters workspace s h ne) (
        same_focus seat (enter_workspace w workspace s).calls (focus_topmost w workspace r).calls
          (enter_workspace-focus_calls workspace s)
        ∙ focused-focus_topmost workspace r ((show_workspace_state workspace s).2 ∙ u)
        ∙ ap (Option.map toplevel) (show_workspace-topmost workspace s))
