-- ===== src/Workspace/Bounds.antt =====
-- The range of the workspace numbers: `view::workspace_switch` and `view::move_to_workspace` of
-- src/view.cc, for every argument that a binding can give.
use steppewm.Base.{
  ℕ, ℤ, pos, negsuc, false, Option, some, ◌≡◌, ◌<◌, refl, ap, arith, find, Option-cases, inl, inr,
}
use steppewm.Wlr.{Wlroots}
use steppewm.State.{Server, num_workspaces, modify}
use steppewm.Idle.{update_idle}
use steppewm.Switcher.{view_removed}
use steppewm.Switcher.Members.{view_removed_keeps}
use steppewm.View.{update_visibility, focus, focus_next}
use steppewm.View.Next.{focus_keeps, focus_next_cases}
use steppewm.Workspace.{
  grow, is_topmost, show_workspace, focus_topmost, enter_workspace, workspace_switch,
  move_window_to, move_to_workspace,
}
use steppewm.Workspace.Visibility.{show_workspace_numbers}

abbrev pub IsBounded : Server → Type 0
IsBounded s = (s.current_workspace < num_workspaces) × (s.max_visible_workspace < num_workspaces)

-- Two states have the same numbers.
abbrev SameNumbers : Server → Server → Type 0
SameNumbers s r =
    (r.current_workspace ≡ s.current_workspace)
    × (r.max_visible_workspace ≡ s.max_visible_workspace)

module _ (w : Wlroots) where
  focus_numbers : (v : ℕ) (s : Server) → SameNumbers s (focus w v s)
  focus_numbers v s = let k = focus_keeps w v s in (k.1, k.2)

  focus_topmost_numbers : (ws : ℕ) (s : Server) → SameNumbers s (focus_topmost w ws s)
  unfolding focus_topmost
  focus_topmost_numbers ws s = elim (Option-cases (find (is_topmost s ws) s.views)) [
    | inl e ↦ rw (e, focus_topmost) (refl, refl)
    | inr (v, e) ↦ rw (e, focus_topmost) (focus_numbers v s)
  ]

  focus_next_numbers : (skip : Option ℕ) (s : Server) → SameNumbers s (focus_next w skip s)
  focus_next_numbers skip s =
      focus_next_cases w (SameNumbers s) skip s (refl, refl) (λ v e. (focus_numbers v s))
        (refl, refl)

  enter_workspace-IsBounded :
      (ws : ℕ) (s : Server) → ws < num_workspaces → IsBounded s → IsBounded (enter_workspace w ws s)
  unfolding enter_workspace
  enter_workspace-IsBounded ws s h b =
      ground (arith, show_workspace_numbers ws s, focus_topmost_numbers ws (show_workspace ws s))

  move_window_to-IsBounded :
      (ws v : ℕ) (s : Server)
      → ws < num_workspaces
      → IsBounded s
      → IsBounded (move_window_to w ws v s)
  unfolding move_window_to update_visibility update_idle
  move_window_to-IsBounded ws v s h b =
      let s1 = modify v (λ o. record o { pinned = false; workspace = ws }) s in
      let s2 = record s1 { max_visible_workspace = grow s1.max_visible_workspace ws } in
      let s3 = update_visibility v s2 in
      let s4 = view_removed v s3 in
      let e = view_removed_keeps v s3 in
      ground (
        arith,
        ap (λ (r : Server). r.current_workspace) e,
        ap (λ (r : Server). r.max_visible_workspace) e,
        focus_next_numbers (some v) s4,
      )

  -- For every number that is asked, in range or not, switching the workspace and moving a window keep
  -- the current workspace and the largest shown one among the nine.
  workspaces-IsBounded :
      (n : ℤ) (v : ℕ) (s : Server)
      → IsBounded s
      → IsBounded (workspace_switch w n s) × IsBounded (move_to_workspace w n v s)
  unfolding workspace_switch move_to_workspace
  workspaces-IsBounded (negsuc n) v s b = (b, b)
  workspaces-IsBounded (pos n) v s b =
      ground (arith, enter_workspace-IsBounded n s, move_window_to-IsBounded n v s)
