-- ===== src/Workspace.antt =====
-- Workspaces: `view::workspace_switch` and `view::move_to_workspace` (src/view.cc). A workspace number
-- is an `int` in the source; the guards let only 0 to 8 into the state, which holds natural numbers.
pub mod Visibility
pub mod Bounds
use steppewm.Base.{
  ℕ, ℤ, pos, negsuc, Bool, true, false, not, ◌&&◌, ◌||◌, Option, none, some, List, [], ◌∷◌, ◌==◌,
  ltb, leb, if◌then◌else◌, find, for_each,
}
use steppewm.Wlr.{Wlroots, keyboard_clear_focus, osd_show_workspace}
use steppewm.State.{View, Server, num_workspaces, emit, emit_if, modify, is_shown, refresh_taskbars}
use steppewm.Switcher.{cancel, view_removed}
use steppewm.View.{update_visibility, focus, focus_next}

-- The largest workspace shown in the taskbar grows with the ones used.
abbrev pub grow : ℕ → ℕ → ℕ
grow max workspace = if ltb max workspace then workspace else max

-- "focus the topmost window on the new workspace".
abbrev pub is_topmost : Server → ℕ → ℕ → Bool
is_topmost s workspace v = (s.store v).mapped && is_shown (s.store v) workspace

-- The new workspace is current, and every window is shown or hidden.
unfoldable pub show_workspace : ℕ → Server → Server
show_workspace workspace s =
    let s1 = record s {
      current_workspace = workspace;
      max_visible_workspace = grow s.max_visible_workspace workspace;
    } in
    for_each update_visibility s.views (cancel s1)

module _ (w : Wlroots) where
  unfoldable pub focus_topmost : ℕ → Server → Server
  focus_topmost workspace s = elim (find (is_topmost s workspace) s.views) [
    | some v ↦ focus w v s
    | none ↦ emit keyboard_clear_focus s
  ]

  unfoldable pub enter_workspace : ℕ → Server → Server
  enter_workspace workspace s =
      let s1 = refresh_taskbars (focus_topmost workspace (show_workspace workspace s)) in
      emit_if s1.osd_overlay (osd_show_workspace workspace) s1

  -- `view::workspace_switch`.
  unfoldable pub workspace_switch : ℤ → Server → Server
  workspace_switch (negsuc n) s = s
  workspace_switch (pos workspace) s =
      if leb num_workspaces workspace || workspace == s.current_workspace
      then s
      else enter_workspace workspace s

  unfoldable pub move_window_to : ℕ → ℕ → Server → Server
  move_window_to ws v s =
      let s1 = modify v (λ o. record o { pinned = false; workspace = ws }) s in
      let s2 = record s1 { max_visible_workspace = grow s1.max_visible_workspace ws } in
      refresh_taskbars (focus_next w (some v) (view_removed v (update_visibility v s2)))

  -- `view::move_to_workspace`.
  unfoldable pub move_to_workspace : ℤ → ℕ → Server → Server
  move_to_workspace (negsuc n) v s = s
  move_to_workspace (pos ws) v s =
      if leb num_workspaces ws || (not (s.store v).pinned && (s.store v).workspace == ws)
      then s
      else move_window_to ws v s
