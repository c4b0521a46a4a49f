-- ===== src/Pointer/Places.antt =====
-- Where windows belong when the focus or the workspace changes: `view::focus` and `workspace_switch` of
-- src/view.cc, as the handler of clicks calls them.
use steppewm.Base.{
  ℕ, Bool, true, false, not, ◌||◌, some, List, ◌≡◌, ◌∙◌, refl, ap, arith, ◌==◌, if◌then◌else◌, find,
  Bool-cases, Option-cases, inl, inr,
}
use steppewm.Wlr.{Call, Surface, toplevel, Wlroots}
use steppewm.Wlr.Seat.{IsSeat, is_surface}
use steppewm.State.{View, Server, is_shown}
use steppewm.View.{
  restore_window, minimize, set_urgent, update_visibility, refocus, take_focus, focus_surface,
  focus, activate, enter_keyboard, raise_overlays,
}
use steppewm.View.Focus.{focus_lem}
use steppewm.Idle.{update_idle}
use steppewm.Workspace.{is_topmost, show_workspace, focus_topmost, enter_workspace}
use steppewm.Workspace.Visibility.{show_workspace_state, show_workspace_numbers}

-- Where a window belongs, and what decides whether it can be focused.
pub record SamePlace (u : ℕ) (a b : Server) : Type 0 where
  mapped : (a.store u).mapped ≡ (b.store u).mapped
  pinned : (a.store u).pinned ≡ (b.store u).pinned
  workspace : (a.store u).workspace ≡ (b.store u).workspace
  locked : a.locked ≡ b.locked
  current : a.current_workspace ≡ b.current_workspace

SamePlace-refl : (u : ℕ) (s : Server) → SamePlace u s s
SamePlace-refl u s = record {
  mapped = refl;
  pinned = refl;
  workspace = refl;
  locked = refl;
  current = refl;
}

SamePlace-trans : (u : ℕ) (a b c : Server) → SamePlace u a b → SamePlace u b c → SamePlace u a c
SamePlace-trans u a b c p q = record {
  mapped = p.mapped ∙ q.mapped;
  pinned = p.pinned ∙ q.pinned;
  workspace = p.workspace ∙ q.workspace;
  locked = p.locked ∙ q.locked;
  current = p.current ∙ q.current;
}

minimize-SamePlace : (u v : ℕ) (s : Server) → SamePlace u (minimize false v s) s
unfolding minimize update_visibility update_idle
minimize-SamePlace u v s = ground arith

set_urgent-SamePlace : (u v : ℕ) (s : Server) → SamePlace u (set_urgent false v s) s
unfolding set_urgent
set_urgent-SamePlace u v s = ground arith

restore_window-SamePlace : (u v : ℕ) (s : Server) → SamePlace u (restore_window v s) s
unfolding restore_window
restore_window-SamePlace u v s = elim (Bool-cases (s.store v).minimized) [
  | inl e ↦ rw e (
      SamePlace-trans u _ _ s (set_urgent-SamePlace u v (minimize false v s))
        (minimize-SamePlace u v s))
  | inr e ↦ rw e (set_urgent-SamePlace u v s)
]

pub or_true : (b : Bool) → (b || true) ≡ true
or_true true = refl
or_true false = refl

if_SamePlace :
    (u : ℕ) (s : Server) (b : Bool) (x y : Server)
    → SamePlace u x s
    → SamePlace u y s
    → SamePlace u (if b then x else y) s
if_SamePlace u s true x y hx hy = hx
if_SamePlace u s false x y hx hy = hy

module _ (w : Wlroots) where
  take_focus-SamePlace : (u v : ℕ) (x : Surface) (s : Server) → SamePlace u (take_focus w v x s) s
  unfolding take_focus activate enter_keyboard raise_overlays
  take_focus-SamePlace u v x s = record {
    mapped = refl;
    pinned = refl;
    workspace = refl;
    locked = refl;
    current = refl;
  }

  refocus-SamePlace : (u v : ℕ) (x : Surface) (s : Server) → SamePlace u (refocus w v x s) s
  unfolding refocus
  refocus-SamePlace u v x s = elim (Bool-cases (is_surface (w.focused_surface s.calls) x)) [
    | inl e ↦ rw e (SamePlace-refl u s)
    | inr e ↦ rw e (take_focus-SamePlace u v x s)
  ]

  focus-SamePlace : (u v : ℕ) (s : Server) → SamePlace u (focus w v s) s
  unfolding focus focus_surface
  focus-SamePlace u v s =
      let r = restore_window v s in
      if_SamePlace u s (not (s.store v).mapped) s _ (SamePlace-refl u s) (
        if_SamePlace u s s.locked s (refocus w v (toplevel v) r) (SamePlace-refl u s) (
          SamePlace-trans u (refocus w v (toplevel v) r) r s (refocus-SamePlace u v (toplevel v) r)
            (restore_window-SamePlace u v s)))

  focus_topmost-SamePlace :
      (u workspace : ℕ) (s : Server) → SamePlace u (focus_topmost w workspace s) s
  unfolding focus_topmost
  focus_topmost-SamePlace u workspace s =
      elim (Option-cases (find (is_topmost s workspace) s.views)) [
        | inl e ↦
            rw (e, focus_topmost)
              (record {
                mapped = refl;
                pinned = refl;
                workspace = refl;
                locked = refl;
                current = refl;
              })
        | inr (v, e) ↦ rw (e, focus_topmost) (focus-SamePlace u v s)
      ]

  -- Switching the workspace leaves the window where it belongs, and the session unlocked.
  pub enter_workspace_place :
      (u workspace : ℕ) (s : Server)
      → let r = enter_workspace w workspace s in
        ((r.store u).mapped ≡ (s.store u).mapped)
        × ((r.store u).pinned ≡ (s.store u).pinned)
        × ((r.store u).workspace ≡ (s.store u).workspace)
        × (r.locked ≡ s.locked)
        × (r.current_workspace ≡ workspace)
  unfolding enter_workspace
  enter_workspace_place u workspace s =
      let shown = show_workspace workspace s in
      let kept = show_workspace_state workspace s in
      let same = focus_topmost-SamePlace u workspace shown in
      (
        same.mapped ∙ ap (λ (st : ℕ → View). (st u).mapped) kept.0,
        same.pinned ∙ ap (λ (st : ℕ → View). (st u).pinned) kept.0,
        same.workspace ∙ ap (λ (st : ℕ → View). (st u).workspace) kept.0,
        same.locked ∙ kept.2,
        same.current ∙ (show_workspace_numbers workspace s).0,
      )

  abbrev pub belongs : ℕ → Server → Bool
  belongs v s = (s.store v).pinned || (s.store v).workspace == s.current_workspace

  module _ (seat : IsSeat w) (keyboard : (cs : List Call) → w.has_keyboard cs ≡ true) where
    -- A window that belongs on the current workspace is shown once it is focused, and stays where it belongs.
    pub focus_shown :
        (v : ℕ) (s : Server)
        → (s.store v).mapped ≡ true
        → s.locked ≡ false
        → belongs v s ≡ true
        → let r = focus w v s in
          (w.focused_surface r.calls ≡ some (toplevel v))
          × (is_shown (r.store v) r.current_workspace ≡ true)
          × ((r.store v).workspace ≡ (s.store v).workspace)
          × ((r.store v).pinned ≡ (s.store v).pinned)
    focus_shown v s m u here =
        let done = focus_lem w seat keyboard v s m u in
        let same = focus-SamePlace v v s in
        (
          done.0,
          rw (done.1.0, same.pinned, same.workspace, same.current) here,
          same.workspace,
          same.pinned,
        )
