-- ===== src/Lifecycle/Activation.antt =====
-- What an activation request does with a valid token and without one: `view::handle_activation_request` of
-- src/view.cc.
use steppewm.Base.{
  ℕ, Bool, true, false, not, ◌||◌, Option, some, List, [], ◌∷◌, ap, subst, sym, refl, if◌then◌else◌,
  ◌≡◌, ◌≢◌, ◌<◌, ◌∙◌, arith, ◌==◌, ==_refl, Bool-cases, inl, inr,
}
use steppewm.Wlr.{Call, Surface, toplevel, Wlroots, taskbar_refresh}
use steppewm.Wlr.Seat.{IsSeat}
use steppewm.State.{Output, Server, refresh_outputs, is_shown, num_workspaces}
use steppewm.View.{bool_eq, set_urgent}
use steppewm.Workspace.{enter_workspace}
use steppewm.Workspace.Visibility.{workspace_switch_enters}
use steppewm.Pointer.Places.{enter_workspace_place, focus_shown, or_true}
use steppewm.Lifecycle.Requests.{
  Root, Token, from_surface, token_valid, is_view_focused, activate_target,
  handle_activation_request,
}

-- The calls but for those that draw the taskbars again.
abbrev pub but_refresh : List Call → List Call
but_refresh [] = []
but_refresh (taskbar_refresh o ∷ cs) = but_refresh cs
but_refresh (c ∷ cs) = c ∷ but_refresh cs

refresh_outputs-but_refresh :
    (os : List Output) (cs : List Call) → but_refresh (refresh_outputs os cs) ≡ but_refresh cs
refresh_outputs-but_refresh [] cs = refl
refresh_outputs-but_refresh (o ∷ os) cs = refresh_outputs-but_refresh os _ ∙ ground arith

-- From one state to another nothing changes but `urgent` of one window, to the given value; the only
-- calls draw the taskbars again.
abbrev pub IsMarked : ℕ → Bool → Server → Server → Type 0
IsMarked v urgent s r =
    (r ≡ record s { store = r.store; calls = r.calls })
    × ((u : ℕ) → r.store u ≡ (if u == v then record (s.store u) { urgent = urgent } else s.store u))
    × (but_refresh r.calls ≡ but_refresh s.calls)

-- A window that is marked as it should be.
same-IsMarked : (v : ℕ) (b : Bool) (s : Server) → (s.store v).urgent ≡ b → IsMarked v b s s
same-IsMarked v b s h = (
  refl,
  (λ u. elim (Bool-cases (u == v)) [
    | inl e ↦
        let same : u ≡ v = ground arith in
        let is : (s.store u).urgent ≡ b = ap (λ i. (s.store i).urgent) same ∙ h in
        rw e (ap (λ x. record (s.store u) { urgent = x }) is)
    | inr e ↦ rw e refl
  ]),
  refl,
)

set_urgent-IsMarked : (v : ℕ) (s : Server) → IsMarked v true s (set_urgent true v s)
unfolding set_urgent bool_eq
set_urgent-IsMarked v s = elim (Bool-cases (s.store v).urgent) [
  | inl e ↦ rw e (same-IsMarked v true s e)
  | inr e ↦ rw e (refl, (λ u. refl), refresh_outputs-but_refresh s.outputs s.calls)
]

or_false : (b : Bool) → b ≡ (b || false)
or_false true = refl
or_false false = refl

module _ (w : Wlroots) (root : Surface → Root) where
  refused :
      (v : ℕ) (s : Server)
      → IsMarked v
          ((s.store v).urgent || not (is_view_focused w root v s))
          s
          (activate_target w root false v s)
  unfolding activate_target
  refused v s = elim (Bool-cases (is_view_focused w root v s)) [
    | inl e ↦ rw e (same-IsMarked v _ s (or_false (s.store v).urgent))
    | inr e ↦ rw e (
        subst (λ b. IsMarked v b s (set_urgent true v s)) (sym (or_true (s.store v).urgent))
          (set_urgent-IsMarked v s))
  ]

  -- Without a valid token a request for a mapped window changes nothing, but that it marks the window as
  -- urgent unless the window has the focus: no other field of it, no other window, no other part of the
  -- state changes, and no call is made but those that draw the taskbars again, so that nothing is raised,
  -- shown or focused.
  pub handle_activation_request-refused :
      (target : Option Surface) (token : Option Token) (v : ℕ) (s : Server)
      → from_surface w root target s ≡ some v
      → (s.store v).mapped ≡ true
      → token_valid w root (w.focused_surface s.calls) token s ≡ false
      → IsMarked v
          ((s.store v).urgent || not (is_view_focused w root v s))
          s
          (handle_activation_request w root target token s)
  unfolding handle_activation_request
  handle_activation_request-refused target token v s found m invalid =
      rw (found, handle_activation_request, m, invalid) (refused v s)

  module _ (seat : IsSeat w) (keyboard : (cs : List Call) → w.has_keyboard cs ≡ true) where
    accepted :
        (v : ℕ) (s : Server)
        → (s.store v).mapped ≡ true
        → s.locked ≡ false
        → (s.store v).workspace < num_workspaces
        → let r = activate_target w root true v s in
          (w.focused_surface r.calls ≡ some (toplevel v))
          × (is_shown (r.store v) r.current_workspace ≡ true)
    unfolding activate_target
    accepted v s m u bound =
        let o = s.store v in
        elim (Bool-cases (o.workspace == s.current_workspace)) [
          | inl e ↦
              let done = focus_shown w seat keyboard v s m u (ground arith) in rw e (done.0, done.1)
          | inr e ↦
              let ne : o.workspace ≢ s.current_workspace = ground arith in
              let entered = enter_workspace w o.workspace s in
              let place = enter_workspace_place w v o.workspace s in
              rw (e, workspace_switch_enters seat keyboard o.workspace s bound ne)
                (let o1 = entered.store v in
                  let there : (o1.pinned || o1.workspace == entered.current_workspace) ≡ true =
                    rw (place.2, place.4, ==_refl o.workspace) (or_true (entered.store v).pinned) in
                  let done =
                    focus_shown w seat keyboard v entered (place.0 ∙ m) (place.3 ∙ u) there in
                  (done.0, done.1))
        ]

    -- With a valid token, in an unlocked session, a request for a mapped window on one of the nine
    -- workspaces gives the window the keyboard and shows it. The seat is as documented and has a keyboard.
    handle_activation_request-shows :
        (target : Option Surface) (token : Option Token) (v : ℕ) (s : Server)
        → from_surface w root target s ≡ some v
        → (s.store v).mapped ≡ true
        → s.locked ≡ false
        → (s.store v).workspace < num_workspaces
        → token_valid w root (w.focused_surface s.calls) token s ≡ true
        → let r = handle_activation_request w root target token s in
          (w.focused_surface r.calls ≡ some (toplevel v))
          × (is_shown (r.store v) r.current_workspace ≡ true)
    unfolding handle_activation_request
    handle_activation_request-shows target token v s found m u bound valid =
        rw (found, handle_activation_request, m, valid) (accepted v s m u bound)
