-- ===== src/Lock/Requests.antt =====
-- Keys, activation requests and new windows while the session is locked (src/input.cc, src/view.cc).
use Prim.Native.String.{String}
use steppewm.Base.{
  ℕ, ℤ, pos, Bool, true, false, Option, List, [], ◌∷◌, ◌≡◌, refl, sym, subst, ◌∙◌, arith,
  if◌then◌else◌, ◌==◌, ◌-◌, ◌+◌, Option-cases, inl, inr,
}
use steppewm.Wlr.{Wlroots, Surface, notify_activity, session_change_vt, tray_close_menu}
use steppewm.State.{Server, emit, emit_if, modify}
use steppewm.Switcher.{cancel}
use steppewm.View.{set_urgent}
use steppewm.Workspace.{workspace_switch}
use steppewm.Dispatch.{Keybind, run_key}
use steppewm.Keyboard.{
  switch_vt_1, switch_vts, on_escape, escape_switcher, escape_menu, forward_key, Shortcuts, Key,
  run_bindings, press_key, handle_key,
}
use steppewm.Lifecycle.Requests.{
  Root, Token, on_new, token_valid, from_surface, activate_target, handle_activation_request,
}
use steppewm.Lock.{LockSurface, ensure_focus}
use steppewm.Lock.Guarded.{
  IsGuarded, IsGuarded-trans, stopped_focus, refresh_taskbars-IsGuarded, cancel-IsGuarded,
  workspace_switch-IsGuarded,
}
use steppewm.Lock.Handlers.{ensure_focus-IsGuarded}

pub on_new-IsGuarded : (v : ℕ) (s : Server) → IsGuarded s (on_new v s)
unfolding on_new
on_new-IsGuarded v s = ground arith

switch_vts-IsGuarded :
    (session : Bool) (syms : List ℕ) (s : Server) (h : Bool)
    → IsGuarded s (switch_vts session syms (s, h)).0
unfolding switch_vts
switch_vts-IsGuarded session [] s h = (refl, refl)
switch_vts-IsGuarded session (x ∷ xs) s h =
    let s1 = emit_if session (session_change_vt (x - switch_vt_1 + 1)) s in
    let g =
      IsGuarded-trans s s1 (switch_vts session xs (s1, true)).0 (ground arith)
        (switch_vts-IsGuarded session xs s1 true) in
    ground (arith, g, switch_vts-IsGuarded session xs s h)

on_escape-IsGuarded :
    (act : Server → Server)
    → ((s : Server) → IsGuarded s (act s))
    → (syms : List ℕ) (s : Server) (h : Bool) → IsGuarded s (on_escape act syms (s, h)).0
unfolding on_escape
on_escape-IsGuarded act g [] s h = (refl, refl)
on_escape-IsGuarded act g (x ∷ xs) s h =
    let t =
      IsGuarded-trans s (act s) (on_escape act xs (act s, true)).0 (g s)
        (on_escape-IsGuarded act g xs (act s) true) in
    ground (arith, t, on_escape-IsGuarded act g xs s h)

escape_switcher-IsGuarded :
    (syms : List ℕ) (s : Server) (h : Bool) → IsGuarded s (escape_switcher syms (s, h)).0
unfolding escape_switcher
escape_switcher-IsGuarded syms s h =
    ground (arith, on_escape-IsGuarded cancel cancel-IsGuarded syms s h)

escape_menu-IsGuarded :
    (menu_open : Bool) (syms : List ℕ) (s : Server) (h : Bool)
    → IsGuarded s (escape_menu menu_open syms (s, h)).0
unfolding escape_menu
escape_menu-IsGuarded menu_open syms s h =
    ground (arith, on_escape-IsGuarded (emit tray_close_menu) (λ s. (refl, refl)) syms s h)

module _ (w : Wlroots) where
  module _ (atoi : String → ℤ) (to_lower : ℕ → ℕ) (binds : List Keybind) where
    -- No binding runs while the session is locked.
    run_bindings-locked :
        (is : Shortcuts) (k : Key) (s : Server) (h : Bool)
        → s.locked ≡ true
        → (run_bindings w atoi to_lower binds is k (s, h)).0 ≡ s
    unfolding run_bindings run_key
    run_bindings-locked is k s h l = ground arith

    press_key-IsGuarded :
        (session menu_open : Bool) (is : Shortcuts) (k : Key) (s : Server)
        → s.locked ≡ true
        → IsGuarded s (press_key w atoi to_lower binds session menu_open is k s).0
    unfolding press_key
    press_key-IsGuarded session menu_open is k s l =
        let r1 = switch_vts session k.syms (s, false) in
        let r2 = escape_switcher k.syms r1 in
        let r3 = escape_menu menu_open k.syms r2 in
        let g1 = switch_vts-IsGuarded session k.syms s false in
        let g2 = IsGuarded-trans s r1.0 r2.0 g1 (escape_switcher-IsGuarded k.syms r1.0 r1.1) in
        let g3 =
          IsGuarded-trans s r2.0 r3.0 g2 (escape_menu-IsGuarded menu_open k.syms r2.0 r2.1) in
        subst (IsGuarded s) (sym (run_bindings-locked is k r3.0 r3.1 (g3.0 ∙ l))) g3

    forward_key-IsGuarded : (k : Key) (s : Server) (h : Bool) → IsGuarded s (forward_key k (s, h))
    unfolding forward_key
    forward_key-IsGuarded k s h = ground arith

    pub handle_key-IsGuarded :
        (ls : List LockSurface) (session menu_open : Bool) (is : Shortcuts) (k : Key) (s : Server)
        → s.locked ≡ true
        → IsGuarded s (handle_key w atoi to_lower binds ls session menu_open is k s)
    unfolding handle_key
    handle_key-IsGuarded ls session menu_open is k s l =
        let s1 = emit notify_activity s in
        let s2 = if s1.locked then ensure_focus w ls s1 else s1 in
        let g2 =
          IsGuarded-trans s s1 s2 (refl, refl) (ground (arith, ensure_focus-IsGuarded w ls s1)) in
        let r =
          if k.pressed
          then press_key w atoi to_lower binds session menu_open is k s2
          else (s2, false) in
        let g3 =
          IsGuarded-trans s s2 r.0 g2
            (ground (arith, press_key-IsGuarded session menu_open is k s2 (g2.0 ∙ l))) in
        IsGuarded-trans s r.0 (forward_key k r) g3 (forward_key-IsGuarded k r.0 r.1)

  activate_target-IsGuarded :
      (root : Surface → Root) (valid : Bool) (v : ℕ) (s : Server)
      → s.locked ≡ true
      → IsGuarded s (activate_target w root valid v s)
  unfolding activate_target set_urgent
  activate_target-IsGuarded root valid v s l =
      let there = (s.store v).workspace == s.current_workspace in
      let s1 = modify v (λ o. record o { urgent = true }) s in
      let g =
        stopped_focus w v s (if there then s else workspace_switch w (pos (s.store v).workspace) s)
          l (ground (arith, workspace_switch-IsGuarded w (pos (s.store v).workspace) s l)) in
      ground (arith, g, refresh_taskbars-IsGuarded s1)

  pub handle_activation_request-IsGuarded :
      (root : Surface → Root) (target : Option Surface) (token : Option Token) (s : Server)
      → s.locked ≡ true
      → IsGuarded s (handle_activation_request w root target token s)
  unfolding handle_activation_request
  handle_activation_request-IsGuarded root target token s l =
      elim (Option-cases (from_surface w root target s)) [
        | inl e ↦ rw (e, handle_activation_request) (refl, refl)
        | inr (v, e) ↦
            let valid = token_valid w root (w.focused_surface s.calls) token s in
            rw (e, handle_activation_request)
              (ground (arith, activate_target-IsGuarded root valid v s l))
      ]
