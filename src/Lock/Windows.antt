-- ===== src/Lock/Windows.antt =====
-- The states of windows and the actions of bindings while the session is locked (src/view.cc,
-- src/input.cc).
use Prim.Native.String.{String}
use text.Mathlib.Text.{◌==◌ as str_eq}
use steppewm.Base.{
  All, ℕ, ℤ, pos, Bool, true, false, Option, none, some, List, [], ◌∷◌, ◌≡◌, refl, arith,
  if◌then◌else◌, not, ◌-ℤ◌, ◌*ℤ◌, Option-cases, inl, inr,
}
use steppewm.Wlr.{toplevel_send_close, deco_set_visible, toplevel_set_size, Wlroots, Box}
use steppewm.State.{
  Server, SnapEdge, unsnapped, modify, emit, move_content, move_window, left, right, top_left,
  top_right, bottom_left, bottom_right,
}
use steppewm.Switcher.{cycle, open_switcher, advance}
use steppewm.View.{raise_overlays, minimize, focus_next}
use steppewm.View.Quiet.{raise_overlays-quiet}
use steppewm.Snap.{snap_zone}
use steppewm.Output.{usable_area}
use steppewm.Window.{
  deco_x, deco_y, save_geometry, set_states, show_snapped, unsnap, occupy, announce_states,
  restore_geometry, restack, output_for, snap_on, snap_to_edge, snap_to, fill_output,
  change_geometry, apply_state, toggle_maximize, toggle_fullscreen,
}
use steppewm.Workspace.{move_to_workspace}
use steppewm.Dispatch.{toggle_pin, focused_view, window_action, on_focused, dispatch_action}
use steppewm.Lock.Guarded.{
  IsGuarded, quiet-IsGuarded, stopped_focus_next, minimize-IsGuarded, refresh_taskbars-IsGuarded,
  workspace_switch-IsGuarded, move_to_workspace-IsGuarded,
}

-- A ladder of tests, and what its branches lead to.
abbrev pick : List (Bool × Server) → Server → Server
pick [] s = s
pick (p ∷ ps) s = if p.0 then p.1 else pick ps s

pick-IsGuarded :
    (ps : List (Bool × Server)) (s : Server)
    → All (λ p. IsGuarded s p.1) ps
    → IsGuarded s (pick ps s)
pick-IsGuarded [] s g = (refl, refl)
pick-IsGuarded ((true, r) ∷ ps) s g = g.0
pick-IsGuarded ((false, r) ∷ ps) s g = pick-IsGuarded ps s g.1

raise_overlays-IsGuarded : (s : Server) → IsGuarded s (raise_overlays s)
unfolding raise_overlays
raise_overlays-IsGuarded s = quiet-IsGuarded s (raise_overlays s) refl (raise_overlays-quiet s)

show_snapped-IsGuarded : (v : ℕ) (s : Server) → IsGuarded s (show_snapped v s)
unfolding show_snapped
show_snapped-IsGuarded v s = raise_overlays-IsGuarded (emit (deco_set_visible v true) s)

unsnap-IsGuarded : (v : ℕ) (s : Server) → IsGuarded s (unsnap v s)
unfolding unsnap set_states
unsnap-IsGuarded v s =
    let geo = (s.store v).saved_geo in
    let s1 = move_content v (deco_x v s) (deco_y v s) s in
    let s2 = emit (toplevel_set_size v geo.width geo.height) (move_window v geo.x geo.y s1) in
    ground (arith, show_snapped-IsGuarded v (set_states false false unsnapped v s2))

occupy-IsGuarded :
    (zone : Box) (edge : SnapEdge) (v : ℕ) (s : Server) → IsGuarded s (occupy zone edge v s)
unfolding occupy set_states
occupy-IsGuarded zone edge v s =
    let ox = deco_x v s in
    let oy = deco_y v s in
    let s1 = move_content v ox oy (move_window v zone.x zone.y s) in
    let s2 = emit (toplevel_set_size v (zone.width -ℤ pos 2 *ℤ ox) (zone.height -ℤ oy -ℤ ox)) s1 in
    show_snapped-IsGuarded v (set_states false false edge v s2)

restack-IsGuarded : (a b : Bool) (v : ℕ) (s : Server) → IsGuarded s (restack a b v s)
unfolding restack
restack-IsGuarded a b v s =
    ground (arith, raise_overlays-IsGuarded (emit (deco_set_visible v (not b)) s))

cycle-IsGuarded : (mods : ℕ) (backwards : Bool) (s : Server) → IsGuarded s (cycle mods backwards s)
unfolding cycle open_switcher advance
cycle-IsGuarded mods backwards s = ground arith

module _ (w : Wlroots) where
  snap_on-IsGuarded :
      (out : Option ℕ) (edge : SnapEdge) (v : ℕ) (s : Server) → IsGuarded s (snap_on w out edge v s)
  unfolding snap_on
  snap_on-IsGuarded none edge v s = (refl, refl)
  snap_on-IsGuarded (some out) edge v s =
      elim (Option-cases (snap_zone edge (usable_area w s (some out)))) [
        | inl z ↦ rw (z, snap_on) (refl, refl)
        | inr (zone, z) ↦ rw (z, snap_on) (occupy-IsGuarded zone edge v s)
      ]

  pub snap_to-IsGuarded : (edge : SnapEdge) (v : ℕ) (s : Server) → IsGuarded s (snap_to w edge v s)
  unfolding snap_to snap_to_edge save_geometry
  snap_to-IsGuarded edge v s =
      let s1 = save_geometry v s in
      ground (arith, unsnap-IsGuarded v s, snap_on-IsGuarded (output_for w v s1) edge v s1)

  change_geometry-IsGuarded :
      (m f : Bool) (v : ℕ) (s : Server) → IsGuarded s (change_geometry w m f v s)
  unfolding change_geometry fill_output restore_geometry save_geometry
  change_geometry-IsGuarded m f v s = ground arith

  pub apply_state-IsGuarded :
      (m f : Bool) (v : ℕ) (s : Server) → IsGuarded s (apply_state w m f v s)
  unfolding apply_state announce_states set_states
  apply_state-IsGuarded m f v s =
      let s1 = change_geometry w m f v s in
      let s2 = announce_states m f v (set_states m f unsnapped v s1) in
      let g = change_geometry-IsGuarded m f v s in
      let h = restack-IsGuarded (s.store v).fullscreen f v s2 in ground (arith, g, h)

  toggle_pin-IsGuarded : (v : ℕ) (s : Server) → IsGuarded s (toggle_pin v s)
  unfolding toggle_pin
  toggle_pin-IsGuarded v s =
      let s1 = modify v (λ o. record o { pinned = not o.pinned }) s in
      let s2 = modify v (λ o. record o { workspace = s.current_workspace }) s1 in
      ground (arith, refresh_taskbars-IsGuarded s1, refresh_taskbars-IsGuarded s2)

  window_action-IsGuarded :
      (atoi : String → ℤ) (action : String) (v : ℕ) (s : Server)
      → s.locked ≡ true
      → IsGuarded s (window_action w atoi action v s)
  unfolding window_action toggle_maximize toggle_fullscreen
  window_action-IsGuarded atoi action v s l =
      pick-IsGuarded
        ((str_eq action "minimize", focus_next w (some v) (minimize true v s))
          ∷ (str_eq action "maximize", toggle_maximize w v s)
          ∷ (str_eq action "fullscreen", toggle_fullscreen w v s)
          ∷ (str_eq action "close", emit (toplevel_send_close v) s)
          ∷ (str_eq action "snap_left", snap_to w left v s)
          ∷ (str_eq action "snap_right", snap_to w right v s)
          ∷ (str_eq action "snap_top_left", snap_to w top_left v s)
          ∷ (str_eq action "snap_top_right", snap_to w top_right v s)
          ∷ (str_eq action "snap_bottom_left", snap_to w bottom_left v s)
          ∷ (str_eq action "snap_bottom_right", snap_to w bottom_right v s)
          ∷ (str_eq action "pin", toggle_pin v s)
          ∷ [])
        s
        (
          stopped_focus_next w (some v) s (minimize true v s) l (minimize-IsGuarded true v s),
          (
            apply_state-IsGuarded (not (s.store v).maximized) (s.store v).fullscreen v s,
            (
              apply_state-IsGuarded (s.store v).maximized (not (s.store v).fullscreen) v s,
              (
                (refl, refl),
                (
                  snap_to-IsGuarded left v s,
                  (
                    snap_to-IsGuarded right v s,
                    (
                      snap_to-IsGuarded top_left v s,
                      (
                        snap_to-IsGuarded top_right v s,
                        (
                          snap_to-IsGuarded bottom_left v s,
                          (snap_to-IsGuarded bottom_right v s, (toggle_pin-IsGuarded v s, tt)),
                        ),
                      ),
                    ),
                  ),
                ),
              ),
            ),
          ),
        )

  module _ (atoi : String → ℤ) where
    on_focused-IsGuarded :
        (f : ℕ → Server → Server) (s : Server)
        → ((v : ℕ) → IsGuarded s (f v s))
        → IsGuarded s (on_focused w atoi f s)
    unfolding on_focused
    on_focused-IsGuarded f s g = elim (Option-cases (focused_view w atoi s)) [
      | inl e ↦ rw (e, on_focused) (refl, refl)
      | inr (v, e) ↦ rw (e, on_focused) (g v)
    ]

    pub dispatch_action-IsGuarded :
        (action arg : String) (mods : ℕ) (s : Server)
        → s.locked ≡ true
        → IsGuarded s (dispatch_action w atoi action arg mods s)
    unfolding dispatch_action
    dispatch_action-IsGuarded action arg mods s l = ground (
      arith,
      cycle-IsGuarded mods false s,
      cycle-IsGuarded mods true s,
      workspace_switch-IsGuarded w (atoi arg -ℤ pos 1) s l,
      on_focused-IsGuarded
          (λ v s. if not (str_eq arg "") then move_to_workspace w (atoi arg -ℤ pos 1) v s else s) s
          (λ v. ground (arith, move_to_workspace-IsGuarded w (atoi arg -ℤ pos 1) v s l)),
      on_focused-IsGuarded (window_action w atoi action) s
          (λ v. window_action-IsGuarded atoi action v s l),
    )
