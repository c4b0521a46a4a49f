-- ===== src/View.antt =====
-- Visibility, minimizing, urgency, stacking and focus of windows: the first part of src/view.cc, and
-- `view::focus`, `view::raise_overlays`. `v` is the address of the window whose method runs.
pub mod Quiet
pub mod Focus
pub mod Next
use steppewm.Base.{
  ℕ, Bool, true, false, not, ◌&&◌, ◌||◌, Option, none, some, List, [], ◌∷◌, ◌==◌, if◌then◌else◌,
  find, remove, points_to,
}
use steppewm.Wlr.{
  Surface, toplevel, layer, lock, other, Call, Wlroots, node_set_enabled, node_raise_to_top,
  scene_tree, layer_tree, taskbar_raise, toplevel_set_activated, deco_set_focus, keyboard_enter,
  keyboard_clear_focus, foreign_set_minimized, foreign_set_activated,
}
use steppewm.Wlr.Seat.{is_surface}
use steppewm.State.{
  View, Output, Server, emit, emit_if, log, modify, is_shown, refresh_outputs, refresh_taskbars,
}
use steppewm.Idle.{update_idle}

-- `view::update_visibility`.
unfoldable pub update_visibility : ℕ → Server → Server
update_visibility v s =
    update_idle none
      (emit (node_set_enabled (scene_tree v) (is_shown (s.store v) s.current_workspace)) s)

-- `view::minimize`.
unfoldable pub minimize : Bool → ℕ → Server → Server
minimize min v s =
    let s1 = update_visibility v (modify v (λ o. record o { minimized = min }) s) in
    refresh_taskbars (emit_if (s.store v).foreign_handle (foreign_set_minimized v min) s1)

unfoldable pub bool_eq : Bool → Bool → Bool
bool_eq true b = b
bool_eq false b = not b

-- `view::set_urgent`.
unfoldable pub set_urgent : Bool → ℕ → Server → Server
set_urgent urgent v s =
    if bool_eq (s.store v).urgent urgent
    then s
    else refresh_taskbars (modify v (λ o. record o { urgent = urgent }) s)

-- The loops of `view::raise_overlays`: the pinned windows, then each output's taskbar and its layer
-- trees TOP (2) and OVERLAY (3).
unfoldable pub raise_pinned : (ℕ → View) → List ℕ → List Call → List Call
raise_pinned st [] cs = cs
raise_pinned st (v ∷ vs) cs =
    raise_pinned st vs
      (if (st v).pinned && (st v).mapped then node_raise_to_top (scene_tree v) ∷ cs else cs)

unfoldable pub raise_layer : Output → ℕ → List Call → List Call
raise_layer o i cs =
    if o.layer_trees i then node_raise_to_top (layer_tree o.wlr_output i) ∷ cs else cs

unfoldable pub raise_output : Output → List Call → List Call
raise_output o cs =
    raise_layer o 3
      (raise_layer o 2 (if o.output_taskbar then taskbar_raise o.wlr_output ∷ cs else cs))

unfoldable pub raise_outputs : List Output → List Call → List Call
raise_outputs [] cs = cs
raise_outputs (o ∷ os) cs = raise_outputs os (raise_output o cs)

-- `view::raise_overlays`.
unfoldable pub raise_overlays : Server → Server
raise_overlays s = log (λ cs. raise_outputs s.outputs (raise_pinned s.store s.views cs)) s

-- "unfocus the previously focused window": only a toplevel's surface has one.
unfoldable pub unfocus_window : (ℕ → View) → ℕ → List Call → List Call
unfocus_window st p cs =
    let cs1 = toplevel_set_activated p false ∷ cs in
    if (st p).has_data
    then (if (st p).foreign_handle
        then foreign_set_activated p false ∷ deco_set_focus p false ∷ cs1
        else deco_set_focus p false ∷ cs1)
    else cs1

unfoldable pub unfocus_previous : (ℕ → View) → Option Surface → List Call → List Call
unfocus_previous st (some (toplevel p)) cs = unfocus_window st p cs
unfocus_previous st _ cs = cs

-- "activate new view": the window comes to the top of the scene and to the front of the list.
unfoldable pub activate : ℕ → Server → Server
activate v s =
    let s1 = emit (node_raise_to_top (scene_tree v)) s in
    let s2 = emit (toplevel_set_activated v true) (record s1 { views = v ∷ remove v s1.views }) in
    let s3 = emit_if (s.store v).foreign_handle (foreign_set_activated v true) s2 in
    emit (deco_set_focus v true) (record s3 { hovered_deco_view = none; hovered_deco_node = none })

-- The window is no longer minimized or urgent, as `view::focus` makes it first.
unfoldable pub restore_window : ℕ → Server → Server
restore_window v s = set_urgent false v (if (s.store v).minimized then minimize false v s else s)

-- The test in the loop of `view::focus_next`; `skip` may be null.
abbrev pub is_candidate : Server → Option ℕ → ℕ → Bool
is_candidate s skip v =
    not (points_to skip v) && (s.store v).mapped && is_shown (s.store v) s.current_workspace

module _ (w : Wlroots) where
  -- The keyboard enters the surface, if the seat has a keyboard.
  unfoldable pub enter_keyboard : Surface → Server → Server
  enter_keyboard surface s = emit_if (w.has_keyboard s.calls) (keyboard_enter surface) s

  -- The rest of `view::focus` when the surface is not focused yet.
  unfoldable pub take_focus : ℕ → Surface → Server → Server
  take_focus v surface s =
      let s1 = activate v (log (unfocus_previous s.store (w.focused_surface s.calls)) s) in
      let s2 = record (enter_keyboard surface s1) { focused_layer = none } in
      let s3 = refresh_taskbars (raise_overlays s2) in
      emit_if (s.store v).fullscreen (node_raise_to_top (scene_tree v)) s3

  unfoldable pub refocus : ℕ → Surface → Server → Server
  refocus v surface s =
      if is_surface (w.focused_surface s.calls) surface then s else take_focus v surface s

  -- `view::focus`.
  unfoldable pub focus_surface : ℕ → Surface → Server → Server
  focus_surface v surface s =
      if not (s.store v).mapped
      then s
      else if s.locked
      then s
      else refocus v surface (restore_window v s)

  -- Every caller but `tablet_tool::handle_tip` focuses the window's own surface.
  unfoldable pub focus : ℕ → Server → Server
  focus v s = focus_surface v (toplevel v) s

  -- `view::focus_next`.
  unfoldable pub focus_next : Option ℕ → Server → Server
  focus_next skip s = if s.locked then s else elim (find (is_candidate s skip) s.views) [
    | some v ↦ focus v s
    | none ↦ refresh_taskbars (emit keyboard_clear_focus s)
  ]
