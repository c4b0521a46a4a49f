-- ===== src/Lifecycle.antt =====
-- The life of a window: `view::handle_map`, `handle_unmap`, `handle_commit`, `handle_destroy`,
-- `initial_configure`, `apply_pending_deco` and `handle_request_minimize`, and the requests of the
-- foreign-toplevel handle (src/view.cc). Deleting the object leaves `store` as it is; what matters is
-- that no pointer leads to it any more.
pub mod Pointers
pub mod Requests
pub mod Activation
pub mod Icons
use steppewm.Base.{
  ℕ, ℤ, pos, Bool, true, false, not, ◌&&◌, ◌||◌, Option, none, some, List, [], ◌∷◌, ◌==◌,
  if◌then◌else◌, remove, points_to,
}
use steppewm.Wlr.{
  Call, Wlroots, toplevel, keyboard_clear_focus, pointer_clear_focus, foreign_create,
  foreign_destroy, ext_foreign_create, ext_foreign_destroy, node_set_enabled, node_destroy,
  scene_tree, taskbar_view_added, taskbar_view_removed, toplevel_set_size,
  decoration_set_mode_server, deco_create, deco_update, deco_destroy,
}
use steppewm.Wlr.Seat.{is_surface}
use steppewm.State.{
  View, Output, Server, Grab, DecoMode, CursorMode, passthrough, emit, emit_if, log, modify,
  move_content,
}
use steppewm.Idle.{update_idle}
use steppewm.Switcher.{view_removed}
use steppewm.View.{update_visibility, minimize, focus, focus_next}
use steppewm.Window.{apply_state}
use steppewm.Workspace.{workspace_switch}
use steppewm.Placement.{place}

-- "add window to all taskbars", "remove view from all taskbars".
unfoldable pub add_to_taskbars : ℕ → List Output → List Call → List Call
add_to_taskbars v [] cs = cs
add_to_taskbars v (o ∷ os) cs =
    add_to_taskbars v os (if o.output_taskbar then taskbar_view_added o.wlr_output v ∷ cs else cs)

unfoldable pub remove_from_taskbars : ℕ → List Output → List Call → List Call
remove_from_taskbars v [] cs = cs
remove_from_taskbars v (o ∷ os) cs =
    remove_from_taskbars v os
      (if o.output_taskbar then taskbar_view_removed o.wlr_output v ∷ cs else cs)

-- The grab ends if it holds the window.
abbrev pub release_grab : Grab → Grab
release_grab g = record g { mode = passthrough; grabbed_view = none; restore_pending = false }

unfoldable pub clear_grab : ℕ → Server → Server
clear_grab v s = record s {
  grab = if points_to s.grab.grabbed_view v then release_grab s.grab else s.grab;
}

unfoldable pub clear_click : ℕ → Server → Server
clear_click v s = record s {
  titlebar_last_click_view =
      if points_to s.titlebar_last_click_view v then none else s.titlebar_last_click_view;
}

unfoldable pub clear_hover : ℕ → Server → Server
clear_hover v s =
    let hit = points_to s.hovered_deco_view v in
    record s {
      hovered_deco_view = if hit then none else s.hovered_deco_view;
      hovered_deco_node = if hit then none else s.hovered_deco_node;
    }

-- "destroy foreign toplevel handles".
unfoldable pub destroy_handles : ℕ → Server → Server
destroy_handles v s =
    let o = s.store v in
    let s1 = emit_if o.foreign_handle (foreign_destroy v) s in
    let s2 = emit_if o.foreign_ext_handle (ext_foreign_destroy v) s1 in
    modify v (λ o. record o { foreign_handle = false; foreign_ext_handle = false }) s2

-- The window leaves the list and the scene.
unfoldable pub unlist : ℕ → Server → Server
unlist v s =
    let s1 = modify v (λ o. record o { mapped = false }) s in
    emit (node_set_enabled (scene_tree v) false) (record s1 { views = remove v s1.views })

-- `view::apply_pending_deco`.
unfoldable pub apply_pending_deco : ℕ → Server → Server
apply_pending_deco v s =
    if not (s.store v).pending_deco || not (s.store v).initialized
    then s
    else (let s1 =
          modify v (λ o. record o { decoration_mode = DecoMode.server })
            (emit (decoration_set_mode_server v) s) in
        modify v (λ o. record o { pending_deco = false })
          (emit (deco_create v) (move_content v s.cfg.border_w s.cfg.title_h s1)))

-- `view::handle_commit`; on the first commit the configuration is left to an idle callback.
unfoldable pub handle_commit : Bool → ℕ → Server → Server
handle_commit initial_commit v s =
    if initial_commit
    then modify v (λ o. record o { initial_configure_idle = true }) s
    else emit (deco_update v) (apply_pending_deco v s)

module _ (w : Wlroots) where
  -- "unfocus keyboard if is focused currently", and the same for the pointer.
  unfoldable pub clear_keyboard : ℕ → Server → Server
  clear_keyboard v s =
      emit_if (is_surface (w.focused_surface s.calls) (toplevel v)) keyboard_clear_focus s

  unfoldable pub clear_pointer : ℕ → Server → Server
  clear_pointer v s =
      emit_if (is_surface (w.pointer_surface s.calls) (toplevel v)) pointer_clear_focus s

  -- The new window joins the list and the current workspace, and is placed.
  unfoldable pub enlist : ℕ → Server → Server
  enlist v s =
      let s1 = modify v (λ o. record o { mapped = true; workspace = s.current_workspace }) s in
      place w v (update_visibility v (record s1 { views = v ∷ s1.views }))

  -- The two handles that tell other programs of the window.
  unfoldable pub create_handles : ℕ → Server → Server
  create_handles v s =
      let s1 = emit (foreign_create v) s in
      let s2 = modify v (λ o. record o { foreign_handle = w.foreign_created s1.calls }) s1 in
      let s3 = emit (ext_foreign_create v) s2 in
      modify v (λ o. record o { foreign_ext_handle = w.ext_foreign_created s3.calls }) s3

  -- `view::handle_map`.
  unfoldable pub handle_map : ℕ → Server → Server
  handle_map v s =
      let s1 = enlist v s in focus w v (create_handles v (log (add_to_taskbars v s1.outputs) s1))

  -- The first half of `view::handle_unmap`: what still points to the window lets go.
  unfoldable pub detach : ℕ → Server → Server
  detach v s =
      destroy_handles v
        (clear_pointer v (clear_keyboard v (clear_hover v (clear_click v (clear_grab v s)))))

  -- `view::handle_unmap`.
  unfoldable pub handle_unmap : ℕ → Server → Server
  handle_unmap v s =
      let s1 = view_removed v (update_idle none (unlist v (detach v s))) in
      focus_next w (some v) (log (remove_from_taskbars v s1.outputs) s1)

  -- `view::handle_destroy`. The hover is not cleared here.
  unfoldable pub handle_destroy : ℕ → Server → Server
  handle_destroy v s =
      let s1 = record s { views = if (s.store v).mapped then remove v s.views else s.views } in
      let s2 = clear_pointer v (clear_keyboard v (clear_click v (clear_grab v s1))) in
      emit (node_destroy (scene_tree v)) (
        emit (deco_destroy v) (
          modify v (λ o. record o { has_data = false; initial_configure_idle = false })
            (destroy_handles v s2)))

  -- `view::initial_configure`, with the states that the client requested before it.
  unfoldable pub initial_configure : Bool → Bool → ℕ → Server → Server
  initial_configure maximized fullscreen v s =
      let s1 = modify v (λ o. record o { initial_configure_idle = false }) s in
      let s2 = apply_pending_deco v s1 in
      if not (s.store v).initialized
      then s1
      else if maximized || fullscreen
      then apply_state w maximized fullscreen v s2
      else emit (toplevel_set_size v (pos 0) (pos 0)) s2

  -- `view::handle_request_minimize`, with what the client requests.
  unfoldable pub handle_request_minimize : Bool → ℕ → Server → Server
  handle_request_minimize requested v s =
      if not requested then s else focus_next w (some v) (minimize true v s)

  -- The `request_minimize` and `request_activate` of the foreign-toplevel handle.
  unfoldable pub foreign_request_minimize : Bool → ℕ → Server → Server
  foreign_request_minimize requested v s =
      if requested
      then focus_next w (some v) (minimize true v s)
      else focus w v (minimize false v s)

  unfoldable pub foreign_request_activate : ℕ → Server → Server
  foreign_request_activate v s = focus w v (
      if (s.store v).workspace == s.current_workspace
      then s
      else workspace_switch w (pos (s.store v).workspace) s)
