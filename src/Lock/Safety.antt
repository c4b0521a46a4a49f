-- ===== src/Lock/Safety.antt =====
-- What may happen to a locked session before the locker unlocks it: src/lock.cc with the handlers of the other files that may move the keyboard focus.
use Prim.Native.String.{String}
use steppewm.Base.{
  ℕ, ℤ, Option, Bool, true, false, List, [], ◌∷◌, ◌≡◌, refl, ◌∙◌, arith, pos, some, ◌==◌,
  if◌then◌else◌,
}
use steppewm.Wlr.{Wlroots, Surface}
use steppewm.State.{Server, SnapEdge}
use steppewm.Switcher.Commit.{handle_modifiers}
use steppewm.View.{minimize}
use steppewm.Window.{snap_to, apply_state}
use steppewm.Lifecycle.{
  handle_map, handle_unmap, handle_request_minimize, foreign_request_minimize,
  foreign_request_activate, handle_destroy, handle_commit, initial_configure,
}
use steppewm.Layer
use steppewm.Workspace.{workspace_switch}
use steppewm.Lock.{
  LockSurface, update_geometry, on_new_lock, on_destroy_lock, on_new_surface, ensure_focus,
  on_destroy_surface,
}
use steppewm.Dispatch.{Keybind, dispatch_action}
use steppewm.Keyboard.{Shortcuts, Key, handle_key}
use steppewm.Deco.{DecoNode, deco_handle_button}
use steppewm.Taskbar.{Taskbar, Metrics}
use steppewm.Pointer.{Under, Tray, Commands, Pointing}
use steppewm.Pointer.Press.{on_cursor_button, on_cursor_axis}
use steppewm.Pointer.Motion.{Constraints, cursor_move_relative}
use steppewm.Tablet.{Place, Tool, handle_tip}
use steppewm.Lock.Pointer.{
  on_cursor_button-IsGuarded, on_cursor_axis-IsGuarded, cursor_move_relative-IsGuarded,
}
use steppewm.Lock.Decos.{
  deco_handle_button-IsGuarded, handle_destroy-IsGuarded, handle_commit-IsGuarded,
  initial_configure-IsGuarded,
}
use steppewm.Lock.Tip.{server_of, handle_tip-IsGuarded}
use steppewm.Lifecycle.Requests
use steppewm.Lifecycle.Requests.{Root, Token, handle_activation_request}
use steppewm.Lock.Requests.{
  on_new-IsGuarded, handle_activation_request-IsGuarded, handle_key-IsGuarded,
}
use steppewm.Lock.Guarded.{
  client_calls, IsGuarded, stopped_focus, stopped_focus_next, minimize-IsGuarded,
  workspace_switch-IsGuarded, handle_map-IsGuarded, handle_unmap-IsGuarded,
}
use steppewm.Lock.Windows.{snap_to-IsGuarded, apply_state-IsGuarded, dispatch_action-IsGuarded}
use steppewm.Lock.Handlers.{
  on_new_lock-IsGuarded, on_destroy_lock-IsGuarded, on_new_surface-IsGuarded,
  ensure_focus-IsGuarded, on_destroy_surface-IsGuarded, update_geometry-IsGuarded,
  handle_modifiers-IsGuarded, focus_layer-IsGuarded, on_unmap-IsGuarded,
}

-- What a motion needs besides the server: what is under the pointer of a server, the tray, the texts'
-- sizes, the pointer's constraints, and the layout.
pub record Input : Type 0 where
  pub metrics : Metrics
  pub constraints : Constraints
  pub tray : Option Tray
  pub scene : Server → Under
  pub inside : ℤ → ℤ → Bool

-- What may happen before the locker unlocks the session (`on_unlock` is what ends the lock): keys and buttons
-- are pressed and released, the pointer and its wheel move, the tip of a tablet's tool goes down and up;
-- windows come, go and change, by the client, by another program, by their decoration or by a binding;
-- layer surfaces come and go; a locker starts, dies, and its surfaces come and go. Each constructor names
-- the handler that runs, with the handler's arguments.
pub data Event : Type 0 where
  mapped unmapped activated : ℕ → Event
  minimize_requested foreign_minimize_requested : Bool → ℕ → Event
  state_requested : Bool → Bool → ℕ → Event
  snap_requested : SnapEdge → ℕ → Event
  action : String → String → ℕ → Event
  modifiers_changed : ℕ → Event
  layer_mapped : Bool → ℕ → Event
  layer_unmapped layer_destroyed : ℕ → Event
  lock_requested : ℕ → Event
  lock_destroyed : Event
  lock_surface_created : LockSurface → Event
  lock_surface_destroyed : ℕ → List LockSurface → Event
  lock_focus_ensured layout_changed : List LockSurface → Event
  window_created : ℕ → Event
  activation_requested : Option Surface → Option Token → Event
  key : List LockSurface → Bool → Bool → Shortcuts → Key → Event
  destroyed : ℕ → Event
  committed : Bool → ℕ → Event
  configured : Bool → Bool → ℕ → Event
  button : Commands → (ℕ → Taskbar) → Option Tray → Under → ℕ → Bool → ℕ → ℕ → Event
  axis : Commands → (ℕ → Taskbar) → Option Tray → Bool → Bool → Event
  deco_button : DecoNode → ℕ → ℕ → ℕ → Event
  motion : Input → (ℕ → Taskbar) → Option ℕ → ℤ → ℤ → Event
  tip : Input → Bool → Place → Tool → Event

-- `root` is that of Lifecycle.Requests, `to_lower` and `binds` those of Keyboard.
module _ (w : Wlroots) (atoi : String → ℤ) (root : Surface → Root) (to_lower : ℕ → ℕ)
    (binds : List Keybind) where
  -- The handler that wlroots calls on the event.
  unfoldable pub handle : Event → Server → Server
  handle (mapped v) s = handle_map w v s
  handle (unmapped v) s = handle_unmap w v s
  handle (activated v) s = foreign_request_activate w v s
  handle (minimize_requested b v) s = handle_request_minimize w b v s
  handle (foreign_minimize_requested b v) s = foreign_request_minimize w b v s
  handle (state_requested m f v) s = apply_state w m f v s
  handle (snap_requested edge v) s = snap_to w edge v s
  handle (action name arg mods) s = dispatch_action w atoi name arg mods s
  handle (modifiers_changed mods) s = handle_modifiers w mods s
  handle (layer_mapped interactive ls) s = Layer.on_map w interactive ls s
  handle (layer_unmapped ls) s = Layer.on_unmap w ls s
  handle (layer_destroyed ls) s = Layer.on_destroy ls s
  handle (lock_requested l) s = on_new_lock w l s
  handle lock_destroyed s = on_destroy_lock w s
  handle (lock_surface_created l) s = on_new_surface w l s
  handle (lock_surface_destroyed a ls) s = on_destroy_surface w a ls s
  handle (lock_focus_ensured ls) s = ensure_focus w ls s
  handle (layout_changed ls) s = update_geometry w ls s
  handle (window_created v) s = Requests.on_new v s
  handle (activation_requested target token) s = handle_activation_request w root target token s
  handle (key ls session menu_open is k) s =
      handle_key w atoi to_lower binds ls session menu_open is k s
  handle (destroyed v) s = handle_destroy w v s
  handle (committed b v) s = handle_commit b v s
  handle (configured m f v) s = initial_configure w m f v s
  handle (button c bars tray under mods pressed b time) s =
      on_cursor_button w c bars tray under mods pressed b time s
  handle (axis c bars tray vertical up) s = on_cursor_axis w c bars tray vertical up s
  handle (deco_button node b time v) s = (deco_handle_button w node b time v s).0
  handle (motion i bars active dx dy) s =
      let p : Pointing = record { srv = s; bars = bars; active_constraint = active } in
      (cursor_move_relative w i.metrics i.constraints i.scene i.tray dx dy p).srv
  handle (tip i is_down place tool) s =
      let t : Tool = record tool { pointing = record tool.pointing { srv = s } } in
      server_of (handle_tip w i.metrics i.constraints i.tray i.scene i.inside is_down place t)

  unfoldable pub run : List Event → Server → Server
  run [] s = s
  run (e ∷ es) s = run es (handle e s)

  handle_request_minimize-IsGuarded :
      (b : Bool) (v : ℕ) (s : Server)
      → s.locked ≡ true
      → IsGuarded s (handle_request_minimize w b v s)
  unfolding handle_request_minimize
  handle_request_minimize-IsGuarded true v s l =
      stopped_focus_next w (some v) s (minimize true v s) l (minimize-IsGuarded true v s)
  handle_request_minimize-IsGuarded false v s l = (refl, refl)

  foreign_request_minimize-IsGuarded :
      (b : Bool) (v : ℕ) (s : Server)
      → s.locked ≡ true
      → IsGuarded s (foreign_request_minimize w b v s)
  unfolding foreign_request_minimize
  foreign_request_minimize-IsGuarded true v s l =
      stopped_focus_next w (some v) s (minimize true v s) l (minimize-IsGuarded true v s)
  foreign_request_minimize-IsGuarded false v s l =
      stopped_focus w v s (minimize false v s) l (minimize-IsGuarded false v s)

  foreign_request_activate-IsGuarded :
      (v : ℕ) (s : Server) → s.locked ≡ true → IsGuarded s (foreign_request_activate w v s)
  unfolding foreign_request_activate
  foreign_request_activate-IsGuarded v s l =
      let there = (s.store v).workspace == s.current_workspace in
      stopped_focus w v s (if there then s else workspace_switch w (pos (s.store v).workspace) s) l
        (ground (arith, workspace_switch-IsGuarded w (pos (s.store v).workspace) s l))

  handle-IsGuarded : (e : Event) (s : Server) → s.locked ≡ true → IsGuarded s (handle e s)
  unfolding handle Layer.on_map Layer.on_destroy
  handle-IsGuarded (mapped v) s l = handle_map-IsGuarded w v s l
  handle-IsGuarded (unmapped v) s l = handle_unmap-IsGuarded w v s l
  handle-IsGuarded (activated v) s l = foreign_request_activate-IsGuarded v s l
  handle-IsGuarded (minimize_requested b v) s l = handle_request_minimize-IsGuarded b v s l
  handle-IsGuarded (foreign_minimize_requested b v) s l = foreign_request_minimize-IsGuarded b v s l
  handle-IsGuarded (state_requested m f v) s l = apply_state-IsGuarded w m f v s
  handle-IsGuarded (snap_requested edge v) s l = snap_to-IsGuarded w edge v s
  handle-IsGuarded (action name arg mods) s l = dispatch_action-IsGuarded w atoi name arg mods s l
  handle-IsGuarded (modifiers_changed mods) s l = handle_modifiers-IsGuarded w mods s l
  handle-IsGuarded (layer_mapped true ls) s l = focus_layer-IsGuarded w ls s l
  handle-IsGuarded (layer_mapped false ls) s l = (refl, refl)
  handle-IsGuarded (layer_unmapped ls) s l = on_unmap-IsGuarded w ls s l
  handle-IsGuarded (layer_destroyed ls) s l = (refl, refl)
  handle-IsGuarded (lock_requested a) s l = on_new_lock-IsGuarded w a s l
  handle-IsGuarded lock_destroyed s l = on_destroy_lock-IsGuarded w s
  handle-IsGuarded (lock_surface_created a) s l = on_new_surface-IsGuarded w a s
  handle-IsGuarded (lock_surface_destroyed a ls) s l = on_destroy_surface-IsGuarded w a ls s
  handle-IsGuarded (lock_focus_ensured ls) s l = ensure_focus-IsGuarded w ls s
  handle-IsGuarded (layout_changed ls) s l = update_geometry-IsGuarded w ls s
  handle-IsGuarded (window_created v) s l = on_new-IsGuarded v s
  handle-IsGuarded (activation_requested target token) s l =
      handle_activation_request-IsGuarded w root target token s l
  handle-IsGuarded (key ls session menu_open is k) s l =
      handle_key-IsGuarded w atoi to_lower binds ls session menu_open is k s l
  handle-IsGuarded (destroyed v) s l = handle_destroy-IsGuarded w v s
  handle-IsGuarded (committed b v) s l = handle_commit-IsGuarded b v s
  handle-IsGuarded (configured m f v) s l = initial_configure-IsGuarded w m f v s
  handle-IsGuarded (button c bars tray under mods pressed b time) s l =
      on_cursor_button-IsGuarded w c bars tray under mods pressed b time s l
  handle-IsGuarded (axis c bars tray vertical up) s l =
      on_cursor_axis-IsGuarded w c bars tray vertical up s
  handle-IsGuarded (deco_button node b time v) s l =
      deco_handle_button-IsGuarded w node b time v s l
  handle-IsGuarded (motion i bars active dx dy) s l =
      let p : Pointing = record { srv = s; bars = bars; active_constraint = active } in
      cursor_move_relative-IsGuarded w i.metrics i.constraints i.scene i.tray dx dy p l
  handle-IsGuarded (tip i is_down place tool) s l =
      let t : Tool = record tool { pointing = record tool.pointing { srv = s } } in
      handle_tip-IsGuarded w i.metrics i.constraints i.tray i.scene i.inside is_down place t l

  -- Whatever sequence of the modelled events reaches a locked session before the locker unlocks it, the
  -- session stays locked, and no surface other than a locker's is given the keyboard. The events are
  -- keys, buttons, the wheel and the motion of the pointer, the tip of a tool, bindings' actions, all
  -- that a client, another program or a decoration does to a window, activation requests, layer
  -- surfaces, and a locker with its surfaces.
  pub run-locked :
      (es : List Event) (s : Server)
      → s.locked ≡ true
      → ((run es s).locked ≡ true) × (client_calls (run es s).calls ≡ client_calls s.calls)
  unfolding run
  run-locked [] s l = (l, refl)
  run-locked (e ∷ es) s l =
      let g = handle-IsGuarded e s l in
      let rest = run-locked es (handle e s) (g.0 ∙ l) in (rest.0, rest.1 ∙ g.1)
