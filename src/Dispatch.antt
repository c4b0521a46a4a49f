-- ===== src/Dispatch.antt =====
-- The actions of key and switch bindings: `server::dispatch_action`, `server::handle_keybinding`, the
-- binding part of `keyboard::handle_key` and `switch_device::handle_toggle` (src/input.cc). `atoi` and `xkb_keysym_to_lower` are
-- parameters; whether the focused surface inhibits shortcuts is an argument, since wlroots keeps it.
use Prim.Native.String.{String}
use text.Mathlib.Text.{◌==◌ as str_eq}
use steppewm.Base.{
  ℕ, ℤ, pos, ◌-ℤ◌, Bool, true, false, not, ◌&&◌, ◌||◌, Option, none, some, List, [], ◌∷◌, ◌==◌,
  if◌then◌else◌,
}
use steppewm.Wlr.{
  Wlroots, Surface, toplevel, display_terminate, reload_config, spawn, toplevel_send_close,
}
use steppewm.State.{
  View, Server, left, right, top_left, top_right, bottom_left, bottom_right, emit, modify,
  refresh_taskbars,
}
use steppewm.Switcher.{cycle}
use steppewm.View.{bool_eq, minimize, focus_next}
use steppewm.Window.{snap_to, toggle_maximize, toggle_fullscreen}
use steppewm.Workspace.{workspace_switch, move_to_workspace}

-- `keybind` and `switchbind` (src/config.h); `kind` and `on` are the switch's type and state.
pub record Keybind : Type 0 where
  pub modifiers : ℕ
  pub sym : ℕ
  pub action : String
  pub arg : String

pub record Switchbind : Type 0 where
  pub kind : ℕ
  pub state_on : Bool
  pub action : String
  pub arg : String

-- `server::focused_view`: a toplevel's window, if it still has one.
unfoldable pub window_of : (ℕ → View) → Option Surface → Option ℕ
window_of st (some (toplevel v)) = if (st v).has_data then some v else none
window_of st _ = none

-- The action "pin".
unfoldable pub toggle_pin : ℕ → Server → Server
toggle_pin v s =
    let s1 = modify v (λ o. record o { pinned = not o.pinned }) s in
    refresh_taskbars (
      if (s1.store v).pinned
      then s1
      else modify v (λ o. record o { workspace = s.current_workspace }) s1)

module _ (w : Wlroots) (atoi : String → ℤ) where
  unfoldable pub focused_view : Server → Option ℕ
  focused_view s = window_of s.store (w.focused_surface s.calls)

  -- The actions on the focused window.
  unfoldable pub window_action : String → ℕ → Server → Server
  window_action action v s =
      if str_eq action "minimize"
      then focus_next w (some v) (minimize true v s)
      else if str_eq action "maximize"
      then toggle_maximize w v s
      else if str_eq action "fullscreen"
      then toggle_fullscreen w v s
      else if str_eq action "close"
      then emit (toplevel_send_close v) s
      else if str_eq action "snap_left"
      then snap_to w left v s
      else if str_eq action "snap_right"
      then snap_to w right v s
      else if str_eq action "snap_top_left"
      then snap_to w top_left v s
      else if str_eq action "snap_top_right"
      then snap_to w top_right v s
      else if str_eq action "snap_bottom_left"
      then snap_to w bottom_left v s
      else if str_eq action "snap_bottom_right"
      then snap_to w bottom_right v s
      else if str_eq action "pin"
      then toggle_pin v s
      else s

  unfoldable pub on_focused : (ℕ → Server → Server) → Server → Server
  on_focused f s = elim (focused_view s) [ none ↦ s | some v ↦ f v s ]

  -- `server::dispatch_action`; an argument that is null or empty is "".
  unfoldable pub dispatch_action : String → String → ℕ → Server → Server
  dispatch_action action arg mods s =
      let has_arg = not (str_eq arg "") in
      if str_eq action "quit"
      then emit display_terminate s
      else if str_eq action "focus_next"
      then cycle mods false s
      else if str_eq action "focus_prev"
      then cycle mods true s
      else if str_eq action "spawn"
      then (if has_arg then emit (spawn arg) s else s)
      else if str_eq action "reload"
      then emit reload_config s
      else if str_eq action "workspace"
      then (if has_arg then workspace_switch w (atoi arg -ℤ pos 1) s else s)
      else if str_eq action "move_to_workspace"
      then on_focused (λ v s. if has_arg then move_to_workspace w (atoi arg -ℤ pos 1) v s else s) s
      else on_focused (window_action action) s

  -- The loop of `server::handle_keybinding`, for a symbol already made lower-case: the first binding
  -- that fits runs.
  unfoldable pub run_binding : ℕ → ℕ → List Keybind → Server → Server × Bool
  run_binding mods lower [] s = (s, false)
  run_binding mods lower (b ∷ bs) s =
      let rest = run_binding mods lower bs s in
      if b.modifiers == mods && b.sym == lower
      then (dispatch_action b.action b.arg b.modifiers s, true)
      else rest

  module _ (to_lower : ℕ → ℕ) (binds : List Keybind) where
    -- `server::handle_keybinding`.
    unfoldable pub handle_keybinding : ℕ → ℕ → Server → Server × Bool
    handle_keybinding mods sym s = run_binding mods (to_lower sym) binds s

    -- The loops over the symbols of a key: `handled = handle_keybinding(…) || handled`.
    unfoldable pub run_syms : ℕ → List ℕ → Server × Bool → Server × Bool
    run_syms mods [] r = r
    run_syms mods (sym ∷ syms) (s, handled) =
        let (s', now) = handle_keybinding mods sym s in run_syms mods syms (s', now || handled)

    -- The bindings of `keyboard::handle_key`: none while the session is locked or shortcuts are
    -- inhibited; the symbols of the unshifted level are tried if the others did nothing.
    unfoldable pub run_key : Bool → ℕ → List ℕ → List ℕ → Server → Server × Bool
    run_key inhibited mods syms raw_syms s =
        let first = run_syms mods syms (s, false) in
        if s.locked || inhibited
        then (s, false)
        else if first.1
        then first
        else run_syms mods raw_syms first

  -- The loop of `switch_device::handle_toggle`: every binding that fits runs.
  unfoldable pub run_switchbinds : ℕ → Bool → List Switchbind → Server → Server
  run_switchbinds kind on [] s = s
  run_switchbinds kind on (b ∷ bs) s =
      run_switchbinds kind on bs
        (if b.kind == kind && bool_eq b.state_on on then dispatch_action b.action b.arg 0 s else s)
