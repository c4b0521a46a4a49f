-- ===== src/Lock/Decos.antt =====
-- Clicks on decorations, and what a client does to its windows, while the session is locked: src/deco.cc
-- and src/view.cc.
use steppewm.Base.{ℕ, Bool, true, false, not, Option, none, some, ◌≡◌, refl, arith, ◌==◌}
use steppewm.Wlr.{Wlroots}
use steppewm.State.{Server, DecoMode, modify, CursorMode, move, resize, passthrough}
use steppewm.View.{minimize}
use steppewm.Window.{toggle_maximize}
use steppewm.Lifecycle.{
  handle_destroy, clear_grab, clear_click, clear_keyboard, clear_pointer, destroy_handles,
  initial_configure, apply_pending_deco, handle_commit,
}
use steppewm.Grab.{cursor_begin_interactive, begin_move, begin_resize}
use steppewm.Deco.{
  DecoNode, btn_left, close_button, maximize_button, minimize_button, titlebar, click_titlebar,
  click_edge, click_node, click_decoration, deco_handle_button, dragged_edges,
}
use steppewm.Lock.Guarded.{IsGuarded, stopped_focus_next, minimize-IsGuarded}
use steppewm.Lock.Windows.{apply_state-IsGuarded}

cursor_begin_interactive-IsGuarded :
    (m : CursorMode) (edges v : ℕ) (s : Server) → IsGuarded s (cursor_begin_interactive m edges v s)
unfolding cursor_begin_interactive begin_move begin_resize
cursor_begin_interactive-IsGuarded move edges v s = (refl, refl)
cursor_begin_interactive-IsGuarded resize edges v s = (refl, refl)
cursor_begin_interactive-IsGuarded passthrough edges v s = (refl, refl)

pub handle_commit-IsGuarded : (b : Bool) (v : ℕ) (s : Server) → IsGuarded s (handle_commit b v s)
unfolding handle_commit apply_pending_deco
handle_commit-IsGuarded b v s = ground arith

module _ (w : Wlroots) where
  click_titlebar-IsGuarded :
      (left : Bool) (time v : ℕ) (s : Server) → IsGuarded s (click_titlebar w left time v s)
  unfolding click_titlebar toggle_maximize cursor_begin_interactive begin_move
  click_titlebar-IsGuarded left time v s =
      ground (arith, apply_state-IsGuarded w (not (s.store v).maximized) (s.store v).fullscreen v s)

  click_edge-IsGuarded :
      (edges : Option ℕ) (v : ℕ) (s : Server) → IsGuarded s (click_edge w edges v s).0
  unfolding click_edge
  click_edge-IsGuarded none v s = (refl, refl)
  click_edge-IsGuarded (some edges) v s =
      cursor_begin_interactive-IsGuarded CursorMode.resize edges v s

  click_node-IsGuarded :
      (node : DecoNode) (left : Bool) (time v : ℕ) (s : Server)
      → s.locked ≡ true
      → IsGuarded s (click_node w node left time v s).0
  unfolding click_node toggle_maximize
  click_node-IsGuarded close_button left time v s l = ground arith
  click_node-IsGuarded maximize_button left time v s l =
      ground (arith, apply_state-IsGuarded w (not (s.store v).maximized) (s.store v).fullscreen v s)
  click_node-IsGuarded minimize_button left time v s l =
      ground
        (arith, stopped_focus_next w (some v) s (minimize true v s) l (minimize-IsGuarded true v s))
  click_node-IsGuarded titlebar left time v s l = click_titlebar-IsGuarded left time v s
  click_node-IsGuarded node left time v s l = click_edge-IsGuarded (dragged_edges node) v s

  click_decoration-IsGuarded :
      (mode : DecoMode) (node : DecoNode) (left : Bool) (time v : ℕ) (s : Server)
      → s.locked ≡ true
      → IsGuarded s (click_decoration w mode node left time v s).0
  unfolding click_decoration
  click_decoration-IsGuarded DecoMode.server node left time v s l =
      click_node-IsGuarded node left time v s l
  click_decoration-IsGuarded DecoMode.client node left time v s l = (refl, refl)

  pub deco_handle_button-IsGuarded :
      (node : DecoNode) (button time v : ℕ) (s : Server)
      → s.locked ≡ true
      → IsGuarded s (deco_handle_button w node button time v s).0
  unfolding deco_handle_button
  deco_handle_button-IsGuarded node button time v s l =
      click_decoration-IsGuarded (s.store v).decoration_mode node (button == btn_left) time v s l

  pub handle_destroy-IsGuarded : (v : ℕ) (s : Server) → IsGuarded s (handle_destroy w v s)
  unfolding handle_destroy clear_grab clear_click clear_keyboard clear_pointer destroy_handles
  handle_destroy-IsGuarded v s = ground arith

  pub initial_configure-IsGuarded :
      (m f : Bool) (v : ℕ) (s : Server) → IsGuarded s (initial_configure w m f v s)
  unfolding initial_configure apply_pending_deco
  initial_configure-IsGuarded m f v s =
      let s1 = modify v (λ o. record o { initial_configure_idle = false }) s in
      ground (arith, apply_state-IsGuarded w m f v (apply_pending_deco v s1))
