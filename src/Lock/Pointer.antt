-- ===== src/Lock/Pointer.antt =====
-- The pointer while the session is locked: its buttons, its wheel and its motion, of src/input.cc.
use Prim.Native.String.{String}
use steppewm.Base.{
  ℕ, ℤ, Bool, true, false, not, Option, none, some, ◌≡◌, refl, ◌∙◌, arith, if◌then◌else◌,
}
use steppewm.Wlr.{
  Wlroots, Surface, node_set_position, drag_icon_tree, tray_menu_hover, relative_motion,
  notify_activity, pointer_notify_button,
}
use steppewm.State.{Server, CursorMode, move, resize, passthrough, unsnapped, emit}
use steppewm.Window.{toggle_maximize}
use steppewm.Lifecycle.{release_grab}
use steppewm.Snap.{detect_snap, SnapDetect}
use steppewm.Grab.{
  to_pixels, process_cursor_resize, show_snap_indicator, hide_snap_indicator, show_preview,
  unmaximize_to_cursor, start_drag, drag_window, process_cursor_move, snap_dropped, drop_window,
  release_button,
}
use steppewm.Taskbar.{Taskbar, Metrics}
use steppewm.Pointer.{Under, Tray, Commands, Pointing}
use steppewm.Pointer.Press.{
  menu_is_open, press_menu, menu_item_of, press_button, on_cursor_button, run_wheel, on_cursor_axis,
}
use steppewm.Pointer.Motion.{
  Constraints, enter_surface, leave_surfaces, point_locked, pass_motion, process_cursor_motion,
  cursor_move_relative, step_cursor, confined, holding,
}
use steppewm.Lock.Guarded.{IsGuarded, IsGuarded-trans}
use steppewm.Lock.Windows.{snap_to-IsGuarded, apply_state-IsGuarded}

show_preview-IsGuarded : (d : SnapDetect) (s : Server) → IsGuarded s (show_preview d s)
unfolding show_preview show_snap_indicator hide_snap_indicator
show_preview-IsGuarded d s = ground arith

press_menu-IsGuarded :
    (i : Option ℕ) (button : ℕ) (s : Server) → IsGuarded s (press_menu i button s)
unfolding press_menu
press_menu-IsGuarded none button s = (refl, refl)
press_menu-IsGuarded (some i) button s = ground arith

-- The branch that a test leads to.
taken :
    (b : Bool) (x y : Pointing) (s : Server)
    → b ≡ true
    → IsGuarded s x.srv
    → IsGuarded s (if b then x else y).srv
taken true x y s h g = g
taken false x y s h g = ground arith

module _ (w : Wlroots) where
  snap_dropped-IsGuarded :
      (d : SnapDetect) (v : ℕ) (s : Server) → IsGuarded s (snap_dropped w d v s)
  unfolding snap_dropped toggle_maximize
  snap_dropped-IsGuarded d v s = ground (
    arith,
    apply_state-IsGuarded w (not (s.store v).maximized) (s.store v).fullscreen v s,
    snap_to-IsGuarded w d.edge v s,
  )

  drop_window-IsGuarded :
      (m : CursorMode) (v : Option ℕ) (s : Server) → IsGuarded s (drop_window w m v s)
  unfolding drop_window
  drop_window-IsGuarded move (some v) s =
      ground (arith, snap_dropped-IsGuarded (detect_snap w s) v s)
  drop_window-IsGuarded move none s = (refl, refl)
  drop_window-IsGuarded resize v s = (refl, refl)
  drop_window-IsGuarded passthrough v s = (refl, refl)

  release_button-IsGuarded : (s : Server) → IsGuarded s (release_button w s)
  unfolding release_button hide_snap_indicator
  release_button-IsGuarded s =
      drop_window-IsGuarded s.grab.mode s.grab.grabbed_view
        (hide_snap_indicator (record s { grab = release_grab s.grab }))

  unmaximize_to_cursor-IsGuarded : (v : ℕ) (s : Server) → IsGuarded s (unmaximize_to_cursor w v s)
  unfolding unmaximize_to_cursor
  unmaximize_to_cursor-IsGuarded v s =
      ground (arith, snap_to-IsGuarded w unsnapped v s, apply_state-IsGuarded w false false v s)

  drag_window-IsGuarded : (v : ℕ) (s : Server) → IsGuarded s (drag_window w v s)
  unfolding drag_window
  drag_window-IsGuarded v s = show_preview-IsGuarded _ _

  process_cursor_move-IsGuarded : (v : ℕ) (s : Server) → IsGuarded s (process_cursor_move w v s)
  unfolding process_cursor_move start_drag
  process_cursor_move-IsGuarded v s =
      let s1 = start_drag w v s in
      let g = unmaximize_to_cursor-IsGuarded v s in
      ground (
        arith,
        drag_window-IsGuarded v s,
        IsGuarded-trans s s1 (drag_window w v s1) g (drag_window-IsGuarded v s1),
      )

  process_cursor_resize-IsGuarded : (v : ℕ) (s : Server) → IsGuarded s (process_cursor_resize v s)
  unfolding process_cursor_resize
  process_cursor_resize-IsGuarded v s = (refl, refl)

  module _ (m : Metrics) (k : Constraints) where
    point_locked-IsGuarded :
        (x : Option Surface) (s : Server) → IsGuarded s (point_locked w m k x s)
    unfolding point_locked enter_surface leave_surfaces
    point_locked-IsGuarded none s = (refl, refl)
    point_locked-IsGuarded (some x) s = (refl, refl)

    -- The menu of the tray hears of the motion first.
    after_menu :
        (open_menu : Bool) (x : Option Surface) (p : Pointing)
        → let q : Pointing =
            if open_menu then record p { srv = emit tray_menu_hover p.srv } else p in
          (q.srv.locked ≡ p.srv.locked) × IsGuarded p.srv (point_locked w m k x q.srv)
    after_menu true x p = (refl, point_locked-IsGuarded x (emit tray_menu_hover p.srv))
    after_menu false x p = (refl, point_locked-IsGuarded x p.srv)

    pass_motion-IsGuarded :
        (tray : Option Tray) (under : Under) (p : Pointing)
        → p.srv.locked ≡ true
        → IsGuarded p.srv (pass_motion w m k tray under p).srv
    unfolding pass_motion
    pass_motion-IsGuarded tray under p l =
        let (same, g) = after_menu (menu_is_open tray) under.surface p in
        taken _ _ _ p.srv (same ∙ l) g

    -- A motion with and without a grabbed window, and by the mode of the grab.
    by_view :
        (held : Option ℕ) (f : ℕ → Server → Server) (s : Server)
        → ((v : ℕ) → IsGuarded s (f v s))
        → let r : Server = elim held [ none ↦ s | some v ↦ f v s ] in IsGuarded s r
    by_view none f s g = (refl, refl)
    by_view (some v) f s g = g v

    by_mode :
        (mode : CursorMode) (x y z : Pointing) (s : Server)
        → IsGuarded s x.srv
        → IsGuarded s y.srv
        → IsGuarded s z.srv
        → let r : Pointing = elim mode [ move ↦ x | resize ↦ y | passthrough ↦ z ] in
          IsGuarded s r.srv
    by_mode move x y z s gx gy gz = gx
    by_mode resize x y z s gx gy gz = gy
    by_mode passthrough x y z s gx gy gz = gz

    pub process_cursor_motion-IsGuarded :
        (tray : Option Tray) (under : Under) (p : Pointing)
        → p.srv.locked ≡ true
        → IsGuarded p.srv (process_cursor_motion w m k tray under p).srv
    unfolding process_cursor_motion
    process_cursor_motion-IsGuarded tray under p l =
        let s =
          emit
            (node_set_position drag_icon_tree (to_pixels p.srv.cursor_x) (to_pixels p.srv.cursor_y))
            p.srv in
        by_mode s.grab.mode _ _ _ p.srv
          (by_view s.grab.grabbed_view (process_cursor_move w) s
            (λ v. process_cursor_move-IsGuarded v s))
          (by_view s.grab.grabbed_view process_cursor_resize s
            (λ v. process_cursor_resize-IsGuarded v s))
          (pass_motion-IsGuarded tray under (record p { srv = s }) l)

    pub cursor_move_relative-IsGuarded :
        (scene : Server → Under) (tray : Option Tray) (dx dy : ℤ) (p : Pointing)
        → p.srv.locked ≡ true
        → IsGuarded p.srv (cursor_move_relative w m k scene tray dx dy p).srv
    unfolding cursor_move_relative step_cursor
    cursor_move_relative-IsGuarded scene tray dx dy p l =
        let p1 : Pointing = record p {
          srv = emit (relative_motion dx dy) (emit notify_activity p.srv);
        } in
        let held = holding w m k p1 in
        let s = step_cursor w m k (confined w m k held dx dy p1.srv) p1.srv in
        ground (arith, process_cursor_motion-IsGuarded tray (scene s) (record p1 { srv = s }) l)

  module _ (c : Commands) (bars : ℕ → Taskbar) (tray : Option Tray) where
    press_button-IsGuarded :
        (under : Under) (mods button time : ℕ) (s : Server)
        → s.locked ≡ true
        → IsGuarded s (press_button w c bars tray under mods button time s)
    unfolding press_button
    press_button-IsGuarded under mods button time s l =
        ground (arith, press_menu-IsGuarded (menu_item_of tray) button s)

    pub on_cursor_button-IsGuarded :
        (under : Under) (mods : ℕ) (pressed : Bool) (button time : ℕ) (s : Server)
        → s.locked ≡ true
        → IsGuarded s (on_cursor_button w c bars tray under mods pressed button time s)
    unfolding on_cursor_button
    on_cursor_button-IsGuarded under mods pressed button time s l =
        let s1 = emit (pointer_notify_button button pressed) (emit notify_activity s) in
        ground
          (arith, press_button-IsGuarded under mods button time s1 l, release_button-IsGuarded s1)

    run_wheel-IsGuarded :
        (cmd : Option String) (s : Server) → IsGuarded s (run_wheel w c bars tray cmd s)
    unfolding run_wheel
    run_wheel-IsGuarded none s = (refl, refl)
    run_wheel-IsGuarded (some cmd) s = ground arith

    pub on_cursor_axis-IsGuarded :
        (vertical up : Bool) (s : Server) → IsGuarded s (on_cursor_axis w c bars tray vertical up s)
    unfolding on_cursor_axis
    on_cursor_axis-IsGuarded vertical up s = run_wheel-IsGuarded _ (emit notify_activity s)
