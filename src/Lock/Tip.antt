-- ===== src/Lock/Tip.antt =====
-- The tip of a tablet's tool while the session is locked: `tablet_tool::handle_tip` of src/tablet.cc.
use steppewm.Base.{ℕ, ℤ, Bool, true, false, Option, none, some, ◌≡◌, refl, ◌∙◌, arith}
use steppewm.Wlr.{
  Wlroots, Surface, pointer_notify_button, tablet_notify, tool_down, tool_up, ToolEvent,
}
use steppewm.State.{Server, emit}
use steppewm.View.{focus_surface}
use steppewm.Deco.{btn_left}
use steppewm.Taskbar.{Metrics}
use steppewm.Pointer.{Under, Tray, Pointing}
use steppewm.Pointer.Motion.{Constraints}
use steppewm.Tablet.{
  Place, Tool, on_server, notify, map_to_layout, warp_cursor, move_to, focus_under, press_tip,
  tip_on, handle_tip,
}
use steppewm.Lock.Guarded.{IsGuarded, IsGuarded-trans}
use steppewm.Lock.Pointer.{process_cursor_motion-IsGuarded}

-- The server that a tool leaves.
abbrev pub server_of : Tool → Server
server_of t = t.pointing.srv

-- With a tool of the protocol, or without one.
by_tool :
    (tool : Option ℕ) (x : Tool) (f : ℕ → Tool) (s : Server)
    → IsGuarded s (server_of x)
    → ((v2 : ℕ) → IsGuarded s (server_of (f v2)))
    → let r : Tool = elim tool [ none ↦ x | some v2 ↦ f v2 ] in IsGuarded s (server_of r)
by_tool none x f s g h = g
by_tool (some v2) x f s g h = h v2

notify-IsGuarded : (e : ToolEvent) (t : Tool) → IsGuarded (server_of t) (server_of (notify e t))
notify-IsGuarded e t =
    by_tool t.tool_v2 t (λ v2. on_server (emit (tablet_notify v2 e)) t) (server_of t) (refl, refl)
      (λ v2. (refl, refl))

module _ (w : Wlroots) (m : Metrics) (k : Constraints) (tray : Option Tray) (scene : Server → Under)
    (inside : ℤ → ℤ → Bool) where
  warp_cursor-IsGuarded :
      (at : ℤ × ℤ) (s : Server) → IsGuarded s (warp_cursor w m k tray scene inside at s)
  unfolding warp_cursor
  warp_cursor-IsGuarded (x, y) s = ground arith

  move_to-IsGuarded :
      (place : Place) (t : Tool)
      → (server_of t).locked ≡ true
      → IsGuarded (server_of t) (server_of (move_to w m k tray scene inside place t))
  unfolding move_to
  move_to-IsGuarded place t l =
      let p = t.pointing in
      let at = map_to_layout w m k tray scene inside place p.srv in
      let s = warp_cursor w m k tray scene inside at p.srv in
      let g = warp_cursor-IsGuarded at p.srv in
      let p1 : Pointing = record p { srv = s } in
      IsGuarded-trans p.srv s (server_of (move_to w m k tray scene inside place t)) g
        (process_cursor_motion-IsGuarded w m k tray (scene s) p1 (g.0 ∙ l))

  -- The lock stops the focus of what is under the tip.
  focus_under-locked :
      (v : Option ℕ) (x : Option Surface) (s : Server)
      → s.locked ≡ true
      → focus_under w m k tray scene inside v x s ≡ s
  unfolding focus_under focus_surface
  focus_under-locked none x s l = refl
  focus_under-locked (some v) none s l = refl
  focus_under-locked (some v) (some x) s l = ground arith

  press_tip-IsGuarded :
      (under : Under) (s : Server)
      → s.locked ≡ true
      → IsGuarded s (press_tip w m k tray scene inside under s)
  unfolding press_tip
  press_tip-IsGuarded under s l = rw (focus_under-locked under.view under.surface s l) (refl, refl)

  tip_on-IsGuarded :
      (is_down : Bool) (t : Tool)
      → (server_of t).locked ≡ true
      → IsGuarded (server_of t) (server_of (tip_on w m k tray scene inside is_down t))
  unfolding tip_on
  tip_on-IsGuarded true t l =
      let s = press_tip w m k tray scene inside (scene (server_of t)) (server_of t) in
      let down : Tool = on_server (λ r. s) t in
      IsGuarded-trans (server_of t) s (server_of (notify tool_down down))
        (press_tip-IsGuarded (scene (server_of t)) (server_of t) l)
        (notify-IsGuarded tool_down down)
  tip_on-IsGuarded false t l =
      let up : Tool = on_server (emit (pointer_notify_button btn_left false)) t in
      notify-IsGuarded tool_up up

  pub handle_tip-IsGuarded :
      (is_down : Bool) (place : Place) (t : Tool)
      → (server_of t).locked ≡ true
      → IsGuarded (server_of t) (server_of (handle_tip w m k tray scene inside is_down place t))
  unfolding handle_tip
  handle_tip-IsGuarded is_down place t l =
      let t1 = move_to w m k tray scene inside place t in
      let g = move_to-IsGuarded place t l in
      by_tool t1.tool_v2 t1 (λ v2. tip_on w m k tray scene inside is_down t1) (server_of t) g
        (λ v2.
          IsGuarded-trans (server_of t) (server_of t1)
            (server_of (tip_on w m k tray scene inside is_down t1)) g
            (tip_on-IsGuarded is_down t1 (g.0 ∙ l)))
