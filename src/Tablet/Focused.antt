-- ===== src/Tablet/Focused.antt =====
-- What a tap with the tool of a tablet does to the keyboard: `tablet_tool::handle_tip` of src/tablet.cc.
use steppewm.Base.{ℕ, ℤ, Bool, true, false, Option, some, List, ◌≡◌, refl, ◌∙◌}
use steppewm.Wlr.{Wlroots, Call, toplevel}
use steppewm.Wlr.Seat.{IsSeat}
use steppewm.State.{Server}
use steppewm.View.{focus}
use steppewm.View.Focus.{focus_lem}
use steppewm.Taskbar.{Metrics}
use steppewm.Pointer.{Under, Tray}
use steppewm.Pointer.Motion.{Constraints}
use steppewm.Tablet.{Place, Tool, move_to, press_tip, focus_under, tip_on, handle_tip}

module _ (w : Wlroots) (m : Metrics) (k : Constraints) (tray : Option Tray) (scene : Server → Under)
    (inside : ℤ → ℤ → Bool) (seat : IsSeat w)
    (keyboard : (cs : List Call) → w.has_keyboard cs ≡ true) where
  press_tip-focus :
      (under : Under) (v : ℕ) (s : Server)
      → under.view ≡ some v
      → under.surface ≡ some (toplevel v)
      → (s.store v).mapped ≡ true
      → s.locked ≡ false
      → w.focused_surface (press_tip w m k tray scene inside under s).calls ≡ some (toplevel v)
  unfolding press_tip focus_under focus
  press_tip-focus under v s is_view is_surface mapped free =
      seat.focused-other _ _ refl
      ∙ seat.focused-other _ _ refl
      ∙ seat.focused-other _ _ refl
      ∙ rw (is_view, is_surface, focus_under) ((focus_lem w seat keyboard v s mapped free).0)

  -- The tool, near the tablet, taps on the surface of a mapped window of an unlocked session, after the pointer
  -- has moved there: the window gets the keyboard. The seat is as documented and has a keyboard.
  pub handle_tip-focus :
      (place : Place) (t : Tool) (v2 v : ℕ)
      → let t1 = move_to w m k tray scene inside place t in
        let s = t1.pointing.srv in
        t1.tool_v2 ≡ some v2
        → (scene s).view ≡ some v
        → (scene s).surface ≡ some (toplevel v)
        → (s.store v).mapped ≡ true
        → s.locked ≡ false
        → w.focused_surface (handle_tip w m k tray scene inside true place t).pointing.srv.calls
          ≡ some (toplevel v)
  unfolding handle_tip tip_on
  handle_tip-focus place t v2 v near is_view is_surface mapped free =
      let t1 = move_to w m k tray scene inside place t in
      rw (near, handle_tip, near, tip_on)
        (seat.focused-other _ _ refl
          ∙ press_tip-focus (scene t1.pointing.srv) v t1.pointing.srv is_view is_surface mapped
              free)
