-- ===== src/Switcher/Commit.antt =====
-- The end of a cycle: `switcher::handle_modifiers` of src/switcher.cc.
use Prim.Native.Nat.{bit_and}
use steppewm.Base.{
  ℕ, true, false, Option, none, some, List, ◌≡◌, arith, ◌==◌, if◌then◌else◌, get_elem?,
}
use steppewm.Wlr.{Call, toplevel, Wlroots}
use steppewm.Wlr.Seat.{IsSeat}
use steppewm.State.{Server, Switcher}
use steppewm.Idle.{update_idle}
use steppewm.Switcher.{close}
use steppewm.View.{
  update_visibility, minimize, set_urgent, restore_window, activate, raise_overlays, enter_keyboard,
  take_focus, refocus, focus_surface, focus,
}
use steppewm.View.Focus.{focus_lem}

module _ (w : Wlroots) where
  -- The overlay goes and the highlighted window is focused. A highlight out of range, which the source
  -- excludes, focuses none here.
  unfoldable pub commit : Option ℕ → Server → Server
  commit none s = close s
  commit (some v) s = focus w v (close s)

  unfoldable pub handle_released : Switcher → ℕ → Server → Server
  handle_released sw mods s =
      if bit_and mods sw.mods == 0 then commit (get_elem? sw.views sw.selected) s else s

  -- `switcher::handle_modifiers`.
  unfoldable pub handle_modifiers : ℕ → Server → Server
  handle_modifiers mods s = elim s.sw [ none ↦ s | some sw ↦ handle_released sw mods s ]

  focus_keeps_sw : (v : ℕ) (s : Server) → (focus w v s).sw ≡ s.sw
  unfolding focus focus_surface refocus restore_window minimize set_urgent update_visibility
      update_idle take_focus activate raise_overlays enter_keyboard
  focus_keeps_sw v s = ground arith

  -- Once all modifiers of the cycle are released, the open switcher closes and the highlighted window
  -- gets the keyboard. The window is mapped, the session is not locked, and the seat is as documented and has a keyboard.
  pub handle_modifiers-focus :
      (seat : IsSeat w) (keyboard : (cs : List Call) → w.has_keyboard cs ≡ true) (sw : Switcher)
      (v mods : ℕ) (s : Server)
      → s.sw ≡ some sw
      → get_elem? sw.views sw.selected ≡ some v
      → bit_and mods sw.mods ≡ 0
      → (s.store v).mapped ≡ true
      → s.locked ≡ false
      → let r = handle_modifiers mods s in
        (r.sw ≡ none) × (w.focused_surface r.calls ≡ some (toplevel v))
  unfolding handle_modifiers handle_released commit
  handle_modifiers-focus seat keyboard sw v mods s e g released m u =
      rw (e, handle_modifiers, handle_released, released, g, commit)
        (focus_keeps_sw v (close s), (focus_lem w seat keyboard v (close s) m u).0)
