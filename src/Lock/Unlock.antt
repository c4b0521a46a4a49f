-- ===== src/Lock/Unlock.antt =====
-- The locker unlocks the session: src/lock.cc.
use mathlib.Core.Option
use steppewm.Base.{true, false, none, List, ◌≡◌, refl, find}
use steppewm.Wlr.{Call, Wlroots, toplevel, node_set_enabled, lock_tree}
use steppewm.Wlr.Seat.{IsSeat}
use steppewm.State.{Server, emit}
use steppewm.View.{is_candidate}
use steppewm.View.Next.{focus_next-focus, focus_next_keeps_locked}
use steppewm.Lock.{on_unlock}

module _ {w : Wlroots} (seat : IsSeat w)
    (keyboard : (cs : List Call) → w.has_keyboard cs ≡ true) where
  -- Unlocking ends the lock and gives the keyboard to the first mapped and shown window of the list, or
  -- to none if there is none. The seat is as documented and has a keyboard.
  on_unlock-focus :
      (s : Server)
      → let r = on_unlock w s in
        (r.locked ≡ false)
        × (w.focused_surface r.calls ≡ Option.map toplevel (find (is_candidate s none) s.views))
  unfolding on_unlock
  on_unlock-focus s =
      let t = emit (node_set_enabled lock_tree false) (record s { locked = false }) in
      (focus_next_keeps_locked w none t, focus_next-focus w seat keyboard none t refl)
