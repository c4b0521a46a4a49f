-- ===== src/Layer/Handback.antt =====
-- The keyboard when a layer surface maps and when it unmaps: src/layer.cc.
use mathlib.Core.Option
use steppewm.Base.{ℕ, true, false, none, some, List, ◌≡◌, refl, arith, find, ==_refl}
use steppewm.Wlr.{Call, Wlroots, toplevel, layer, keyboard_enter}
use steppewm.Wlr.Seat.{IsSeat}
use steppewm.State.{Server, emit}
use steppewm.View.{enter_keyboard, focus_next, is_candidate}
use steppewm.View.Next.{focus_next-focus, focus_next_keeps_layer}
use steppewm.Layer.{focus_layer, on_map, on_unmap}

module _ {w : Wlroots} (seat : IsSeat w)
    (keyboard : (cs : List Call) → w.has_keyboard cs ≡ true) where
  on_map-takes :
      (ls : ℕ) (s : Server)
      → s.locked ≡ false
      → on_map w true ls s ≡ record (emit (keyboard_enter (layer ls)) s) { focused_layer = some ls }
  unfolding on_map focus_layer enter_keyboard
  on_map-takes ls s u = rw (u, keyboard s.calls) refl

  on_unmap-hands :
      (ls : ℕ) (s : Server)
      → s.focused_layer ≡ some ls
      → on_unmap w ls s ≡ focus_next w none (record s { focused_layer = none })
  unfolding on_unmap
  on_unmap-hands ls s h = ground (arith, ==_refl ls)

  -- In an unlocked session a layer surface that asks for the keyboard gets it when it maps. When it
  -- unmaps then, no layer surface is focused, and the keyboard goes to the first mapped and shown window
  -- of the list, or to none if there is none. The seat is as documented and has a keyboard.
  pub on_unmap-on_map :
      (ls : ℕ) (s : Server)
      → s.locked ≡ false
      → let t = on_map w true ls s in
        let r = on_unmap w ls t in
        (w.focused_surface t.calls ≡ some (layer ls))
        × (r.focused_layer ≡ none)
        × (w.focused_surface r.calls ≡ Option.map toplevel (find (is_candidate s none) s.views))
  on_unmap-on_map ls s u =
      let t = record (emit (keyboard_enter (layer ls)) s) { focused_layer = some ls } in
      let t' = record t { focused_layer = none } in
      rw (on_map-takes ls s u, on_unmap-hands ls t refl)
        (
          seat.focused-enter (layer ls) s.calls,
          focus_next_keeps_layer w none t' refl,
          focus_next-focus w seat keyboard none t' u,
        )
