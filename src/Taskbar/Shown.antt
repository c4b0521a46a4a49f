-- ===== src/Taskbar/Shown.antt =====
-- Which windows the task row shows, and how often: `taskbar::layout` (src/taskbar.cc).
use Prim.Native.String.{String}
use steppewm.Base.{
  ℕ, suc, ℤ, ◌+◌, ◌+ℤ◌, Bool, true, not, ◌&&◌, List, [], ◌∷◌, ◌++◌, ◌==◌, if◌then◌else◌, ◌≡◌, refl,
  arith, points_to, is_some,
}
use steppewm.Wlr.{Wlroots}
use steppewm.State.{View, Config, Server}
use steppewm.Taskbar.{Button, Slot, Taskbar, Metrics}
use steppewm.Taskbar.Rows.{at_least_1, inner_h, row_button_w, place_slots, layout}
use steppewm.Taskbar.Frame.{IsVisible, layout-slots, labelled, row_left}
use steppewm.Taskbar.Slots.{
  Claim, new_slot, claim, claim_pins, in_row, unclaimed_slots, unclaimed, fill_slots,
}

abbrev pub one_if : Bool → ℕ
one_if b = if b then 1 else 0

-- How many slots hold the window, and how many buttons.
abbrev pub shown : ℕ → List Slot → ℕ
shown v [] = 0
shown v (s ∷ ss) = one_if (points_to s.v v) + shown v ss

abbrev pub held : ℕ → List Button → ℕ
held v [] = 0
held v (b ∷ bs) = one_if (b.v == v) + held v bs

-- How many buttons of the window no pinned app has claimed.
abbrev unmatched : ℕ → List Claim → ℕ
unmatched v [] = 0
unmatched v (c ∷ cs) = one_if (not c.claimed && (c.button.v == v)) + unmatched v cs

unmatched-unclaimed : (v : ℕ) (bs : List Button) → unmatched v (unclaimed bs) ≡ held v bs
unfolding unclaimed
unmatched-unclaimed v [] = refl
unmatched-unclaimed v (b ∷ bs) = ground (arith, unmatched-unclaimed v bs)

unmatched-claim :
    (v : ℕ) (app : String) (cs : List Claim)
    → one_if (points_to (claim app cs).0 v) + unmatched v (claim app cs).1 ≡ unmatched v cs
unfolding claim
unmatched-claim v app [] = refl
unmatched-claim v app (c ∷ cs) = ground (arith, unmatched-claim v app cs)

shown-claim_pins :
    (v i : ℕ) (apps : List String) (cs : List Claim)
    → shown v (claim_pins i apps cs).0 + unmatched v (claim_pins i apps cs).1 ≡ unmatched v cs
unfolding claim_pins new_slot
shown-claim_pins v i [] cs = omega arith
shown-claim_pins v i (app ∷ apps) cs =
    omega (arith, unmatched-claim v app cs, shown-claim_pins v (suc i) apps (claim app cs).1)

shown-append : (v : ℕ) (ss rest : List Slot) → shown v (ss ++ rest) ≡ shown v ss + shown v rest
shown-append v [] rest = omega arith
shown-append v (s ∷ ss) rest = omega (arith, shown-append v ss rest)

module _ (cfg : Config) (st : ℕ → View) (current v : ℕ)
    (here : in_row cfg st current v ≡ true) where
  shown-unclaimed_slots :
      (cs : List Claim) → shown v (unclaimed_slots cfg st current cs) ≡ unmatched v cs
  unfolding unclaimed_slots new_slot
  shown-unclaimed_slots [] = refl
  shown-unclaimed_slots (c ∷ cs) = ground (arith, shown-unclaimed_slots cs)

  shown-fill_slots : (bs : List Button) → shown v (fill_slots cfg st current bs) ≡ held v bs
  unfolding fill_slots
  shown-fill_slots bs =
      let pinned = claim_pins 0 cfg.pins (unclaimed bs) in
      omega (
        arith,
        unmatched-unclaimed v bs,
        shown-claim_pins v 0 cfg.pins (unclaimed bs),
        shown-unclaimed_slots pinned.1,
        shown-append v pinned.0 (unclaimed_slots cfg st current pinned.1),
      )

shown-place_slots :
    (v : ℕ) (cx bw pw pad : ℤ) (ss : List Slot) → shown v (place_slots cx bw pw pad ss) ≡ shown v ss
unfolding place_slots
shown-place_slots v cx bw pw pad [] = refl
shown-place_slots v cx bw pw pad (s ∷ ss) =
    omega
      (arith, shown-place_slots v (cx +ℤ ((if is_some s.v then bw else pw) +ℤ pad)) bw pw pad ss)

-- On a bar of positive size: a window that is pinned, on the current workspace, or anywhere if the bar
-- shows all workspaces, gets as many slots as it has buttons, whatever apps are pinned to the bar.
pub layout-shown :
    (w : Wlroots) (m : Metrics) (s : Server) (t : Taskbar) (v : ℕ)
    → IsVisible t
    → in_row s.cfg s.store s.current_workspace v ≡ true
    → shown v (layout w m s t).slots ≡ held v t.buttons
layout-shown w m s t v vis here =
    let ss = fill_slots s.cfg s.store s.current_workspace t.buttons in
    rw
      (
        layout-slots w m s t vis,
        shown-place_slots v (row_left w m s t)
            (row_button_w s.cfg (row_left w m s t) ss (labelled w m s t))
            (at_least_1 (inner_h s.cfg (labelled w m s t))) s.cfg.taskbar_button_pad ss,
      )
      (shown-fill_slots s.cfg s.store s.current_workspace v here t.buttons)
