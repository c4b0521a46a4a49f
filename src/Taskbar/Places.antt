-- ===== src/Taskbar/Places.antt =====
-- The slots of the task row as they are drawn, and as `taskbar::view_at` and `pin_at` find them
-- (src/taskbar.cc).
use steppewm.Base.{
  ℕ, zero, suc, ℤ, pos, ◌+ℤ◌, ◌≤ℤ◌, ltb_ℤ, leb_ℤ, Bool, true, false, ◌&&◌, none, some, List, [],
  ◌∷◌, if◌then◌else◌, ◌≡◌, refl, arith, int_laws, get_elem?, find, is_some,
}
use steppewm.Wlr.{Wlroots}
use steppewm.State.{Config, Server}
use steppewm.Taskbar.{Slot, Taskbar, Metrics}
use steppewm.Taskbar.Rows.{at_least_1, inner_h, window_button_w, row_button_w, place_slots, layout}
use steppewm.Taskbar.Frame.{IsVisible, layout-slots, labelled, row_left}
use steppewm.Taskbar.Slots.{fill_slots}
use steppewm.Taskbar.Hits.{on_bar, local_x, covers, slot_at, view_at, pin_at}

and_false : (b : Bool) → (b && false) ≡ false
and_false true = refl
and_false false = refl

at_least_1-positive : (n : ℤ) → pos 0 ≤ℤ at_least_1 n
at_least_1-positive n = ground arith

window_button_w-positive : (cfg : Config) (room : ℤ) (n : ℕ) → pos 0 ≤ℤ window_button_w cfg room n
unfolding window_button_w
window_button_w-positive cfg room zero = omega arith
window_button_w-positive cfg room (suc n) = ground arith

row_button_w-positive :
    (cfg : Config) (left : ℤ) (ss : List Slot) (t : Taskbar) → pos 0 ≤ℤ row_button_w cfg left ss t
unfolding row_button_w
row_button_w-positive cfg left ss t = window_button_w-positive cfg _ _

module _ (bw pw pad : ℤ) (bw_ok : pos 0 ≤ℤ bw) (pw_ok : pos 0 ≤ℤ pw) (pad_ok : pos 0 ≤ℤ pad) where
  chosen_ok : (b : Bool) → pos 0 ≤ℤ (if b then bw else pw)
  chosen_ok true = bw_ok
  chosen_ok false = pw_ok

  -- No slot stands left of the start of the row.
  starts :
      (cx : ℤ) (ss : List Slot) (i : ℕ) {d : Slot}
      → get_elem? (place_slots cx bw pw pad ss) i ≡ some d
      → cx ≤ℤ d.x
  unfolding place_slots
  starts cx [] i e = ground arith
  starts cx (s ∷ ss) zero e = ground arith
  starts cx (s ∷ ss) (suc i) {d} e =
      let w : ℤ = if is_some s.v then bw else pw in
      let later : cx +ℤ (w +ℤ pad) ≤ℤ d.x = starts (cx +ℤ (w +ℤ pad)) ss i e in
      omega (int_laws, later, chosen_ok (is_some s.v), pad_ok)

  past_slot :
      (lx cx w : ℤ) (d : Slot)
      → cx +ℤ (w +ℤ pad) ≤ℤ d.x
      → covers lx d ≡ true
      → ltb_ℤ lx (cx +ℤ w) ≡ false
  past_slot lx cx w d later h =
      let reached : d.x ≤ℤ lx = ground arith in
      let far : cx +ℤ w ≤ℤ lx = omega (int_laws, later, pad_ok, reached) in ground arith

  -- So the first slot that covers a point is the only one.
  find_drawn :
      (lx cx : ℤ) (ss : List Slot) (i : ℕ) {d : Slot}
      → get_elem? (place_slots cx bw pw pad ss) i ≡ some d
      → covers lx d ≡ true
      → find (covers lx) (place_slots cx bw pw pad ss) ≡ some d
  unfolding place_slots
  find_drawn lx cx [] i e h = ground arith
  find_drawn lx cx (s ∷ ss) zero e h = ground arith
  find_drawn lx cx (s ∷ ss) (suc i) {d} e h =
      let w : ℤ = if is_some s.v then bw else pw in
      let later : cx +ℤ (w +ℤ pad) ≤ℤ d.x = starts (cx +ℤ (w +ℤ pad)) ss i e in
      let past : ltb_ℤ lx (cx +ℤ w) ≡ false = past_slot lx cx w d later h in
      rw (past, and_false (leb_ℤ cx lx)) (find_drawn lx (cx +ℤ (w +ℤ pad)) ss i e h)

-- On a laid out bar with a padding that is not negative, at a point that a slot's place covers: `view_at`
-- finds that slot's window, and `pin_at` its pinned app if it has no window.
pub layout-hits :
    (w : Wlroots) (m : Metrics) (s : Server) (t : Taskbar) (i : ℕ) (d : Slot) (x y : ℤ)
    → IsVisible t
    → pos 0 ≤ℤ s.cfg.taskbar_button_pad
    → let r = layout w m s t in
      on_bar x y r ≡ true
      → get_elem? r.slots i ≡ some d
      → covers (local_x x r) d ≡ true
      → (view_at x y r ≡ d.v) × (pin_at x y r ≡ (if is_some d.v then none else d.pin_idx))
unfolding view_at pin_at slot_at
layout-hits w m s t i d x y vis pad bar e h =
    let ss = fill_slots s.cfg s.store s.current_workspace t.buttons in
    let row = labelled w m s t in
    let left = row_left w m s t in
    let bw = row_button_w s.cfg left ss row in
    let pw = at_least_1 (inner_h s.cfg row) in
    let drawn = layout-slots w m s t vis in
    let found : find (covers (local_x x (layout w m s t))) (layout w m s t).slots ≡ some d =
      rw drawn (
        find_drawn bw pw s.cfg.taskbar_button_pad (row_button_w-positive s.cfg left ss row)
          (at_least_1-positive (inner_h s.cfg row)) pad (local_x x (layout w m s t)) left ss i
          (rw drawn at e) h) in
    rw (bar, found) (refl, refl)
