-- ===== src/Taskbar/Labels.antt =====
-- The workspace labels as they are drawn, and as `taskbar::workspace_at` finds them (src/taskbar.cc).
use native.Mathlib.Nat.{div-add-mod', mod-lt}
use steppewm.Base.{
  ℕ, zero, suc, ℤ, pos, pos_part, ◌+ℤ◌, ◌-ℤ◌, ◌*ℤ◌, ◌/ℤ◌, ltb_ℤ, leb_ℤ, leb, true, ◌&&◌, ◌||◌,
  Option, none, some, List, [], ◌∷◌, ◌+◌, ◌*◌, ◌/◌, ◌%◌, ◌-◌, ◌<◌, ◌≤◌, if◌then◌else◌, ◌≡◌, ◌∙◌,
  Bool-cases, inl, inr, refl, arith,
}
use steppewm.Taskbar.Rows.{
  label_places, at_least_1, inner_h, shown_labels, render_indicators, layout,
}
use steppewm.Taskbar.Frame.{IsVisible, layout-SameLabels}
use steppewm.Wlr.{Wlroots}
use steppewm.State.{Config, Server, num_workspaces}
use steppewm.Taskbar.{Taskbar, Metrics}
use steppewm.Taskbar.Hits.{label_at, label_w, quotient, on_bar, local_x, workspace_at}

-- The first label that covers `lx`, for labels of width `w` that are counted from `i`.
unfoldable pub label_under : ℤ → ℤ → ℕ → List ℤ → Option ℕ
label_under lx w i [] = none
label_under lx w i (p ∷ ps) =
    let rest = label_under lx w (suc i) ps in
    if leb_ℤ p lx && ltb_ℤ lx (p +ℤ w) then some i else rest

pub pos-add : (a b : ℕ) → pos a +ℤ pos b ≡ pos (a + b)
unfolding ◌+ℤ◌
pos-add a b = ground arith

pub pos-scale : (a b : ℕ) → pos a *ℤ pos b ≡ pos (a * b)
unfolding ◌*ℤ◌
pos-scale a b = ground arith

pub pos-sub : (a b : ℕ) → b ≤ a → pos a -ℤ pos b ≡ pos (a - b)
unfolding ◌-ℤ◌
pos-sub a b h = ground arith

pub quotient-pos : (m d : ℕ) → 0 < d → quotient (pos m) (pos d) ≡ pos (m / d)
unfolding quotient ◌/ℤ◌
quotient-pos m d h = ground arith

module _ (w p : ℕ) where
  -- Labels that start right of a point do not cover it.
  beyond :
      (n i start m : ℕ)
      → m < start
      → label_under (pos m) (pos w) i (label_places n (pos start) (pos w) (pos p)) ≡ none
  unfolding label_under label_places
  beyond zero i start m h = refl
  beyond (suc n) i start m h =
      rw (pos-add w p, pos-add start (w + p), pos-add start w)
        (ground (arith, beyond n (suc i) (start + (w + p)) m (omega arith)))

  -- `j` labels further, `r` right of that label's start.
  scan :
      (n i j r start m : ℕ)
      → r < w + p
      → m ≡ start + j * (w + p) + r
      → label_under (pos m) (pos w) i (label_places n (pos start) (pos w) (pos p))
        ≡ (if leb n j || leb w r then none else some (i + j))
  unfolding label_under label_places
  scan zero i j r start m h e = ground arith
  scan (suc n) i zero r start m h e =
      rw (pos-add w p, pos-add start (w + p), pos-add start w)
        (ground (arith, beyond n (suc i) (start + (w + p)) m (omega arith)))
  scan (suc n) i (suc j) r start m h e =
      rw (pos-add w p, pos-add start (w + p), pos-add start w)
        (ground (arith, scan n (suc i) j r (start + (w + p)) m h (grind arith)))

  -- The division finds the same.
  pub label_at-places :
      (n m : ℕ)
      → 0 < w
      → label_at n (pos m) (pos w) (pos p)
        ≡ label_under (pos (p + m)) (pos w) 0 (label_places n (pos p) (pos w) (pos p))
  unfolding label_at
  label_at-places n m h =
      let d_pos : 0 < w + p = omega arith in
      let r_lt : m % (w + p) < w + p = mod-lt m d_pos in
      let split : m / (w + p) * (w + p) + m % (w + p) ≡ m = div-add-mod' m (w + p) in
      let at : p + m ≡ p + m / (w + p) * (w + p) + m % (w + p) = omega (arith, split) in
      let low : m / (w + p) * (w + p) ≤ m = omega (arith, split) in
      let left : m - m / (w + p) * (w + p) ≡ m % (w + p) = omega (arith, split) in
      rw
        (
          pos-add w p,
          scan n 0 (m / (w + p)) (m % (w + p)) p (p + m) r_lt at,
          quotient-pos m (w + p) d_pos,
          pos-scale (m / (w + p)) (w + p),
          pos-sub m (m / (w + p) * (w + p)) low,
          left,
        )
        (ground arith)

pos-sub_add : (p l : ℕ) → pos (p + l) -ℤ pos p ≡ pos l
unfolding ◌-ℤ◌
pos-sub_add p l = ground arith

-- A positive width is taken as it is.
label_w_lem :
    (cfg : Config) (t : Taskbar) (k : ℕ) → t.ws_button_w ≡ pos (suc k) → label_w cfg t ≡ pos (suc k)
label_w_lem cfg t k h = rw h (ground arith)

-- For labels of width `suc k`, `p` apart.
find_label :
    (cfg : Config) (t : Taskbar) (max p l k : ℕ) (x y : ℤ)
    → cfg.taskbar_button_pad ≡ pos p
    → on_bar x y t ≡ true
    → local_x x t ≡ pos (p + l)
    → t.ws_button_w ≡ pos (suc k)
    → t.ws_labels ≡ label_places (max + 1) (pos p) (pos (suc k)) (pos p)
    → workspace_at cfg max x y t ≡ label_under (local_x x t) t.ws_button_w 0 t.ws_labels
unfolding workspace_at
find_label cfg t max p l k x y pad bar lx w ls =
    rw (bar, label_w_lem cfg t k w, pad, lx, w, ls, pos-sub_add p l)
      (label_at-places (suc k) p (max + 1) l (omega arith))

at_least_1-pos : (n : ℤ) → (k : ℕ) × (at_least_1 n ≡ pos (suc k))
at_least_1-pos n = elim (Bool-cases (ltb_ℤ n (pos 1))) [
  | inl e ↦ rw e (0, refl)
  | inr e ↦ rw e (pos_part n - 1, ground arith)
]

shown_labels-below : (n : ℕ) → n < num_workspaces → shown_labels n ≡ n + 1
shown_labels-below n h = ground arith

-- On a laid out bar, at a point that is not left of the first label, with a padding that is not negative
-- and at most eight workspaces beyond the first in use: the workspace that is found is the one whose label
-- is drawn there, the labels searched from left to right, and none between the labels and after them.
pub workspace_at-layout :
    (w : Wlroots) (m : Metrics) (s : Server) (t : Taskbar) (p l : ℕ) (x y : ℤ)
    → IsVisible t
    → s.cfg.taskbar_button_pad ≡ pos p
    → s.max_visible_workspace < num_workspaces
    → let r = layout w m s t in
      on_bar x y r ≡ true
      → local_x x r ≡ pos (p + l)
      → workspace_at s.cfg s.max_visible_workspace x y r
        ≡ label_under (local_x x r) r.ws_button_w 0 r.ws_labels
workspace_at-layout w m s t p l x y vis pad max bar lx =
    let drawn = layout-SameLabels w m s t vis in
    let (k, wide) = at_least_1-pos (inner_h s.cfg (render_indicators s.cfg m t)) in
    find_label s.cfg (layout w m s t) s.max_visible_workspace p l k x y pad bar lx (drawn.0 ∙ wide)
      (drawn.1 ∙ rw (shown_labels-below s.max_visible_workspace max, wide, pad) refl)
