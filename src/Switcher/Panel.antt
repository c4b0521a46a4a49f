-- ===== src/Switcher/Panel.antt =====
-- Where the panel of the switcher stands, and its rows in it: `switcher::pick_output` and `switcher::render` of
-- src/switcher.cc. The calls `render_switcher` of the log stand for it where only the windows matter.
use steppewm.Base.{
  ℕ, ◌+◌, ℤ, pos, ◌+ℤ◌, ◌-ℤ◌, ◌*ℤ◌, ◌/ℤ◌, leb_ℤ, ltb_ℤ, ◌||◌, Option, none, some, length,
  if◌then◌else◌,
}
use steppewm.Wlr.{Box, Wlroots, node_set_position, switcher_tree}
use steppewm.State.{Server, Switcher, emit}
use steppewm.Snap.{box}
use steppewm.Placement.{first_output}

-- `SWITCHER_W`, `SWITCHER_ROW_H` and `SWITCHER_PAD`.
abbrev pub switcher_w : ℤ
switcher_w = pos 400

abbrev pub switcher_row_h : ℤ
switcher_row_h = pos 30

abbrev pub switcher_pad : ℤ
switcher_pad = pos 3

-- "make sure it's not wider than the screen".
unfoldable pub panel_w : Box → ℤ
panel_w ob =
    let room = ob.width -ℤ pos 2 *ℤ switcher_pad in
    if ltb_ℤ room switcher_w then room else switcher_w

unfoldable pub panel_h : ℕ → ℤ
panel_h n = pos n *ℤ switcher_row_h +ℤ pos (n + 1) *ℤ switcher_pad

-- The top of a row in the panel.
unfoldable pub row_y : ℕ → ℤ
row_y i = switcher_pad +ℤ pos i *ℤ (switcher_row_h +ℤ switcher_pad)

-- The box of the panel for `n` windows, on an output's box.
unfoldable pub panel_on : ℕ → Box → Option Box
panel_on n ob =
    let w = panel_w ob in
    let h = panel_h n in
    if leb_ℤ w (pos 0) || leb_ℤ h (pos 0)
    then none
    else some (box (ob.x +ℤ (ob.width -ℤ w) /ℤ 2) (ob.y +ℤ (ob.height -ℤ h) /ℤ 2) w h)

unfoldable pub place_panel : Option Box → Server → Server
place_panel none s = s
place_panel (some b) s = emit (node_set_position switcher_tree b.x b.y) s

module _ (w : Wlroots) where
  -- `switcher::pick_output`: "the output under the cursor, falling back to the first output".
  unfoldable pub pick_output : Server → Option ℕ
  pick_output s = elim (w.output_at s.calls s.cursor_x s.cursor_y) [
    | some out ↦ some out
    | none ↦ first_output s.outputs
  ]

  -- `switcher::render`.
  unfoldable pub render : Switcher → Server → Server
  render sw s = elim (pick_output s) [
    | none ↦ s
    | some out ↦ place_panel (panel_on (length sw.views) (w.get_box s.calls (some out))) s
  ]
