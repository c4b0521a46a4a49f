-- ===== src/Osd.antt =====
-- The on-screen display: `osd::show` and `osd::on_timeout` of src/osd.cc. The sizes of a text come from Cairo and are
-- arguments, as is whether a canvas could be made. The calls `osd_show_text` and `osd_show_workspace` of the log stand
-- for `show` where only the windows matter.
pub mod Placed
use steppewm.Base.{
  ℕ, ℤ, pos, ◌+ℤ◌, ◌-ℤ◌, ◌*ℤ◌, ◌/ℤ◌, leb_ℤ, ltb_ℤ, Bool, true, false, not, ◌||◌, Option, none, some,
  if◌then◌else◌, Bytes,
}
use steppewm.Wlr.{Box, Wlroots, node_set_position, node_set_enabled, node_raise_to_top, osd_tree}
use steppewm.State.{Server, emit}
use steppewm.Snap.{box}

-- The server with the timer of the display, in milliseconds, if it runs.
pub record Overlay : Type 0 where
  pub srv : Server
  pub timer : Option ℕ

-- The size of the font for an output's height, in thousandths: 1.8 percent of it, between 14 and 32.
unfoldable pub font_size : ℤ → ℤ
font_size height =
    let size = height *ℤ pos 18 in
    if ltb_ℤ size (pos 14000) then pos 14000 else if ltb_ℤ (pos 32000) size then pos 32000 else size

-- The size of the panel for a text's width and height at that font.
unfoldable pub panel_size : ℤ → ℤ → ℤ → ℤ × ℤ
panel_size font text_w text_h =
    let pad_x = font /ℤ 1000 in
    let pad_y = (font *ℤ pos 6) /ℤ 10000 in (text_w +ℤ pos 2 *ℤ pad_x, text_h +ℤ pos 2 *ℤ pad_y)

-- The box of the panel on an output's box.
unfoldable pub panel_box : ℤ × ℤ → Box → Box
panel_box (w, h) ob = box (ob.x +ℤ (ob.width -ℤ w) /ℤ 2) (ob.y +ℤ (ob.height *ℤ pos 3) /ℤ 4) w h

unfoldable pub show_panel : Option Box → Overlay → Overlay
show_panel none o = o
show_panel (some b) o = record {
  srv =
      emit (node_raise_to_top osd_tree)
        (emit (node_set_enabled osd_tree true) (emit (node_set_position osd_tree b.x b.y) o.srv));
  timer = some 1500;
}

module _ (extents : Bytes → ℤ → ℤ × ℤ) (valid : ℤ → ℤ → Bool) where
  -- The panel of a text on an output's box, if it is drawn.
  unfoldable pub panel_for : Bytes → Box → Option Box
  panel_for text ob =
      let font = font_size ob.height in
      let size = panel_size font (extents text font).0 (extents text font).1 in
      if leb_ℤ ob.width (pos 0) || leb_ℤ ob.height (pos 0)
      then none
      else if leb_ℤ size.0 (pos 0) || leb_ℤ size.1 (pos 0) || not (valid size.0 size.1)
      then none
      else some (panel_box size ob)

  -- `osd::show`.
  unfoldable pub show : Wlroots → Bytes → Overlay → Overlay
  show w text o = elim (w.output_at o.srv.calls o.srv.cursor_x o.srv.cursor_y) [
    | none ↦ o
    | some out ↦ show_panel (panel_for text (w.get_box o.srv.calls (some out))) o
  ]

-- `osd::on_timeout`; the timer has run out.
unfoldable pub on_timeout : Overlay → Overlay
on_timeout o = record { srv = emit (node_set_enabled osd_tree false) o.srv; timer = none }
