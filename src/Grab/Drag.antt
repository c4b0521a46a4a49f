-- ===== src/Grab/Drag.antt =====
-- Dragging a window with the pointer: `server::process_cursor_move` of src/input.cc.
use steppewm.Base.{
  ℕ, ℤ, ◌+ℤ◌, ◌-ℤ◌, /ℤ_parts, scale_laws, pos_part-scale, neg_part-scale, false, ◌≡◌, refl, ap, ◌∙◌,
  arith, ==_refl,
}
use steppewm.Wlr.{Wlroots}
use steppewm.State.{move_window, View, Server}
use steppewm.Snap.{SnapDetect, pixels, detect_snap}
use steppewm.Window.{is_special}
use steppewm.Grab.{
  to_pixels, begin_move, drag_window, process_cursor_move, show_preview, show_snap_indicator,
  hide_snap_indicator,
}

scale_back : (a : ℤ) → to_pixels (pixels a) ≡ a
scale_back a = ground (arith, /ℤ_parts (pixels a) 256, pos_part-scale a 256, neg_part-scale a 256)

regroup : (c x d : ℤ) → c +ℤ pixels d -ℤ (c -ℤ pixels x) ≡ pixels (x +ℤ d)
regroup c x d = omega scale_laws

-- A drag by whole pixels moves by those pixels.
drag_whole : (c x d : ℤ) → to_pixels (c +ℤ pixels d -ℤ (c -ℤ pixels x)) ≡ x +ℤ d
drag_whole c x d = ap to_pixels (regroup c x d) ∙ scale_back (x +ℤ d)

-- The pointer has moved by whole pixels since the button went down on the window.
abbrev pub dragged : ℕ → ℤ → ℤ → Server → Server
dragged v dx dy s = record (begin_move v s) {
  cursor_x = s.cursor_x +ℤ pixels dx;
  cursor_y = s.cursor_y +ℤ pixels dy;
}

show_preview_store : (sd : SnapDetect) (s : Server) → (show_preview sd s).store ≡ s.store
unfolding show_preview show_snap_indicator hide_snap_indicator
show_preview_store sd s = ground arith

module _ (w : Wlroots) where
  drag_window_store :
      (v : ℕ) (s : Server)
      → let o = (drag_window w v s).store v in
        (o.x ≡ to_pixels (s.cursor_x -ℤ s.grab.grab_x))
        × (o.y ≡ to_pixels (s.cursor_y -ℤ s.grab.grab_y))
  unfolding drag_window
  drag_window_store v s =
      let s1 =
        move_window v (to_pixels (s.cursor_x -ℤ s.grab.grab_x))
          (to_pixels (s.cursor_y -ℤ s.grab.grab_y)) s in
      let e = show_preview_store (detect_snap w s1) s1 in
      (
        ap (λ (st : ℕ → View). (st v).x) e ∙ rw (==_refl v) refl,
        ap (λ (st : ℕ → View). (st v).y) e ∙ rw (==_refl v) refl,
      )

  drag_at_once :
      (v : ℕ) (s : Server)
      → s.grab.restore_pending ≡ false
      → process_cursor_move w v s ≡ drag_window w v s
  unfolding process_cursor_move
  drag_at_once v s h = rw h refl

  -- A window that is neither maximized nor fullscreen nor snapped moves with the pointer: when that has
  -- moved by whole pixels since the button went down, the window has moved by as many.
  process_cursor_move-follows :
      (v : ℕ) (dx dy : ℤ) (s : Server)
      → is_special (s.store v) ≡ false
      → let o = (process_cursor_move w v (dragged v dx dy s)).store v in
        (o.x ≡ (s.store v).x +ℤ dx) × (o.y ≡ (s.store v).y +ℤ dy)
  unfolding begin_move
  process_cursor_move-follows v dx dy s normal =
      let e = drag_window_store v (dragged v dx dy s) in
      rw (drag_at_once v (dragged v dx dy s) normal)
        (e.0 ∙ drag_whole s.cursor_x (s.store v).x dx, e.1 ∙ drag_whole s.cursor_y (s.store v).y dy)
