-- ===== src/Tray/Rows.antt =====
-- The row of the open menu at a point, and the row that is drawn there: `menu_item_at` against `render_menu` (src/tray.cc).
use steppewm.Base.{
  ℕ, suc, ◌+◌, ℤ, pos, ◌+ℤ◌, ◌-ℤ◌, ◌≤ℤ◌, ◌<ℤ◌, ltb_ℤ, Bool, true, not, ◌||◌, Option, none, some,
  List, [], ◌∷◌, ◌≡◌, refl, ◌∙◌, if◌then◌else◌, get_elem?, Bytes, arith, scale_laws, Bool-cases,
  inl, inr,
}
use steppewm.Snap.{pixels}
use steppewm.Tray.{Entry, Host}
use steppewm.Tray.Menu.{Row, row_h, total_h, draw_rows, row_at, menu_item_at, render_menu}

-- A click on an entry does something.
abbrev pub is_clickable : Entry → Bool
is_clickable e = not (e.separator || not e.enabled)

-- `ly` is on the row with the index `j`, and `found` is what the search for it gives.
pub record IsHit (item_h ly : ℤ) (rows : List Row) (i : ℕ) (found : Option ℕ) : Type 0 where
  pub index : ℕ
  pub row : Row
  pub drawn : get_elem? rows index ≡ some row
  pub below_top : pixels row.top ≤ℤ ly
  pub above_bottom : ly <ℤ pixels (row.top +ℤ row_h item_h row.entry)
  pub is_found : found ≡ (if is_clickable row.entry then some (i + index) else none)

row_here :
    (item_h ly : ℤ) (i : ℕ) (cur : ℤ) (e : Entry) (es : List Entry)
    → pixels cur ≤ℤ ly
    → ly <ℤ pixels (cur +ℤ row_h item_h e)
    → row_at item_h ly i cur (e ∷ es) ≡ (if is_clickable e then some (i + 0) else none)
unfolding row_at
row_here item_h ly i cur e es lo hi = ground arith

row_below :
    (item_h ly : ℤ) (i : ℕ) (cur : ℤ) (e : Entry) (es : List Entry)
    → pixels (cur +ℤ row_h item_h e) ≤ℤ ly
    → row_at item_h ly i cur (e ∷ es) ≡ row_at item_h ly (suc i) (cur +ℤ row_h item_h e) es
unfolding row_at
row_below item_h ly i cur e es lo = ground arith

IsHit-cons :
    (item_h ly : ℤ) (i : ℕ) (r : Row) (rows : List Row) (found : Option ℕ)
    → IsHit item_h ly rows (suc i) found
    → IsHit item_h ly (r ∷ rows) i found
IsHit-cons item_h ly i r rows found hit = record {
  index = suc hit.index;
  row = hit.row;
  drawn = hit.drawn;
  below_top = hit.below_top;
  above_bottom = hit.above_bottom;
  is_found = hit.is_found ∙ ground arith;
}

row_at-IsHit :
    (item_h ly : ℤ) (i : ℕ) (cur : ℤ) (es : List Entry)
    → pixels cur ≤ℤ ly
    → ly <ℤ pixels (cur +ℤ total_h item_h es)
    → IsHit item_h ly (draw_rows item_h cur es) i (row_at item_h ly i cur es)
unfolding total_h draw_rows
row_at-IsHit item_h ly i cur [] lo hi = absurd (omega scale_laws)
row_at-IsHit item_h ly i cur (e ∷ es) lo hi =
    let bottom = cur +ℤ row_h item_h e in
    elim (Bool-cases (ltb_ℤ ly (pixels bottom))) [
      | inl above ↦ record {
        index = 0;
        row = record { entry = e; top = cur };
        drawn = refl;
        below_top = lo;
        above_bottom = ground arith;
        is_found = row_here item_h ly i cur e es lo (ground arith);
      }
      | inr below ↦
          let lo' : pixels bottom ≤ℤ ly = ground arith in
          rw (row_below item_h ly i cur e es lo') (
            IsHit-cons item_h ly i _ _ _
              (row_at-IsHit item_h ly (suc i) bottom es lo' (omega scale_laws)))
    ]

menu_item_at_inside :
    (x y : ℤ) (h : Host)
    → h.menu_tree ≡ true
    → pos 0 ≤ℤ x -ℤ pixels h.menu_x
    → x -ℤ pixels h.menu_x <ℤ pixels h.menu_w
    → pos 0 ≤ℤ y -ℤ pixels h.menu_y
    → y -ℤ pixels h.menu_y <ℤ pixels h.menu_h
    → menu_item_at x y h ≡ row_at h.menu_item_h (y -ℤ pixels h.menu_y) 0 (pos 0) h.menu_entries
unfolding menu_item_at
menu_item_at_inside x y h is_open left right top bottom = ground arith

module _ (text_w : Bytes → ℤ) where
  -- Every point inside the open menu lies on a row that `render_menu` draws, and `menu_item_at` finds
  -- that row's entry, or nothing if the entry is a separator or not enabled.
  pub menu_item_at-render_menu :
      (x y : ℤ) (h0 : Host)
      → let h = render_menu text_w h0 in
        h0.menu_tree ≡ true
        → pixels h0.menu_x ≤ℤ x
        → x -ℤ pixels h0.menu_x <ℤ pixels h.menu_w
        → pixels h0.menu_y ≤ℤ y
        → y -ℤ pixels h0.menu_y <ℤ pixels h.menu_h
        → IsHit h.menu_item_h
            (y -ℤ pixels h0.menu_y)
            (draw_rows h.menu_item_h (pos 0) h0.menu_entries)
            0
            (menu_item_at x y h)
  unfolding render_menu
  menu_item_at-render_menu x y h0 is_open left right top bottom =
      let h = render_menu text_w h0 in
      let ly = y -ℤ pixels h0.menu_y in
      let hit =
        row_at-IsHit h.menu_item_h ly 0 (pos 0) h0.menu_entries (omega scale_laws)
          (omega scale_laws) in
      rw (menu_item_at_inside x y h is_open (omega scale_laws) right (omega scale_laws) bottom) hit
