-- ===== src/Osd/Placed.antt =====
-- Where the on-screen display stands on the output under the pointer (src/osd.cc).
use steppewm.Base.{
  ℤ, pos, ◌+ℤ◌, ◌-ℤ◌, ◌*ℤ◌, ◌/ℤ◌, leb_ℤ, ◌≤ℤ◌, Bool, true, false, not, ◌||◌, Option, none, some,
  ◌≡◌, refl, ap, arith, int_laws, parts_exclusive, pos_part-scale, neg_part-scale, if◌then◌else◌,
  subst, Bytes,
}
use steppewm.Wlr.{Box}
use steppewm.Osd.{font_size, panel_size, panel_box, panel_for}

-- One box lies in another.
pub record IsWithin (b ob : Box) : Type 0 where
  pub left : ob.x ≤ℤ b.x
  pub right : (b.x +ℤ b.width) ≤ℤ (ob.x +ℤ ob.width)
  pub top : ob.y ≤ℤ b.y
  pub bottom : (b.y +ℤ b.height) ≤ℤ (ob.y +ℤ ob.height)

across :
    (x n w : ℤ) → w ≤ℤ n → let left = x +ℤ (n -ℤ w) /ℤ 2 in (x ≤ℤ left) × ((left +ℤ w) ≤ℤ (x +ℤ n))
across x n w h = let d = parts_exclusive (n -ℤ w) in (omega int_laws, omega int_laws)

down :
    (y n h : ℤ)
    → pos 0 ≤ℤ n
    → (h *ℤ pos 4) ≤ℤ n
    → let top = y +ℤ (n *ℤ pos 3) /ℤ 4 in (y ≤ℤ top) × ((top +ℤ h) ≤ℤ (y +ℤ n))
down y n h room fits =
    let d = parts_exclusive n in
    let p = pos_part-scale n 3 in
    let q = neg_part-scale n 3 in
    let r = pos_part-scale h 4 in let s = neg_part-scale h 4 in (omega int_laws, omega int_laws)

panel_box-IsWithin :
    (size : ℤ × ℤ) (ob : Box)
    → pos 0 ≤ℤ ob.height
    → size.0 ≤ℤ ob.width
    → (size.1 *ℤ pos 4) ≤ℤ ob.height
    → IsWithin (panel_box size ob) ob
unfolding panel_box
panel_box-IsWithin (w, h) ob room wide high =
    let a = across ob.x ob.width w wide in
    let d = down ob.y ob.height h room high in
    record { left = a.0; right = a.1; top = d.0; bottom = d.1 }

some_injective : (a b : Box) → some a ≡ some b → a ≡ b
some_injective a b h = ground arith

if_none :
    (c : Bool) (o : Option Box) (b : Box)
    → (if c then none else o) ≡ some b
    → (c ≡ false) × (o ≡ some b)
if_none true o b h = ground arith
if_none false o b h = (refl, h)

module _ (extents : Bytes → ℤ → ℤ × ℤ) (valid : ℤ → ℤ → Bool) where
  panel_for_lem :
      (text : Bytes) (ob b : Box)
      → panel_for extents valid text ob ≡ some b
      → (pos 0 ≤ℤ ob.height) × ((size : ℤ × ℤ) × (panel_box size ob ≡ b))
  unfolding panel_for
  panel_for_lem text ob b h =
      let size =
        panel_size (font_size ob.height) (extents text (font_size ob.height)).0
          (extents text (font_size ob.height)).1 in
      let outer = if_none (leb_ℤ ob.width (pos 0) || leb_ℤ ob.height (pos 0)) _ b h in
      let small = leb_ℤ size.0 (pos 0) || leb_ℤ size.1 (pos 0) || not (valid size.0 size.1) in
      let inner = if_none small _ b outer.1 in
      (ground (arith, outer.0), (size, some_injective (panel_box size ob) b inner.1))

  box_size :
      (size : ℤ × ℤ) (ob b : Box) → panel_box size ob ≡ b → (size.0 ≡ b.width) × (size.1 ≡ b.height)
  unfolding panel_box
  box_size (w, h) ob b e = (ap (λ r. r.width) e, ap (λ r. r.height) e)

  -- If the display shows a text in a panel that is no wider than the output and at most a quarter of it
  -- high, the whole panel is on the output.
  panel_for-IsWithin :
      (text : Bytes) (ob b : Box)
      → panel_for extents valid text ob ≡ some b
      → b.width ≤ℤ ob.width
      → (b.height *ℤ pos 4) ≤ℤ ob.height
      → IsWithin b ob
  panel_for-IsWithin text ob b h wide high =
      let (room, (size, e)) = panel_for_lem text ob b h in
      let (a, d) = box_size size ob b e in
      subst (λ r. IsWithin r ob) e (panel_box-IsWithin size ob room (rw a wide) (rw d high))
