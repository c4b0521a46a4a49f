-- ===== src/Switcher/Rows.antt =====
-- The panel of the switcher on its output, and its rows in it (src/switcher.cc).
use steppewm.Base.{
  ℕ, ◌+◌, ◌*◌, ◌<◌, ◌<ℤ◌, -ℤ_parts, ℤ, pos, ◌+ℤ◌, ◌-ℤ◌, ◌*ℤ◌, ◌/ℤ◌, ◌≤ℤ◌, Bool, true, false, none,
  some, ◌≡◌, arith, int_laws, scale_laws, parts_exclusive, if◌then◌else◌, subst,
}
use steppewm.Wlr.{Box}
use steppewm.Snap.{box}
use steppewm.Switcher.Panel.{switcher_pad, switcher_row_h, panel_w, panel_h, row_y, panel_on}

-- Two gaps are the same up to a pixel.
abbrev pub IsEven : ℤ → ℤ → Type 0
IsEven a b = (a ≤ℤ (b +ℤ pos 1)) × (b ≤ℤ (a +ℤ pos 1))

halves : (x n w : ℤ) → let at = x +ℤ (n -ℤ w) /ℤ 2 in IsEven (at -ℤ x) (x +ℤ n -ℤ at -ℤ w)
halves x n w = let d = parts_exclusive (n -ℤ w) in (omega int_laws, omega int_laws)

beside :
    (x n w : ℤ)
    → w ≤ℤ (n -ℤ pos 6)
    → let left = x +ℤ (n -ℤ w) /ℤ 2 in ((x +ℤ pos 3) ≤ℤ left) × ((left +ℤ w +ℤ pos 3) ≤ℤ (x +ℤ n))
beside x n w h = let d = parts_exclusive (n -ℤ w) in (omega int_laws, omega int_laws)

-- The row `i` of `n` lies in a panel of this height with the padding above and below it, and the rows after
-- it begin below it.
abbrev pub IsFitted : (height : ℤ) (n i : ℕ) → Type 0
IsFitted height n i =
    (switcher_pad ≤ℤ row_y i)
    × ((row_y i +ℤ switcher_row_h +ℤ switcher_pad) ≤ℤ height)
    × ((j : ℕ) → i < j → j < n → (row_y i +ℤ switcher_row_h +ℤ switcher_pad) ≤ℤ row_y j)

row_y-IsFitted : (n i : ℕ) → i < n → IsFitted (panel_h n) n i
unfolding row_y panel_h ◌+ℤ◌
row_y-IsFitted n i h = (omega scale_laws, omega scale_laws, (λ j lt m. omega scale_laws))

panel_w_lem :
    (ob : Box)
    → (panel_w ob ≤ℤ (ob.width -ℤ pos 6))
      × (pos 406 ≤ℤ ob.width → panel_w ob ≡ pos 400)
      × (ob.width <ℤ pos 406 → panel_w ob ≡ ob.width -ℤ pos 6)
unfolding panel_w ◌*ℤ◌
panel_w_lem ob = ground (arith, -ℤ_parts ob.width (pos 6))

-- The panel `b` for `n` windows on the output's box: its size, its gaps to the sides of the output, and
-- its rows.
pub record IsLaidOut (n : ℕ) (ob b : Box) : Type 0 where
  pub width :
      (pos 406 ≤ℤ ob.width → b.width ≡ pos 400)
      × (ob.width <ℤ pos 406 → b.width ≡ ob.width -ℤ pos 6)
  pub height : b.height ≡ pos (n * 33 + 3)
  pub sides :
      ((ob.x +ℤ switcher_pad) ≤ℤ b.x) × ((b.x +ℤ b.width +ℤ switcher_pad) ≤ℤ (ob.x +ℤ ob.width))
  pub across : IsEven (b.x -ℤ ob.x) (ob.x +ℤ ob.width -ℤ b.x -ℤ b.width)
  pub down : IsEven (b.y -ℤ ob.y) (ob.y +ℤ ob.height -ℤ b.y -ℤ b.height)
  pub rows : (i : ℕ) → i < n → IsFitted b.height n i

panel_h_lem : (n : ℕ) → panel_h n ≡ pos (n * 33 + 3)
unfolding panel_h
panel_h_lem n = omega scale_laws

laid_out :
    (n : ℕ) (ob : Box)
    → let w = panel_w ob in
      let h = panel_h n in
      IsLaidOut n ob (box (ob.x +ℤ (ob.width -ℤ w) /ℤ 2) (ob.y +ℤ (ob.height -ℤ h) /ℤ 2) w h)
laid_out n ob =
    let (most, wide, narrow) = panel_w_lem ob in
    record {
      width = (wide, narrow);
      height = panel_h_lem n;
      sides = beside ob.x ob.width (panel_w ob) most;
      across = halves ob.x ob.width (panel_w ob);
      down = halves ob.y ob.height (panel_h n);
      rows = row_y-IsFitted n;
    }

given : (c : Bool) (a b : Box) → (if c then none else some a) ≡ some b → a ≡ b
given true a b h = ground arith
given false a b h = ground arith

-- If the switcher draws its panel, the panel is in the middle of the output, across and down, up to a
-- pixel: 400 pixels wide with 3 pixels or more at both sides, or 6 pixels narrower than an output that
-- is too narrow for that, and as high as its rows of 30 pixels with 3 pixels above and below each. Each
-- row lies in the panel, and no two of them overlap.
pub panel_on-IsLaidOut : (n : ℕ) (ob b : Box) → panel_on n ob ≡ some b → IsLaidOut n ob b
unfolding panel_on
panel_on-IsLaidOut n ob b h = subst (IsLaidOut n ob) (given _ _ b h) (laid_out n ob)
