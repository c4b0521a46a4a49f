-- ===== src/Snap/Zones.antt =====
-- The snap zones and the usable area, and the zone of the preview: src/view.cc and src/input.cc.
use steppewm.Base.{
  ℕ, ℤ, ◌+ℤ◌, ◌-ℤ◌, ◌/ℤ◌, arith, Bool, true, Option, none, some, ◌≡◌, ◌≢◌, +ℤ_parts, -ℤ_parts,
  leb_ℤ, ltb_ℤ, ◌&&◌, not, ◌+◌, if◌then◌else◌,
}
use steppewm.Wlr.{Box}
use steppewm.State.{unsnapped, left, right, top_left, top_right, bottom_left, bottom_right}
use steppewm.Snap.{snap_zone, snap_for}

-- Whichever sides the cursor touches, the ladder returns the zone of the edge that it returns, and the whole area to maximize.
pub snap_for-snap_zone :
    (l r t b : Bool) (ua : Box)
    → let d = snap_for l r t b ua in
      (d.edge ≢ unsnapped → snap_zone d.edge ua ≡ some d.zone)
      × (d.maximize ≡ true → (d.edge ≡ unsnapped) × (d.zone ≡ ua))
unfolding snap_for snap_zone
snap_for-snap_zone l r t b ua = ground arith

-- The number `p` lies in the `n` numbers from `x`; a point lies in a box.
abbrev pub in_span : ℤ → ℤ → ℤ → Bool
in_span p x n = leb_ℤ x p && ltb_ℤ p (x +ℤ n)

abbrev pub inside : ℤ → ℤ → Box → Bool
inside px py b = in_span px b.x b.width && in_span py b.y b.height

abbrev pub hits : ℤ → ℤ → Option Box → ℕ
hits px py none = 0
hits px py (some b) = if inside px py b then 1 else 0

-- Cutting a span at `h` leaves each of its numbers in exactly one part.
span_cut : (p x n h : ℤ) → in_span p x n ≡ true → in_span p (x +ℤ h) (n -ℤ h) ≡ not (in_span p x h)
span_cut p x n h e =
    ground (arith, +ℤ_parts x n, +ℤ_parts x h, -ℤ_parts n h, +ℤ_parts (x +ℤ h) (n -ℤ h))

-- Every point of the usable area lies in exactly one of the two halves, and in exactly one of the four
-- quarters, whatever the signs of the sizes and the rounding of the halves.
pub snap_zone_tiles :
    (px py : ℤ) (ua : Box)
    → inside px py ua ≡ true
    → (hits px py (snap_zone left ua) + hits px py (snap_zone right ua) ≡ 1)
      × (hits px py (snap_zone top_left ua)
            + hits px py (snap_zone top_right ua)
            + hits px py (snap_zone bottom_left ua)
            + hits px py (snap_zone bottom_right ua)
          ≡ 1)
unfolding snap_zone
snap_zone_tiles px py ua h =
    ground (
      arith,
      span_cut px ua.x ua.width (ua.width /ℤ 2),
      span_cut py ua.y ua.height (ua.height /ℤ 2),
    )
