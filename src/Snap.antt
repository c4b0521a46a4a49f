-- ===== src/Snap.antt =====
-- Snapping a window to an edge of the output: `snap_tiled_edges` and the geometry of `view::snap_to`
-- (src/view.cc), and `detect_snap` (src/input.cc), which chooses the edge under the cursor.
pub mod Zones
use Prim.Native.Nat.{bit_or}
use steppewm.Base.{
  ℕ, ℤ, pos, ◌+ℤ◌, ◌-ℤ◌, ◌*ℤ◌, ◌/ℤ◌, leb_ℤ, Bool, true, false, not, ◌&&◌, ◌||◌, Option, none, some,
  if◌then◌else◌,
}
use steppewm.Wlr.{Box, Wlroots}
use steppewm.State.{
  SnapEdge, unsnapped, left, right, top_left, top_right, bottom_left, bottom_right, Server,
}
use steppewm.Output.{usable_area}

-- `enum wlr_edges`.
abbrev pub edge_top : ℕ
edge_top = 1

abbrev pub edge_bottom : ℕ
edge_bottom = 2

abbrev pub edge_left : ℕ
edge_left = 4

abbrev pub edge_right : ℕ
edge_right = 8

-- `snap_tiled_edges`.
unfoldable pub snap_tiled_edges : SnapEdge → ℕ
snap_tiled_edges left = bit_or (bit_or edge_left edge_top) edge_bottom
snap_tiled_edges right = bit_or (bit_or edge_right edge_top) edge_bottom
snap_tiled_edges top_left = bit_or edge_left edge_top
snap_tiled_edges top_right = bit_or edge_right edge_top
snap_tiled_edges bottom_left = bit_or edge_left edge_bottom
snap_tiled_edges bottom_right = bit_or edge_right edge_bottom
snap_tiled_edges unsnapped = 0

abbrev pub box : ℤ → ℤ → ℤ → ℤ → Box
box x y width height = record { x = x; y = y; width = width; height = height }

-- The `switch` of `view::snap_to`: the part of the usable area `out` that an edge stands for.
unfoldable pub snap_zone : SnapEdge → Box → Option Box
snap_zone edge out =
    let half_w = out.width /ℤ 2 in
    let half_h = out.height /ℤ 2 in
    elim edge [
      | left ↦ some (box out.x out.y half_w out.height)
      | right ↦ some (box (out.x +ℤ half_w) out.y (out.width -ℤ half_w) out.height)
      | top_left ↦ some (box out.x out.y half_w half_h)
      | top_right ↦ some (box (out.x +ℤ half_w) out.y (out.width -ℤ half_w) half_h)
      | bottom_left ↦ some (box out.x (out.y +ℤ half_h) half_w (out.height -ℤ half_h))
      | bottom_right ↦
          some
            (box (out.x +ℤ half_w) (out.y +ℤ half_h) (out.width -ℤ half_w) (out.height -ℤ half_h))
      | unsnapped ↦ none
    ]

-- `struct snap_detect` (src/input.h).
pub record SnapDetect : Type 0 where
  pub edge : SnapEdge
  pub maximize : Bool
  pub zone : Box

-- A whole number of layout pixels, in 256ths.
abbrev pub pixels : ℤ → ℤ
pixels n = n *ℤ pos 256

abbrev pub no_snap : SnapDetect
no_snap = record {
  edge = unsnapped;
  maximize = false;
  zone = record { x = pos 0; y = pos 0; width = pos 0; height = pos 0 };
}

snapped : SnapEdge → Box → SnapDetect
snapped edge zone = record { edge = edge; maximize = false; zone = zone }

-- The ladder of tests, over which sides of the output the cursor touches.
unfoldable pub snap_for : Bool → Bool → Bool → Bool → Box → SnapDetect
unfolding snapped
snap_for at_left at_right at_top at_bottom ua =
    let half_w = ua.width /ℤ 2 in
    let half_h = ua.height /ℤ 2 in
    if at_left && at_top
    then snapped top_left (box ua.x ua.y half_w half_h)
    else if at_right && at_top
    then snapped top_right (box (ua.x +ℤ half_w) ua.y (ua.width -ℤ half_w) half_h)
    else if at_left && at_bottom
    then snapped bottom_left (box ua.x (ua.y +ℤ half_h) half_w (ua.height -ℤ half_h))
    else if at_right && at_bottom
    then snapped bottom_right
        (box (ua.x +ℤ half_w) (ua.y +ℤ half_h) (ua.width -ℤ half_w) (ua.height -ℤ half_h))
    else if at_left
    then snapped left (box ua.x ua.y half_w ua.height)
    else if at_right
    then snapped right (box (ua.x +ℤ half_w) ua.y (ua.width -ℤ half_w) ua.height)
    else if at_top
    then record { edge = unsnapped; maximize = true; zone = box ua.x ua.y ua.width ua.height }
    else no_snap

-- `detect_snap`. A cursor on no side falls through the ladder to the same result as the early return.
unfoldable pub detect_snap : Wlroots → Server → SnapDetect
detect_snap w s = elim (w.output_at s.calls s.cursor_x s.cursor_y) [
  | none ↦ no_snap
  | some out ↦
      let ob = w.get_box s.calls (some out) in
      snap_for (leb_ℤ s.cursor_x (pixels (ob.x +ℤ pos 1)))
        (leb_ℤ (pixels (ob.x +ℤ ob.width -ℤ pos 2)) s.cursor_x)
        (leb_ℤ s.cursor_y (pixels (ob.y +ℤ pos 1)))
        (leb_ℤ (pixels (ob.y +ℤ ob.height -ℤ pos 2)) s.cursor_y) (usable_area w s (some out))
]
