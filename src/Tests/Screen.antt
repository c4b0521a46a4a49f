-- ===== src/Tests/Screen.antt =====
-- The theorems on snap zones, pointer grabs, placement, taskbars and idle inhibitors, on the small
-- desktop.
use steppewm.Base.{
  pos, ◌+ℤ◌, ◌*ℤ◌, ◌≤ℤ◌, ◌+◌, ◌≤◌, ◌&&◌, ◌==◌, true, false, some, ◌≡◌, ◌≢◌, refl, int_laws,
}
use steppewm.Wlr.{Box, toplevel}
use steppewm.State.{
  Inhibitor, unsnapped, left, right, top_left, top_right, bottom_left, bottom_right, is_shown,
}
use steppewm.Snap.{box, edge_left, edge_right, edge_top, edge_bottom, snap_zone, snap_for}
use steppewm.Snap.Zones.{hits, snap_zone_tiles, snap_for-snap_zone}
use steppewm.Output.Modes.{Mode, ModeConfig}
use steppewm.Base.{ℕ, ◌-ℤ◌}
use steppewm.Idle.{visible}
use steppewm.Idle.Shown.{visible-is_shown}
use steppewm.Placement.{get_box, place_in, max_offset}
use steppewm.Placement.Bounds.{place_in_fits}
use steppewm.Grab.{has_edge, to_pixels, process_cursor_resize}
use steppewm.Grab.Resize.{
  IsResized, content_left, content_top, requested_width, requested_height,
  process_cursor_resize-IsResized,
}
use steppewm.Tests.{desk}

-- An odd size, with a point right of the middle.
abbrev odd_area : Box
odd_area = box (pos 0) (pos 30) (pos 1367) (pos 767)

snap_zone_tiles_example :
    (hits (pos 683) (pos 100) (snap_zone left odd_area)
        + hits (pos 683) (pos 100) (snap_zone right odd_area)
      ≡ 1)
    × (hits (pos 683) (pos 100) (snap_zone top_left odd_area)
          + hits (pos 683) (pos 100) (snap_zone top_right odd_area)
          + hits (pos 683) (pos 100) (snap_zone bottom_left odd_area)
          + hits (pos 683) (pos 100) (snap_zone bottom_right odd_area)
        ≡ 1)
unfolding ◌+ℤ◌
snap_zone_tiles_example = snap_zone_tiles (pos 683) (pos 100) odd_area refl

snap_for-snap_zone_example :
    let d = snap_for true false true false odd_area in
    (d.edge ≢ unsnapped → snap_zone d.edge odd_area ≡ some d.zone)
    × (d.maximize ≡ true → (d.edge ≡ unsnapped) × (d.zone ≡ odd_area))
snap_for-snap_zone_example = snap_for-snap_zone true false true false odd_area

process_cursor_resize-IsResized_example :
    let r = process_cursor_resize 2 desk in
    let g = desk.grab in
    IsResized
      (has_edge g.resize_edges edge_left)
      (has_edge g.resize_edges edge_right)
      (to_pixels (desk.cursor_x -ℤ g.grab_x))
      g.geobox.x
      g.geobox.width
      (content_left 2 r)
      (requested_width 2 r.calls)
    × IsResized
        (has_edge g.resize_edges edge_top)
        (has_edge g.resize_edges edge_bottom)
        (to_pixels (desk.cursor_y -ℤ g.grab_y))
        g.geobox.y
        g.geobox.height
        (content_top 2 r)
        (requested_height 2 r.calls)
process_cursor_resize-IsResized_example =
    process_cursor_resize-IsResized 2 desk (omega int_laws) (omega int_laws)

abbrev work_area : Box
work_area = box (pos 0) (pos 0) (pos 1920) (pos 1050)

place_in_fits_example :
    let r = place_in work_area 2 desk in
    let o = r.store 2 in
    (work_area.x ≤ℤ o.x)
    × (o.x +ℤ (get_box 2 desk).width ≤ℤ work_area.x +ℤ work_area.width)
    × (work_area.y ≤ℤ o.y)
    × (o.y +ℤ (get_box 2 desk).height ≤ℤ work_area.y +ℤ work_area.height)
    × (r.cascade_x ≤ max_offset work_area.width (get_box 2 desk).width)
unfolding get_box ◌+ℤ◌ ◌*ℤ◌
place_in_fits_example = place_in_fits work_area 2 desk (omega int_laws) (omega int_laws)

abbrev video : Inhibitor
video = record { address = 40; surface = toplevel 3; surface_mapped = true }

visible-is_shown_example :
    ((desk.store 3).pinned ≡ false → visible desk video ≡ is_shown (desk.store 3) 0)
    × ((desk.store 3).pinned ≡ true
        → visible desk video ≡ is_shown (desk.store 3) 0 && (desk.store 3).workspace == 0)
visible-is_shown_example = visible-is_shown desk video 3 refl refl refl refl

-- Two modes of the size that is asked for, and one of another size.
abbrev wanted : ModeConfig
wanted = record { width = 1920; height = 1080; refresh_mhz = pos 75000 }

abbrev mode : ℕ → ℕ → ℕ → Mode
mode width height refresh = record { width = width; height = height; refresh = pos refresh }
