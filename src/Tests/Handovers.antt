-- ===== src/Tests/Handovers.antt =====
-- The theorems on layer surfaces, dropped windows and clicks on a title bar, on the small desktop.
use steppewm.Deco.{is_double_click}
use steppewm.Deco.Clicks.{press, press-release_button-press}
use steppewm.State.{unsnapped}
use steppewm.Base.{pos, ◌+ℤ◌, ◌-ℤ◌, ◌*ℤ◌, true, false, none, some, ◌≡◌, refl, arith}
use steppewm.Wlr.{toplevel, layer}
use steppewm.State.{Server, CursorMode}
use steppewm.Output.{usable_area, taskbar_height}
use steppewm.Snap.{detect_snap, snap_for}
use steppewm.Layer.{on_map, on_unmap}
use steppewm.Layer.Handback.{on_unmap-on_map}
use steppewm.Grab.{release_button}
use steppewm.Window.{deco_x, deco_y}
use steppewm.Grab.Resize.{requested_width, requested_height}
use steppewm.Grab.Drop.{release_button-zone}
use steppewm.Tests.{wlr, seat, layout, keyboard, desk, last_focus}

on_unmap-on_map_example :
    let t = on_map wlr true 50 desk in
    let r = on_unmap wlr 50 t in
    (last_focus t.calls ≡ some (layer 50))
    × (r.focused_layer ≡ none)
    × (last_focus r.calls ≡ some (toplevel 1))
on_unmap-on_map_example = on_unmap-on_map seat keyboard 50 desk refl

-- Window 2 is being moved, and the cursor is at the left edge.
abbrev dragging : Server
dragging = record desk { cursor_x = pos 0; grab = record desk.grab { mode = CursorMode.move } }

release_button-zone_example :
    let d = detect_snap wlr dragging in
    let r = release_button wlr dragging in
    let o = r.store 2 in
    (o.x ≡ d.zone.x)
    × (o.y ≡ d.zone.y)
    × (o.snapped ≡ d.edge)
    × (requested_width 2 r.calls ≡ d.zone.width -ℤ pos 2 *ℤ deco_x 2 dragging)
    × (requested_height 2 r.calls ≡ d.zone.height -ℤ deco_y 2 dragging -ℤ deco_x 2 dragging)
unfolding detect_snap snap_for usable_area taskbar_height ◌+ℤ◌ ◌-ℤ◌ ◌*ℤ◌
release_button-zone_example = release_button-zone wlr 2 dragging layout refl refl refl refl refl

press-release_button-press_example :
    let r = press wlr 1200 2 (release_button wlr (press wlr 1000 2 desk)) in
    let o = r.store 2 in
    (o.maximized ≡ true)
    × (o.fullscreen ≡ false)
    × (o.snapped ≡ unsnapped)
    × (r.titlebar_last_click_view ≡ none)
unfolding is_double_click detect_snap snap_for usable_area taskbar_height ◌+ℤ◌ ◌-ℤ◌ ◌*ℤ◌
press-release_button-press_example =
    press-release_button-press wlr 1000 1200 2 desk layout refl refl refl (omega arith) refl refl
