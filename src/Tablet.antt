-- ===== src/Tablet.antt =====
-- The events of a tablet's tool and of its pad: src/tablet.cc. Where the tool stands on the tablet is known by what a
-- length of the layout scales to; what is under the pointer in the scene is an argument.
pub mod Focused
use steppewm.Base.{
  ℕ, ℤ, pos, ◌+ℤ◌, leb_ℤ, Bool, true, false, ◌||◌, Option, none, some, List, [], ◌∷◌, ◌==◌,
  if◌then◌else◌,
}
use steppewm.Wlr.{
  Wlroots, Surface, ToolEvent, tool_motion, tool_pressure, tool_distance, tool_tilt, tool_rotation,
  tool_slider, tool_wheel, tool_down, tool_up, tool_proximity_in, tool_proximity_out, tool_button,
  pad_button, pad_ring, pad_strip, tablet_notify, cursor_warp, pointer_enter_tip,
  pointer_motion_tip, pointer_notify_button,
}
use steppewm.State.{Server, emit}
use steppewm.Snap.{pixels}
use steppewm.View.{focus_surface}
use steppewm.Deco.{btn_left}
use steppewm.Taskbar.{Metrics}
use steppewm.Pointer.{Under, Tray, Pointing}
use steppewm.Pointer.Motion.{Constraints, process_cursor_motion}

-- A place on the tablet: a length, times the fraction of the tablet's width or height, in 256ths.
pub record Place : Type 0 where
  pub across : ℤ → ℤ
  pub down : ℤ → ℤ

-- `WLR_TABLET_TOOL_AXIS_*`.
pub data Axis : Type 0 where
  axis_x axis_y pressure distance tilt_x tilt_y rotation slider wheel : Axis

-- The tool of a tablet, in the protocol and in wlroots, with the server and the `data` of the tools of wlroots.
pub record Tool : Type 0 where
  pub pointing : Pointing
  pub wlr_tool : Option ℕ
  pub tool_v2 : Option ℕ
  pub tool_data : ℕ → Option ℕ

abbrev pub on_server : (Server → Server) → Tool → Tool
on_server f t = record t { pointing = record t.pointing { srv = f t.pointing.srv } }

-- A call for the tool in the protocol, if it is there.
abbrev pub notify : ToolEvent → Tool → Tool
notify e t = elim t.tool_v2 [ none ↦ t | some v2 ↦ on_server (emit (tablet_notify v2 e)) t ]

abbrev pub notify_if : Bool → ToolEvent → Tool → Tool
notify_if b e t = if b then notify e t else t

-- The calls of `handle_axis` for the axes that changed.
unfoldable pub notify_axes : (Axis → Bool) → Tool → Tool
notify_axes updated t = notify_if (updated wheel) tool_wheel (
    notify_if (updated slider) tool_slider (
      notify_if (updated rotation) tool_rotation (
        notify_if (updated tilt_x || updated tilt_y) tool_tilt (
          notify_if (updated distance) tool_distance (
            notify_if (updated pressure) tool_pressure
              (notify_if (updated axis_x || updated axis_y) tool_motion t))))))

-- `tablet_tool::handle_button`.
unfoldable pub handle_button : ℕ → Bool → Tool → Tool
handle_button button pressed t = notify (tool_button button pressed) t

-- `tablet_pad::handle_button`, `handle_ring` and `handle_strip`, for the pad in the protocol.
unfoldable pub handle_pad_button : ℕ → ℕ → Bool → Server → Server
handle_pad_button pad button pressed s = emit (tablet_notify pad (pad_button button pressed)) s

unfoldable pub handle_ring : ℕ → ℕ → Bool → Server → Server
handle_ring pad ring finger s = emit (tablet_notify pad (pad_ring ring finger)) s

unfoldable pub handle_strip : ℕ → ℕ → Bool → Server → Server
handle_strip pad strip finger s = emit (tablet_notify pad (pad_strip strip finger)) s

module _ (w : Wlroots) (m : Metrics) (k : Constraints) (tray : Option Tray) (scene : Server → Under)
    (inside : ℤ → ℤ → Bool) where
  -- `map_to_layout`.
  unfoldable pub map_to_layout : Place → Server → ℤ × ℤ
  map_to_layout place s =
      let box = w.get_box s.calls none in
      if leb_ℤ box.width (pos 0) || leb_ℤ box.height (pos 0)
      then (pos 0, pos 0)
      else (pixels box.x +ℤ place.across box.width, pixels box.y +ℤ place.down box.height)

  -- `wlr_cursor_warp`, which moves the cursor if the place is inside of an output.
  unfoldable pub warp_cursor : ℤ × ℤ → Server → Server
  warp_cursor (x, y) s =
      let s1 = emit (cursor_warp x y) s in
      if inside x y then record s1 { cursor_x = x; cursor_y = y } else s1

  -- How every event of the tool begins.
  unfoldable pub move_to : Place → Tool → Tool
  move_to place t =
      let p = t.pointing in
      let s = warp_cursor (map_to_layout place p.srv) p.srv in
      record t { pointing = process_cursor_motion w m k tray (scene s) (record p { srv = s }) }

  -- `handle_axis`.
  unfoldable pub handle_axis : Place → (Axis → Bool) → Tool → Tool
  handle_axis place updated t = notify_axes updated (move_to place t)

  abbrev pub accepted : (Surface → Bool) → Option Surface → Option Surface
  accepted accepts none = none
  accepted accepts (some x) = if accepts x then some x else none

  -- The protocol's tool for that of wlroots: the one that it has, or a new one at `fresh`.
  unfoldable pub adopt_tool : ℕ → ℕ → Tool → Tool
  adopt_tool tool fresh t = elim (t.tool_data tool) [
    | some v2 ↦ record t { tool_v2 = some v2 }
    | none ↦ record t {
      tool_v2 = some fresh;
      tool_data = λ i. if i == tool then some fresh else t.tool_data i;
    }
  ]

  unfoldable pub enter_proximity : (Surface → Bool) → ℕ → ℕ → Tool → Tool
  enter_proximity accepts tool fresh t =
      let s = t.pointing.srv in
      notify (tool_proximity_in (accepted accepts (scene s).surface)) (adopt_tool tool fresh t)

  unfoldable pub leave_proximity : Tool → Tool
  leave_proximity t = record (notify tool_proximity_out t) { tool_v2 = none; wlr_tool = none }

  -- `handle_proximity`; `accepts` is `wlr_surface_accepts_tablet_v2`.
  unfoldable pub handle_proximity : (Surface → Bool) → ℕ → ℕ → Bool → Place → Tool → Tool
  handle_proximity accepts tool fresh entered place t =
      let t1 = move_to place (record t { wlr_tool = some tool }) in
      if entered then enter_proximity accepts tool fresh t1 else leave_proximity t1

  -- The tip is down, over a surface or over none: the window under it is focused, and gets a press of the left button.
  unfoldable pub focus_under : Option ℕ → Option Surface → Server → Server
  focus_under (some v) (some x) s = focus_surface w v x s
  focus_under _ _ s = s

  unfoldable pub press_tip : Under → Server → Server
  press_tip under s =
      let s1 = emit (pointer_enter_tip under.surface) (focus_under under.view under.surface s) in
      emit (pointer_notify_button btn_left true) (emit pointer_motion_tip s1)

  unfoldable pub tip_on : Bool → Tool → Tool
  tip_on is_down t =
      let down = on_server (press_tip (scene t.pointing.srv)) t in
      let up = on_server (emit (pointer_notify_button btn_left false)) t in
      if is_down then notify tool_down down else notify tool_up up

  -- `handle_tip`.
  unfoldable pub handle_tip : Bool → Place → Tool → Tool
  handle_tip is_down place t =
      let t1 = move_to place t in elim t1.tool_v2 [ none ↦ t1 | some v2 ↦ tip_on is_down t1 ]
