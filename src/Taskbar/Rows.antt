-- ===== src/Taskbar/Rows.antt =====
-- Where everything on the bar stands: `taskbar::layout`, `update_geometry`, the `render_*` methods as far
-- as they place their node, and the methods that end in `layout` (src/taskbar.cc).
use Prim.Native.String.{String}
use steppewm.Base.{
  ◌++◌, ℕ, zero, suc, ℤ, pos, ◌+◌, ◌+ℤ◌, ◌-ℤ◌, ◌*ℤ◌, ◌/ℤ◌, ltb_ℤ, leb_ℤ, ltb, Bool, true, false,
  not, ◌&&◌, ◌||◌, Option, none, some, List, [], ◌∷◌, ◌==◌, if◌then◌else◌, is_some, points_to, any,
  filter, length,
}
use steppewm.Wlr.{Wlroots}
use steppewm.State.{View, Config, Server, num_workspaces, bottom, top}
use steppewm.Dispatch.{window_of}
use steppewm.Taskbar.{Button, Slot, Indicator, Taskbar, Metrics}
use steppewm.Taskbar.Slots.{fill_slots}

-- `height_ - 2 * pad`.
abbrev pub inner_h : Config → Taskbar → ℤ
inner_h cfg t = t.height -ℤ pos 2 *ℤ cfg.taskbar_button_pad

abbrev pub at_least_1 : ℤ → ℤ
at_least_1 n = if ltb_ℤ n (pos 1) then pos 1 else n

-- A text of the given width goes to the left of `base`; on a bar that is too low it stays as it was.
unfoldable pub put_text : Config → Taskbar → ℤ → ℤ → Indicator → Indicator
put_text cfg t base text i =
    let h = inner_h cfg t in
    let w = text +ℤ h in
    let node_x = base -ℤ (w +ℤ cfg.taskbar_button_pad) in
    if leb_ℤ h (pos 0) || leb_ℤ w (pos 0)
    then i
    else record { w = w; node_x = node_x; shown = true; x = node_x +ℤ t.x }

-- The same for a text that may be missing.
unfoldable pub put_reading : Config → Taskbar → ℤ → Option ℤ → Indicator → Indicator
put_reading cfg t base none i = record i { w = pos 0; shown = false }
put_reading cfg t base (some text) i = put_text cfg t base text i

-- The room that an indicator takes.
unfoldable pub left_of : Config → Indicator → ℤ → ℤ
left_of cfg i base = if ltb_ℤ (pos 0) i.w then base -ℤ (i.w +ℤ cfg.taskbar_button_pad) else base

-- What is left of the clock and the layout indicator, and then of the others.
unfoldable pub after_layout_ind : Config → Taskbar → ℤ
after_layout_ind cfg t =
    t.width -ℤ t.clock.w -ℤ cfg.taskbar_button_pad -ℤ t.layout_ind.w -ℤ cfg.taskbar_button_pad

unfoldable pub after_battery : Config → Taskbar → ℤ
after_battery cfg t = left_of cfg t.battery (after_layout_ind cfg t)

unfoldable pub after_brightness : Config → Taskbar → ℤ
after_brightness cfg t = left_of cfg t.brightness (after_battery cfg t)

unfoldable pub after_volume : Config → Taskbar → ℤ
after_volume cfg t = left_of cfg t.volume (after_brightness cfg t)

unfoldable pub after_idle : Config → Taskbar → ℤ
after_idle cfg t = left_of cfg t.idle_ind (after_volume cfg t)

unfoldable pub render_clock : Config → Metrics → Taskbar → Taskbar
render_clock cfg m t = record t { clock = put_text cfg t t.width m.clock_text t.clock }

unfoldable pub render_layout_indicator : Config → Metrics → Taskbar → Taskbar
render_layout_indicator cfg m t = record t {
  layout_ind =
      put_text cfg t (t.width -ℤ t.clock.w -ℤ cfg.taskbar_button_pad) m.layout_text t.layout_ind;
}

unfoldable pub render_battery : Config → Metrics → Taskbar → Taskbar
render_battery cfg m t = record t {
  battery = put_reading cfg t (after_layout_ind cfg t) m.battery_text t.battery;
}

unfoldable pub render_brightness : Config → Metrics → Taskbar → Taskbar
render_brightness cfg m t = record t {
  brightness = put_reading cfg t (after_battery cfg t) m.brightness_text t.brightness;
}

unfoldable pub render_volume : Config → Metrics → Taskbar → Taskbar
render_volume cfg m t = record t {
  volume = put_reading cfg t (after_brightness cfg t) m.volume_text t.volume;
}

unfoldable pub render_idle_indicator : Config → Metrics → Taskbar → Taskbar
render_idle_indicator cfg m t = record t {
  idle_ind = put_text cfg t (after_volume cfg t) m.idle_text t.idle_ind;
}

-- `render_tray`, for the number of items.
unfoldable pub put_tray : Config → Option ℕ → Taskbar → Taskbar
put_tray cfg none t = record t { tray_total_w = pos 0 }
put_tray cfg (some zero) t = record t { tray_total_w = pos 0 }
put_tray cfg (some (suc n)) t =
    let total = pos (suc n) *ℤ (at_least_1 (inner_h cfg t) +ℤ cfg.taskbar_button_pad) in
    record t { tray_total_w = total; tray_x = t.x +ℤ after_idle cfg t -ℤ total }

unfoldable pub render_indicators : Config → Metrics → Taskbar → Taskbar
render_indicators cfg m t = put_tray cfg m.tray_items (
    render_idle_indicator cfg m (
      render_volume cfg m (
        render_brightness cfg m
          (render_battery cfg m (render_layout_indicator cfg m (render_clock cfg m t))))))

-- The loop over the workspace labels: the places of the first `n`, from `cursor_x` on, and where it ends.
unfoldable pub label_places : ℕ → ℤ → ℤ → ℤ → List ℤ
label_places zero cursor_x w pad = []
label_places (suc n) cursor_x w pad = cursor_x ∷ label_places n (cursor_x +ℤ (w +ℤ pad)) w pad

unfoldable pub after_labels : ℕ → ℤ → ℤ → ℤ → ℤ
after_labels zero cursor_x w pad = cursor_x
after_labels (suc n) cursor_x w pad = after_labels n (cursor_x +ℤ (w +ℤ pad)) w pad

-- How many labels are shown.
abbrev pub shown_labels : ℕ → ℕ
shown_labels max_visible =
    if ltb max_visible num_workspaces then max_visible + 1 else num_workspaces

-- "calculate each window button width": `room` for `n` window buttons.
unfoldable pub window_button_w : Config → ℤ → ℕ → ℤ
window_button_w cfg room zero = pos 1
window_button_w cfg room (suc n) =
    let share = (room -ℤ pos (suc n) *ℤ cfg.taskbar_button_pad) /ℤ suc n in
    at_least_1 (if ltb_ℤ cfg.taskbar_button_w share then cfg.taskbar_button_w else share)

-- "draw each slot": windows and launchers from left to right.
unfoldable pub place_slots : ℤ → ℤ → ℤ → ℤ → List Slot → List Slot
place_slots cx button_w pin_w pad [] = []
place_slots cx button_w pin_w pad (s ∷ ss) =
    let w = if is_some s.v then button_w else pin_w in
    record s { x = cx; w = w } ∷ place_slots (cx +ℤ (w +ℤ pad)) button_w pin_w pad ss

abbrev pub is_launcher : Slot → Bool
is_launcher s = not (is_some s.v) && is_some s.pin_idx

-- The right end of the task row.
unfoldable pub right_limit : Config → Taskbar → ℤ
right_limit cfg t =
    if ltb_ℤ (pos 0) t.tray_total_w then after_idle cfg t -ℤ t.tray_total_w else after_idle cfg t

-- A window of the row is urgent and not focused.
unfoldable pub is_flashing : (ℕ → View) → Option ℕ → Slot → Bool
is_flashing st focused s = elim s.v [
  | none ↦ false
  | some v ↦ not (points_to focused v) && (st v).urgent
]

-- The width of a window's button in the row that starts at `left`.
unfoldable pub row_button_w : Config → ℤ → List Slot → Taskbar → ℤ
row_button_w cfg left slots t =
    let pad = cfg.taskbar_button_pad in
    let launchers = length (filter is_launcher slots) in
    let pins_w = pos launchers *ℤ (at_least_1 (inner_h cfg t) +ℤ pad) in
    let room = right_limit cfg t -ℤ pad -ℤ left -ℤ pins_w in
    window_button_w cfg room (length (filter (λ s. not (is_launcher s)) slots))

-- The rest of `layout` once the slots are filled: their places, and the urgent timer.
unfoldable pub place_row : Config → (ℕ → View) → Option ℕ → ℤ → List Slot → Taskbar → Taskbar
place_row cfg st focused left slots t =
    let button_w = row_button_w cfg left slots t in
    let urgent = any (is_flashing st focused) slots in
    record t {
      slots = place_slots left button_w (at_least_1 (inner_h cfg t)) cfg.taskbar_button_pad slots;
      button_w = button_w;
      urgent_armed = urgent || t.urgent_armed;
      urgent_flash_on = not urgent || t.urgent_flash_on;
    }

unfoldable pub fill_row : Config → (ℕ → View) → Option ℕ → ℤ → List Slot → Taskbar → Taskbar
fill_row cfg st focused left [] t = record t { slots = [] }
fill_row cfg st focused left (s ∷ ss) t = place_row cfg st focused left (s ∷ ss) t

-- The labels, and the task row after them.
unfoldable pub lay_out_rows : (ℕ → View) → Config → ℕ → ℕ → Option ℕ → Taskbar → Taskbar
lay_out_rows st cfg current max_visible focused t =
    let pad = cfg.taskbar_button_pad in
    let button_h = at_least_1 (inner_h cfg t) in
    let n = shown_labels max_visible in
    let t1 = record t { ws_button_w = button_h; ws_labels = label_places n pad button_h pad } in
    fill_row cfg st focused (after_labels n pad button_h pad +ℤ pos 6)
      (fill_slots cfg st current t.buttons) t1

module _ (w : Wlroots) (m : Metrics) where
  -- `taskbar::layout`.
  unfoldable pub layout : Server → Taskbar → Taskbar
  layout s t =
      if leb_ℤ t.width (pos 0) || leb_ℤ t.height (pos 0)
      then t
      else lay_out_rows s.store s.cfg s.current_workspace s.max_visible_workspace
          (window_of s.store (w.focused_surface s.calls)) (render_indicators s.cfg m t)

  -- `taskbar::view_added`, with the window's app id, and `view_removed`.
  unfoldable pub view_added : Option String → ℕ → Server → Taskbar → Taskbar
  view_added app_id v s t =
      layout s (record t { buttons = t.buttons ++ (record { v = v; app_id = app_id } ∷ []) })

  unfoldable pub without_button : ℕ → List Button → List Button
  without_button v [] = []
  without_button v (b ∷ bs) = let rest = without_button v bs in if b.v == v then bs else b ∷ rest

  unfoldable pub view_removed : ℕ → Server → Taskbar → Taskbar
  view_removed v s t =
      if any (λ b. b.v == v) t.buttons
      then layout s (record t { buttons = without_button v t.buttons })
      else t

  -- `taskbar::refresh`; the background is drawing.
  unfoldable pub refresh : Server → Taskbar → Taskbar
  refresh s t = layout s t

  -- `taskbar::update_geometry` on the output `out`.
  unfoldable pub update_geometry : ℕ → Server → Taskbar → Taskbar
  update_geometry out s t =
      let b = w.get_box s.calls (some out) in
      let h = s.cfg.taskbar_h in
      let y : ℤ = elim s.cfg.taskbar_position [ top ↦ b.y | bottom ↦ b.y +ℤ b.height -ℤ h ] in
      if leb_ℤ b.width (pos 0) || leb_ℤ b.height (pos 0)
      then t
      else layout s (record t { x = b.x; width = b.width; height = h; y = y })

  -- `taskbar::urgent_tick`.
  unfoldable pub urgent_tick : Server → Taskbar → Taskbar
  urgent_tick s t =
      layout s (record t { urgent_flash_on = not t.urgent_flash_on; urgent_armed = false })
