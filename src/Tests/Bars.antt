-- ===== src/Tests/Bars.antt =====
-- The theorems on the taskbar, on a bar with three windows and two pinned apps.
use steppewm.Base.{pos, ◌+ℤ◌, ◌-ℤ◌, ◌*ℤ◌, ◌/ℤ◌, true, false, none, some, [], ◌∷◌, ◌≡◌, refl, arith}
use steppewm.Taskbar.{Slot, Indicator, Taskbar, Metrics}
use steppewm.Dispatch.{window_of}
use steppewm.Taskbar.Slots.{
  fill_slots, claim_pins, claim, has_app, new_slot, unclaimed, unclaimed_slots,
}
use steppewm.Taskbar.Rows.{
  layout, lay_out_rows, fill_row, place_row, render_indicators, put_tray, render_idle_indicator,
  render_volume, render_brightness, render_battery, render_layout_indicator, render_clock,
  after_battery, after_brightness, after_idle, after_labels, after_layout_ind, after_volume,
  is_flashing, label_places, left_of, place_slots, put_reading, put_text, right_limit, row_button_w,
  window_button_w,
}
use steppewm.Taskbar.Hits.{on_bar, view_at, pin_at, workspace_at}
use steppewm.Taskbar.Labels.{label_under, workspace_at-layout}
use steppewm.Taskbar.Places.{layout-hits}
use steppewm.Taskbar.Shown.{shown, layout-shown}
use steppewm.Taskbar.Hits.{idle_inhibit_at, indicator_at, label_at, quotient, slot_at, tray_at}
use steppewm.Wlr.{toplevel}
use steppewm.State.{Server, is_shown}
use steppewm.Base.{ℕ}
use steppewm.Deco.{btn_left}
use steppewm.Pointer.{Under, Commands}
use steppewm.Pointer.Press.{menu_is_open, ask_bars, on_cursor_button}
use steppewm.Pointer.Clicked.{on_cursor_button-show}
use steppewm.Tests.{wlr, desk, seat, keyboard, screen}

abbrev hidden : Indicator
hidden = record { w = pos 0; node_x = pos 0; shown = false; x = pos 0 }

-- The apps of windows 1 and 3 are pinned.
abbrev bar : Taskbar
bar = record {
  x = pos 0;
  y = pos 1050;
  width = pos 1920;
  height = pos 30;
  clock = hidden;
  layout_ind = hidden;
  battery = hidden;
  brightness = hidden;
  volume = hidden;
  idle_ind = hidden;
  tray_total_w = pos 0;
  tray_x = pos 0;
  ws_button_w = pos 0;
  ws_labels = [];
  slots = [];
  buttons =
      record { v = 1; app_id = some "web" }
      ∷ record { v = 2; app_id = some "mail" }
      ∷ record { v = 3; app_id = some "term" }
      ∷ [];
  button_w = pos 0;
  hovered_ws_idx = none;
  hovered_slot_idx = none;
  urgent_flash_on = true;
  urgent_armed = false;
}

abbrev pub metrics : Metrics
metrics = record {
  clock_text = pos 60;
  layout_text = pos 20;
  battery_text = some (pos 40);
  brightness_text = none;
  volume_text = some (pos 30);
  idle_text = pos 10;
  tray_items = some 2;
}

drawn : Taskbar
drawn = layout wlr metrics desk bar

workspace_at-layout_example :
    workspace_at desk.cfg 1 (pos 10240) (pos 271360) (layout wlr metrics desk bar) ≡ some 1
unfolding on_bar layout lay_out_rows fill_row fill_slots claim_pins place_row render_indicators
    put_tray render_idle_indicator render_volume render_brightness render_battery
    render_layout_indicator render_clock window_of after_battery after_brightness after_idle
    after_labels after_layout_ind after_volume is_flashing label_places left_of place_slots
    put_reading put_text right_limit row_button_w window_button_w claim has_app new_slot unclaimed
    unclaimed_slots ◌+ℤ◌ ◌-ℤ◌ ◌*ℤ◌ ◌/ℤ◌ label_under
workspace_at-layout_example =
    workspace_at-layout wlr metrics desk bar 2 38 (pos 10240) (pos 271360) refl refl (omega arith)
      refl refl

abbrev second_slot : Slot
second_slot = record { v = some 1; pin_idx = some 1; x = pos 216; w = pos 150 }

layout-hits_example :
    let r = layout wlr metrics desk bar in
    (view_at (pos 76800) (pos 271360) r ≡ some 1) × (pin_at (pos 76800) (pos 271360) r ≡ none)
unfolding on_bar layout lay_out_rows fill_row fill_slots claim_pins place_row render_indicators
    put_tray render_idle_indicator render_volume render_brightness render_battery
    render_layout_indicator render_clock window_of after_battery after_brightness after_idle
    after_labels after_layout_ind after_volume is_flashing label_places left_of place_slots
    put_reading put_text right_limit row_button_w window_button_w claim has_app new_slot unclaimed
    unclaimed_slots ◌+ℤ◌ ◌-ℤ◌ ◌*ℤ◌ ◌/ℤ◌
layout-hits_example =
    layout-hits wlr metrics desk bar 1 second_slot (pos 76800) (pos 271360) refl (omega arith) refl
      refl refl

layout-shown_example : shown 2 (layout wlr metrics desk bar).slots ≡ 1
layout-shown_example = layout-shown wlr metrics desk bar 2 refl refl

-- The pointer is on the slot of window 3, which is on workspace 1.
abbrev pointing : Server
pointing = record desk { cursor_y = pos 271360 }

abbrev pub nowhere : Under
nowhere = record { view = none; surface = none; deco = none }

abbrev pub commands : Commands
commands = record {
  pins = "foot" ∷ "browser" ∷ [];
  brightness_scroll_up = "";
  brightness_scroll_down = "";
  volume_scroll_up = "";
  volume_scroll_down = "";
  volume_middle_button = "mute";
}

abbrev pub bars : ℕ → Taskbar
bars i = layout wlr metrics desk bar

on_cursor_button-show_example :
    let r = on_cursor_button wlr commands bars none nowhere 0 true btn_left 1000 pointing in
    (wlr.focused_surface r.calls ≡ some (toplevel 3))
    × (is_shown (r.store 3) r.current_workspace ≡ true)
    × ((r.store 3).workspace ≡ (pointing.store 3).workspace)
    × ((r.store 3).pinned ≡ (pointing.store 3).pinned)
unfolding on_bar layout lay_out_rows fill_row fill_slots claim_pins place_row render_indicators
    put_tray render_idle_indicator render_volume render_brightness render_battery
    render_layout_indicator render_clock window_of after_battery after_brightness after_idle
    after_labels after_layout_ind after_volume is_flashing label_places left_of place_slots
    put_reading put_text right_limit row_button_w window_button_w claim has_app new_slot unclaimed
    unclaimed_slots ◌+ℤ◌ ◌-ℤ◌ ◌*ℤ◌ ◌/ℤ◌ menu_is_open ask_bars tray_at idle_inhibit_at indicator_at
    workspace_at label_at quotient view_at slot_at
on_cursor_button-show_example =
    on_cursor_button-show wlr seat keyboard commands bars none nowhere 0 1000 3 pointing screen []
      refl refl refl refl refl refl refl refl refl refl refl (omega arith)
