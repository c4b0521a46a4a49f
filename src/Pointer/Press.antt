-- ===== src/Pointer/Press.antt =====
-- Buttons and the wheel: `server::on_cursor_button` and `on_cursor_axis` of src/input.cc.
use Prim.Native.String.{String}
use text.Mathlib.Text.{◌==◌ as str_eq}
use Prim.Native.Nat.{bit_or}
use steppewm.Base.{
  ℕ, pos, ◌+ℤ◌, ◌*ℤ◌, ltb_ℤ, Bool, false, not, ◌&&◌, Option, none, some, List, [], ◌∷◌, ◌==◌,
  if◌then◌else◌, get_elem?,
}
use steppewm.Wlr.{
  Wlroots, spawn, notify_activity, pointer_notify_button, pointer_notify_axis, tray_close_menu,
  tray_menu_click, tray_activate, tray_secondary_activate, tray_context_menu,
}
use steppewm.State.{Output, Server, CursorMode, emit, refresh_taskbars}
use steppewm.Snap.{pixels, edge_left, edge_right, edge_top, edge_bottom}
use steppewm.Idle.{update_idle}
use steppewm.View.{focus}
use steppewm.Workspace.{workspace_switch}
use steppewm.Grab.{has_edge, cursor_begin_interactive, release_button}
use steppewm.Deco.{DecoNode, btn_left, deco_handle_button}
use steppewm.Taskbar.{Taskbar}
use steppewm.Taskbar.Hits.{
  tray_at, idle_inhibit_at, workspace_at, view_at, pin_at, volume_at, brightness_at,
}
use steppewm.Pointer.{Under, Tray, Commands}

-- BTN_RIGHT and BTN_MIDDLE of linux/input-event-codes.h, and `WLR_MODIFIER_ALT`.
abbrev pub btn_right : ℕ
btn_right = 0x111

abbrev pub btn_middle : ℕ
btn_middle = 0x112

abbrev pub alt : ℕ
alt = 8

-- The edges nearest to the pointer: "right click for resize".
unfoldable pub nearest_edges : ℕ → Server → ℕ
nearest_edges v s =
    let o = s.store v in
    let middle_x = pixels (o.x +ℤ o.geometry.x) +ℤ o.geometry.width *ℤ pos 128 in
    let middle_y = pixels (o.y +ℤ o.geometry.y) +ℤ o.geometry.height *ℤ pos 128 in
    bit_or (if ltb_ℤ s.cursor_x middle_x then edge_left else edge_right)
      (if ltb_ℤ s.cursor_y middle_y then edge_top else edge_bottom)

abbrev pub first_of {ℓ} : {A : Type ℓ} → Option A → Option A → Option A
first_of none b = b
first_of (some a) b = some a

-- The first output whose taskbar answers: a loop over the outputs that skips those without a taskbar.
unfoldable pub ask_bars {ℓ} : {A : Type ℓ} → (ℕ → Option A) → List Output → Option A
ask_bars ask [] = none
ask_bars ask (o ∷ os) =
    let rest = ask_bars ask os in
    if o.output_taskbar then first_of (ask o.wlr_output) rest else rest

-- What a left click on a bar does.
pub data BarAction : Type 0 where
  toggle_inhibit : BarAction
  go_to show launch : ℕ → BarAction

abbrev pub action_of : (ℕ → BarAction) → Option ℕ → Option BarAction
action_of f none = none
action_of f (some n) = some (f n)

-- The ladder of tests on one bar.
unfoldable pub bar_action : Server → Taskbar → Option BarAction
bar_action s t =
    if idle_inhibit_at s.cfg s.cursor_x s.cursor_y t
    then some toggle_inhibit
    else first_of
        (action_of go_to (workspace_at s.cfg s.max_visible_workspace s.cursor_x s.cursor_y t))
        (first_of (action_of show (view_at s.cursor_x s.cursor_y t))
          (action_of launch (pin_at s.cursor_x s.cursor_y t)))

-- A click of a button on an item of the tray.
unfoldable pub click_item : ℕ → ℕ → Server → Server
click_item button i s =
    if button == btn_left
    then emit (tray_activate i) s
    else if button == btn_middle
    then emit (tray_secondary_activate i) s
    else if button == btn_right
    then emit (tray_context_menu i) s
    else s

abbrev pub items_of : Option Tray → Option ℕ
items_of none = none
items_of (some t) = some t.items

unfoldable pub menu_is_open : Option Tray → Bool
menu_is_open none = false
menu_is_open (some t) = t.menu_open

-- A press while the menu of the tray is open.
unfoldable pub press_menu : Option ℕ → ℕ → Server → Server
press_menu none button s = emit tray_close_menu s
press_menu (some i) button s =
    if button == btn_left then emit (tray_menu_click i) s else emit tray_close_menu s

abbrev pub menu_item_of : Option Tray → Option ℕ
menu_item_of none = none
menu_item_of (some t) = t.menu_item

unfoldable pub run_command : Option String → Server → Server
run_command none s = s
run_command (some cmd) s = emit (spawn cmd) s

module _ (w : Wlroots) (c : Commands) where
  -- A press on a window: "alt drag", and the focus.
  unfoldable pub press_view : ℕ → ℕ → ℕ → Server → Server
  press_view mods button v s =
      let s1 = focus w v s in
      if not (has_edge mods alt)
      then s1
      else if button == btn_left
      then cursor_begin_interactive CursorMode.move 0 v s1
      else if button == btn_right
      then cursor_begin_interactive CursorMode.resize (nearest_edges v s1) v s1
      else focus w v s1

  unfoldable pub press_deco : ℕ × DecoNode → ℕ → ℕ → Server → Server
  press_deco (v, node) button time s = (deco_handle_button w node button time v (focus w v s)).0

  -- "if a taskbar item was clicked".
  unfoldable pub run_action : BarAction → Server → Server
  run_action toggle_inhibit s =
      refresh_taskbars
        (update_idle none (record s { idle_inhibit_manual = not s.idle_inhibit_manual }))
  run_action (go_to ws) s = workspace_switch w (pos ws) s
  run_action (show v) s =
      let o = s.store v in
      focus w v (
        if not o.pinned && not (o.workspace == s.current_workspace)
        then workspace_switch w (pos o.workspace) s
        else s)
  run_action (launch i) s = run_command (get_elem? c.pins i) s

  module _ (bars : ℕ → Taskbar) (tray : Option Tray) where
    -- The loop over the bars for the middle button, which does not stop at the first.
    unfoldable pub click_volume : List Output → Server → Server
    click_volume [] s = s
    click_volume (o ∷ os) s =
        let hit = o.output_taskbar && volume_at s.cfg s.cursor_x s.cursor_y (bars o.wlr_output) in
        click_volume os (if hit then emit (spawn c.volume_middle_button) s else s)

    unfoldable pub run_if : Option BarAction → Server → Server
    run_if none s = s
    run_if (some a) s = run_action a s

    unfoldable pub press_bars : ℕ → Option BarAction → Server → Server
    press_bars button action s =
        if button == btn_left
        then run_if action s
        else if button == btn_middle
        then click_volume s.outputs s
        else s

    -- The tray, and then the other items of the bars.
    unfoldable pub press_item : Option ℕ → Option BarAction → ℕ → Server → Server
    press_item none action button s = press_bars button action s
    press_item (some i) action button s = click_item button i s

    -- No window and no decoration is under the pointer.
    unfoldable pub press_rest : ℕ → Server → Server
    press_rest button s =
        press_item
          (ask_bars (λ o. tray_at s.cfg (items_of tray) s.cursor_x s.cursor_y (bars o)) s.outputs)
          (ask_bars (λ o. bar_action s (bars o)) s.outputs) button s

    -- The press of a button in an unlocked session.
    unfoldable pub press_on : Option ℕ → Option (ℕ × DecoNode) → ℕ → ℕ → ℕ → Server → Server
    press_on (some v) deco mods button time s = press_view mods button v s
    press_on none (some hit) mods button time s = press_deco hit button time s
    press_on none none mods button time s = press_rest button s

    unfoldable pub press_button : Under → ℕ → ℕ → ℕ → Server → Server
    press_button under mods button time s =
        if menu_is_open tray
        then press_menu (menu_item_of tray) button s
        else if s.locked
        then s
        else press_on under.view under.deco mods button time s

    -- `on_cursor_button`, with the modifiers of the seat's keyboard (0 without one).
    unfoldable pub on_cursor_button : Under → ℕ → Bool → ℕ → ℕ → Server → Server
    on_cursor_button under mods pressed button time s =
        let s1 = emit (pointer_notify_button button pressed) (emit notify_activity s) in
        if pressed then press_button under mods button time s1 else release_button w s1

    -- The command for the wheel on a bar: of the backlight, or else of the volume.
    unfoldable pub wheel_command : Bool → Server → Taskbar → Option String
    wheel_command up s t =
        if brightness_at s.cfg s.cursor_x s.cursor_y t
        then some (if up then c.brightness_scroll_up else c.brightness_scroll_down)
        else if volume_at s.cfg s.cursor_x s.cursor_y t
        then some (if up then c.volume_scroll_up else c.volume_scroll_down)
        else none

    -- An empty command is not run.
    unfoldable pub run_wheel : Option String → Server → Server
    run_wheel none s = emit pointer_notify_axis s
    run_wheel (some cmd) s = if str_eq cmd "" then s else emit (spawn cmd) s

    -- `on_cursor_axis`; `up` says that the wheel's step is negative.
    unfoldable pub on_cursor_axis : Bool → Bool → Server → Server
    on_cursor_axis vertical up s =
        let s1 = emit notify_activity s in
        let cmd = ask_bars (λ o. wheel_command up s1 (bars o)) s1.outputs in
        run_wheel (if not s1.locked && vertical then cmd else none) s1
