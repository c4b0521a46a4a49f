-- ===== src/Keyboard.antt =====
-- Keyboard events: `keyboard::handle_key` and `keyboard::handle_modifiers` of src/input.cc. The symbols of a key are
-- those that xkbcommon gives; a text is a list of bytes.
use steppewm.Base.{
  ℕ, ℤ, zero, suc, ◌+◌, ◌-◌, leb, Bool, true, false, not, ◌&&◌, ◌||◌, Option, List, [], ◌∷◌, ◌==◌,
  if◌then◌else◌, is_some,
}
use Prim.Native.String.{String}
use steppewm.Wlr.{
  Wlroots, Surface, notify_activity, seat_set_keyboard, keyboard_notify_modifiers,
  keyboard_notify_key, session_change_vt, osd_show_text, tray_close_menu,
}
use steppewm.Wlr.Seat.{is_surface}
use steppewm.State.{Server, emit, emit_if, refresh_taskbars}
use steppewm.Switcher.{cancel}
use steppewm.Switcher.Commit.{handle_modifiers}
use steppewm.Lock.{LockSurface, ensure_focus}
use steppewm.Dispatch.{Keybind, run_key}

-- `XKB_KEY_XF86Switch_VT_1` and `_12`, and `XKB_KEY_Escape`.
abbrev pub switch_vt_1 : ℕ
switch_vt_1 = 0x1008fe01

abbrev pub switch_vt_12 : ℕ
switch_vt_12 = 0x1008fe0c

abbrev pub escape : ℕ
escape = 0xff1b

-- A client's inhibitor of shortcuts.
abbrev pub Shortcuts : Type 0
Shortcuts = List (Bool × Surface)

-- A key event: the symbols with the level of the modifiers and without, and the modifiers.
pub record Key : Type 0 where
  pub keycode : ℕ
  pub pressed : Bool
  pub syms : List ℕ
  pub raw_syms : List ℕ
  pub modifiers : ℕ

abbrev pub is_vt : ℕ → Bool
is_vt sym = leb switch_vt_1 sym && leb sym switch_vt_12

-- The loop over the symbols that switches the virtual terminal, and whether one did.
unfoldable pub switch_vts : Bool → List ℕ → Server × Bool → Server × Bool
switch_vts session [] r = r
switch_vts session (sym ∷ syms) (s, handled) = switch_vts session syms (
    if is_vt sym
    then (emit_if session (session_change_vt (sym - switch_vt_1 + 1)) s, true)
    else (s, handled))

-- The loops over the symbols that act on escape, and whether one did.
unfoldable pub on_escape : (Server → Server) → List ℕ → Server × Bool → Server × Bool
on_escape act [] r = r
on_escape act (sym ∷ syms) (s, handled) =
    on_escape act syms (if sym == escape then (act s, true) else (s, handled))

-- "escape cancels an alt tab without changing focus".
unfoldable pub escape_switcher : List ℕ → Server × Bool → Server × Bool
escape_switcher syms (s, handled) =
    if not handled && is_some s.sw then on_escape cancel syms (s, handled) else (s, handled)

-- Escape closes the menu of the tray.
unfoldable pub escape_menu : Bool → List ℕ → Server × Bool → Server × Bool
escape_menu menu_open syms (s, handled) =
    if not handled && menu_open
    then on_escape (emit tray_close_menu) syms (s, handled)
    else (s, handled)

-- An active inhibitor is that of the focused surface.
unfoldable pub shortcuts_inhibited : Option Surface → Shortcuts → Bool
shortcuts_inhibited focused [] = false
shortcuts_inhibited focused ((active, surface) ∷ is) =
    active && is_surface focused surface || shortcuts_inhibited focused is

-- The key goes to the focused client unless it was handled.
unfoldable pub forward_key : Key → Server × Bool → Server
forward_key k (s, handled) =
    if handled then s else emit (keyboard_notify_key k.keycode k.pressed) (emit seat_set_keyboard s)

module _ (w : Wlroots) (atoi : String → ℤ) (to_lower : ℕ → ℕ) (binds : List Keybind) where
  unfoldable pub run_bindings : Shortcuts → Key → Server × Bool → Server × Bool
  run_bindings is k (s, handled) =
      let inhibited = shortcuts_inhibited (w.focused_surface s.calls) is in
      let r = run_key w atoi to_lower binds inhibited k.modifiers k.syms k.raw_syms s in
      if handled then (s, handled) else r

  -- What only a press does.
  unfoldable pub press_key : Bool → Bool → Shortcuts → Key → Server → Server × Bool
  press_key session menu_open is k s =
      run_bindings is k (
        escape_menu menu_open k.syms
          (escape_switcher k.syms (switch_vts session k.syms (s, false))))

  -- `keyboard::handle_key`; `session` says that there is a session whose terminal can be switched.
  unfoldable pub handle_key : List LockSurface → Bool → Bool → Shortcuts → Key → Server → Server
  handle_key surfaces session menu_open is k s =
      let s1 = emit notify_activity s in
      let s2 = if s1.locked then ensure_focus w surfaces s1 else s1 in
      forward_key k (if k.pressed then press_key session menu_open is k s2 else (s2, false))

-- The text after `group` commas of the configured layouts; 44 is ",".
unfoldable pub skip_layout : List ℕ → List ℕ
skip_layout [] = []
skip_layout (c ∷ cs) = let rest = skip_layout cs in if c == 44 then cs else rest

unfoldable pub skip_layouts : ℕ → List ℕ → List ℕ
skip_layouts zero cs = cs
skip_layouts (suc n) cs = skip_layouts n (skip_layout cs)

-- At most `n` bytes up to the next comma, as capitals.
unfoldable pub layout_name : (ℕ → ℕ) → ℕ → List ℕ → List ℕ
layout_name to_upper zero cs = []
layout_name to_upper (suc n) [] = []
layout_name to_upper (suc n) (c ∷ cs) =
    let rest = layout_name to_upper n cs in if c == 44 then [] else to_upper c ∷ rest

-- "US" where there is no name.
unfoldable pub or_us : List ℕ → List ℕ
or_us [] = 85 ∷ 83 ∷ []
or_us (c ∷ cs) = c ∷ cs

-- The server with the group of the layout that was last seen.
pub record Grouped : Type 0 where
  pub srv : Server
  pub layout_group : ℕ

-- `keyboard::handle_modifiers`, with the keyboard's modifiers and group and the configured layouts.
unfoldable pub handle_modifiers_event : Wlroots → (ℕ → ℕ) → List ℕ → ℕ → ℕ → Grouped → Grouped
handle_modifiers_event w to_upper xkb_layout mods group g =
    let s1 = emit notify_activity (emit keyboard_notify_modifiers (emit seat_set_keyboard g.srv)) in
    let s2 = handle_modifiers w mods s1 in
    let s3 = refresh_taskbars s2 in
    let text = or_us (layout_name to_upper 31 (skip_layouts group xkb_layout)) in
    if group == g.layout_group
    then record g { srv = s2 }
    else record { srv = emit_if s3.osd_overlay (osd_show_text text) s3; layout_group = group }
