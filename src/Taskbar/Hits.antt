-- ===== src/Taskbar/Hits.antt =====
-- What stands at a point of the bar, and the hovered item: the methods that end in `_at`, `hover_update`
-- and `hover_clear` of src/taskbar.cc. A point is in 256ths of a layout pixel.
use steppewm.Base.{
  ℕ, suc, ℤ, pos, pos_part, neg_part, ◌+ℤ◌, ◌-ℤ◌, ◌*ℤ◌, ◌/ℤ◌, ltb_ℤ, leb_ℤ, Bool, true, false, not,
  ◌&&◌, ◌||◌, Option, none, some, List, [], ◌∷◌, ◌==◌, ◌+◌, if◌then◌else◌, is_some, find,
}
use steppewm.Wlr.{Wlroots}
use steppewm.State.{Config, Server}
use steppewm.Snap.{pixels}
use steppewm.Grab.{to_pixels}
use steppewm.Taskbar.{Slot, Indicator, Taskbar, Metrics}
use steppewm.Taskbar.Rows.{inner_h, layout}

-- `/` on `int`, for a divisor that is not 0.
unfoldable pub quotient : ℤ → ℤ → ℤ
quotient a d = if ltb_ℤ (pos 0) d then a /ℤ pos_part d else pos 0 -ℤ a /ℤ neg_part d

-- The tests on the two coordinates.
abbrev pub is_within : ℤ → ℤ → ℤ → Bool
is_within c start length = not (ltb_ℤ c (pixels start) || leb_ℤ (pixels (start +ℤ length)) c)

unfoldable pub on_bar : ℤ → ℤ → Taskbar → Bool
on_bar x y t = ltb_ℤ (pos 0) t.width && (is_within y t.y t.height && is_within x t.x t.width)

abbrev pub local_x : ℤ → Taskbar → ℤ
local_x x t = to_pixels (x -ℤ pixels t.x)

-- The test that the loops over `slots_` share.
abbrev pub covers : ℤ → Slot → Bool
covers lx s = leb_ℤ s.x lx && ltb_ℤ lx (s.x +ℤ s.w)

unfoldable pub slot_at : ℤ → ℤ → Taskbar → Option Slot
slot_at x y t = if on_bar x y t then find (covers (local_x x t)) t.slots else none

abbrev pub slot_view : Option Slot → Option ℕ
slot_view none = none
slot_view (some s) = s.v

abbrev pub slot_pin : Option Slot → Option ℕ
slot_pin none = none
slot_pin (some s) = if is_some s.v then none else s.pin_idx

-- `view_at`, `pin_at`.
unfoldable pub view_at : ℤ → ℤ → Taskbar → Option ℕ
view_at x y t = slot_view (slot_at x y t)

unfoldable pub pin_at : ℤ → ℤ → Taskbar → Option ℕ
pin_at x y t = slot_pin (slot_at x y t)

-- The label of `local_x - pad`, for labels of width `w`.
unfoldable pub label_at : ℕ → ℤ → ℤ → ℤ → Option ℕ
label_at visible_ws lx w pad =
    let idx = quotient lx (w +ℤ pad) in
    if ltb_ℤ idx (pos 0) || leb_ℤ (pos visible_ws) idx || leb_ℤ w (lx -ℤ idx *ℤ (w +ℤ pad))
    then none
    else some (pos_part idx)

-- The width of a label as `workspace_at` takes it.
abbrev pub label_w : Config → Taskbar → ℤ
label_w cfg t =
    let w = if ltb_ℤ (pos 0) t.ws_button_w then t.ws_button_w else inner_h cfg t in
    if ltb_ℤ w (pos 1) then pos 1 else w

-- `workspace_at`, for `max_visible_workspace`.
unfoldable pub workspace_at : Config → ℕ → ℤ → ℤ → Taskbar → Option ℕ
workspace_at cfg max_visible x y t =
    let pad = cfg.taskbar_button_pad in
    if on_bar x y t
    then label_at (max_visible + 1) (local_x x t -ℤ pad) (label_w cfg t) pad
    else none

-- `idle_inhibit_at`, `brightness_at` and `volume_at` are this test on their indicator.
unfoldable pub indicator_at : Config → Indicator → ℤ → ℤ → Taskbar → Bool
indicator_at cfg i x y t =
    ltb_ℤ (pos 0) i.w
    && ltb_ℤ (pos 0) t.width
    && is_within y t.y t.height
    && (is_within x i.x i.w && is_within y (t.y +ℤ cfg.taskbar_button_pad) (inner_h cfg t))

unfoldable pub idle_inhibit_at : Config → ℤ → ℤ → Taskbar → Bool
idle_inhibit_at cfg x y t = indicator_at cfg t.idle_ind x y t

unfoldable pub brightness_at : Config → ℤ → ℤ → Taskbar → Bool
brightness_at cfg x y t = indicator_at cfg t.brightness x y t

unfoldable pub volume_at : Config → ℤ → ℤ → Taskbar → Bool
volume_at cfg x y t = indicator_at cfg t.volume x y t

-- The item at `lx` of the tray.
unfoldable pub item_at : ℕ → ℤ → ℤ → ℤ → Option ℕ
item_at items lx icon_size pad =
    let idx = quotient lx (icon_size +ℤ pad) in
    if leb_ℤ icon_size (lx -ℤ idx *ℤ (icon_size +ℤ pad))
      || ltb_ℤ idx (pos 0)
      || leb_ℤ (pos items) idx
    then none
    else some (pos_part idx)

-- `tray_at`, for the number of items in the tray, if there is one.
unfoldable pub tray_at : Config → Option ℕ → ℤ → ℤ → Taskbar → Option ℕ
tray_at cfg none x y t = none
tray_at cfg (some items) x y t =
    let icon_size = inner_h cfg t in
    let lx = to_pixels (x -ℤ pixels t.tray_x) in
    if leb_ℤ t.tray_total_w (pos 0)
      || leb_ℤ t.width (pos 0)
      || not (is_within y t.y t.height)
      || ltb_ℤ icon_size (pos 1)
      || ltb_ℤ lx (pos 0)
      || leb_ℤ t.tray_total_w lx
    then none
    else item_at items lx icon_size cfg.taskbar_button_pad

-- "find hovered task slot": the index of the first slot at `lx`.
unfoldable pub slot_index : ℕ → ℤ → List Slot → Option ℕ
slot_index i lx [] = none
slot_index i lx (s ∷ ss) =
    let rest = slot_index (suc i) lx ss in if covers lx s then some i else rest

abbrev pub same_idx : Option ℕ → Option ℕ → Bool
same_idx none none = true
same_idx (some a) (some b) = a == b
same_idx _ _ = false

module _ (w : Wlroots) (m : Metrics) where
  -- The end of `hover_update` and of `hover_clear`.
  unfoldable pub set_hovered : Option ℕ → Option ℕ → Server → Taskbar → Taskbar
  set_hovered ws slot s t =
      if same_idx ws t.hovered_ws_idx && same_idx slot t.hovered_slot_idx
      then t
      else layout w m s (record t { hovered_ws_idx = ws; hovered_slot_idx = slot })

  unfoldable pub hover_clear : Server → Taskbar → Taskbar
  hover_clear s t = set_hovered none none s t

  unfoldable pub hover_update : ℤ → ℤ → Server → Taskbar → Taskbar
  hover_update x y s t =
      let ws = workspace_at s.cfg s.max_visible_workspace x y t in
      let slot = if is_some ws then none else slot_index 0 (local_x x t) t.slots in
      if on_bar x y t then set_hovered ws slot s t else hover_clear s t
