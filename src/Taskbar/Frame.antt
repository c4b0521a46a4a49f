-- ===== src/Taskbar/Frame.antt =====
-- What `taskbar::layout` (src/taskbar.cc) leaves alone, and where it puts the labels and the slots.
use steppewm.Base.{
  ℕ, zero, suc, ℤ, pos, ◌+ℤ◌, leb_ℤ, false, ◌||◌, Option, none, some, List, [], ◌∷◌, ◌≡◌, refl, sym,
  ap, Bool-cases, inl, inr, ◌∙◌,
}
use steppewm.Wlr.{Wlroots}
use steppewm.State.{View, Config, Server}
use steppewm.Taskbar.{Slot, Taskbar, Metrics}
use steppewm.Taskbar.Slots.{fill_slots}
use steppewm.Taskbar.Rows.{
  inner_h, at_least_1, shown_labels, label_places, after_labels, put_tray, render_clock,
  render_layout_indicator, render_battery, render_brightness, render_volume, render_idle_indicator,
  render_indicators, place_slots, row_button_w, place_row, fill_row, lay_out_rows, layout,
}

-- The bar's place and size, and its buttons.
abbrev pub SameFrame : Taskbar → Taskbar → Type 0
SameFrame a b =
    (a.x ≡ b.x)
    × (a.y ≡ b.y)
    × (a.width ≡ b.width)
    × (a.height ≡ b.height)
    × (a.buttons ≡ b.buttons)

put_tray-SameFrame : (cfg : Config) (n : Option ℕ) (t : Taskbar) → SameFrame (put_tray cfg n t) t
unfolding put_tray
put_tray-SameFrame cfg none t = (refl, refl, refl, refl, refl)
put_tray-SameFrame cfg (some zero) t = (refl, refl, refl, refl, refl)
put_tray-SameFrame cfg (some (suc n)) t = (refl, refl, refl, refl, refl)

pub render_indicators-SameFrame :
    (cfg : Config) (m : Metrics) (t : Taskbar) → SameFrame (render_indicators cfg m t) t
unfolding render_indicators render_clock render_layout_indicator render_battery render_brightness
    render_volume render_idle_indicator
render_indicators-SameFrame cfg m t = put_tray-SameFrame cfg m.tray_items _

-- Filling the task row keeps the labels and the frame.
abbrev pub SameLabels : Taskbar → Taskbar → Type 0
SameLabels a b = (a.ws_button_w ≡ b.ws_button_w) × (a.ws_labels ≡ b.ws_labels) × SameFrame a b

module _ (cfg : Config) (st : ℕ → View) (focused : Option ℕ) (left : ℤ) where
  fill_row-SameLabels :
      (ss : List Slot) (t : Taskbar) → SameLabels (fill_row cfg st focused left ss t) t
  unfolding fill_row place_row
  fill_row-SameLabels [] t = (refl, refl, (refl, refl, refl, refl, refl))
  fill_row-SameLabels (s ∷ ss) t = (refl, refl, (refl, refl, refl, refl, refl))

  -- The slots stand one after the other, windows `row_button_w` wide and launchers as high as the bar.
  fill_row-slots :
      (ss : List Slot) (t : Taskbar)
      → (fill_row cfg st focused left ss t).slots
        ≡ place_slots left
            (row_button_w cfg left ss t)
            (at_least_1 (inner_h cfg t))
            cfg.taskbar_button_pad
            ss
  unfolding fill_row place_row place_slots
  fill_row-slots [] t = refl
  fill_row-slots (s ∷ ss) t = refl

-- The width and the height of the bar decide whether it is laid out.
abbrev pub IsVisible : Taskbar → Type 0
IsVisible t = (leb_ℤ t.width (pos 0) || leb_ℤ t.height (pos 0)) ≡ false

module _ (w : Wlroots) (m : Metrics) (s : Server) (t : Taskbar) where
  -- The bar as `layout` fills its row: with the indicators and the labels in place.
  abbrev pub labelled : Taskbar
  labelled =
      let r = render_indicators s.cfg m t in
      let pad = s.cfg.taskbar_button_pad in
      let button_h = at_least_1 (inner_h s.cfg r) in
      record r {
        ws_button_w = button_h;
        ws_labels = label_places (shown_labels s.max_visible_workspace) pad button_h pad;
      }

  abbrev pub row_left : ℤ
  row_left =
      let pad = s.cfg.taskbar_button_pad in
      after_labels (shown_labels s.max_visible_workspace) pad
        (at_least_1 (inner_h s.cfg (render_indicators s.cfg m t))) pad
      +ℤ pos 6

  pub layout-SameLabels : IsVisible t → SameLabels (layout w m s t) labelled
  unfolding layout lay_out_rows
  layout-SameLabels h = rw h (fill_row-SameLabels s.cfg s.store _ row_left _ labelled)

  pub layout-SameFrame : SameFrame (layout w m s t) t
  unfolding layout lay_out_rows
  layout-SameFrame = elim (Bool-cases (leb_ℤ t.width (pos 0) || leb_ℤ t.height (pos 0))) [
    | inl e ↦ rw e (refl, refl, refl, refl, refl)
    | inr e ↦
        let kept = render_indicators-SameFrame s.cfg m t in
        let row = (layout-SameLabels e).2 in
        (row.0 ∙ kept.0, row.1 ∙ kept.1, row.2 ∙ kept.2, row.3 ∙ kept.3, row.4 ∙ kept.4)
  ]

  pub layout-slots :
      IsVisible t
      → let ss = fill_slots s.cfg s.store s.current_workspace t.buttons in
        (layout w m s t).slots
        ≡ place_slots row_left
            (row_button_w s.cfg row_left ss labelled)
            (at_least_1 (inner_h s.cfg labelled))
            s.cfg.taskbar_button_pad
            ss
  unfolding layout lay_out_rows
  layout-slots h =
      let ss = fill_slots s.cfg s.store s.current_workspace (render_indicators s.cfg m t).buttons in
      rw
        (
          h,
          sym (
              ap (fill_slots s.cfg s.store s.current_workspace)
                (render_indicators-SameFrame s.cfg m t).4),
        )
        (fill_row-slots s.cfg s.store _ row_left ss labelled)
