-- ===== src/Tray/Menu.antt =====
-- The context menu of a tray item: `strip_mnemonics`, `parse_layout`, `tray_host::context_menu`, `render_menu`,
-- `menu_item_at`, `menu_click` and `menu_hover` of src/tray.cc. The drawing itself is left out; `text_w` gives the
-- width of a text in the font of the menu. A result of none is a call through the null `menu_proxy_`.
use steppewm.Base.{
  ℕ, suc, ℤ, pos, negsuc, ◌+ℤ◌, ◌-ℤ◌, ◌*ℤ◌, ◌/ℤ◌, ltb_ℤ, leb_ℤ, eqb_ℤ, Bool, true, false, not, ◌&&◌,
  ◌||◌, Option, none, some, List, [], ◌∷◌, ◌==◌, if◌then◌else◌, get_elem?, points_to, Bytes, codes,
  same, is_empty,
}
use steppewm.Wlr.{tray_menu_tree, node_set_position, node_raise_to_top}
use steppewm.State.{emit}
use steppewm.Snap.{pixels}
use steppewm.Tray.{
  Item, Entry, Child, Bus, Host, call, close_menu, menu_event, context_menu_item, about_to_show,
  ask_layout,
}

-- `strip_mnemonics`: an underscore goes, and the byte after it stays.
unfoldable pub strip_mnemonics : Bytes → Bytes
strip_mnemonics [] = []
strip_mnemonics (c ∷ []) = c ∷ []
strip_mnemonics (c ∷ d ∷ cs) =
    let after = d ∷ strip_mnemonics cs in
    let kept = c ∷ strip_mnemonics (d ∷ cs) in if c == b'_' then after else kept

abbrev pub or_else {ℓ} : {A : Type ℓ} → A → Option A → A
or_else default none = default
or_else default (some a) = a

-- The entry of a child.
unfoldable pub entry_of : Child → Entry
entry_of c = record {
  id = c.id;
  label = strip_mnemonics (or_else [] c.label);
  enabled = or_else true c.enabled;
  visible = or_else true c.visible;
  separator = same (or_else [] c.kind) (codes "separator");
  toggle_type = or_else [] c.toggle_type;
  toggle_state = or_else (negsuc 0) c.toggle_state;
}

-- `parse_layout`: the visible children, in order.
unfoldable pub parse_layout : List (Option Child) → List Entry
parse_layout [] = []
parse_layout (none ∷ cs) = parse_layout cs
parse_layout (some c ∷ cs) =
    let rest = parse_layout cs in if (entry_of c).visible then entry_of c ∷ rest else rest

-- The text of a row: a check mark stands before the label of an entry that is on.
unfoldable pub display : Entry → Bytes
display e =
    if not (is_empty e.toggle_type) && eqb_ℤ e.toggle_state (pos 1)
    then 0xe2 ∷ 0x9c ∷ 0x93 ∷ 0x20 ∷ e.label
    else e.label

unfoldable pub max_text_w : (Bytes → ℤ) → List Entry → ℤ → ℤ
max_text_w text_w [] widest = widest
max_text_w text_w (e ∷ es) widest =
    let w = text_w (display e) in
    max_text_w text_w es (if e.separator then widest else if ltb_ℤ widest w then w else widest)

abbrev pub sep_h : ℤ
sep_h = pos 7

-- The height of a row, for that of the rows that are no separators.
abbrev pub row_h : ℤ → Entry → ℤ
row_h item_h e = if e.separator then sep_h else item_h

unfoldable pub total_h : ℤ → List Entry → ℤ
total_h item_h [] = pos 0
total_h item_h (e ∷ es) = row_h item_h e +ℤ total_h item_h es

-- The height of a row from that of the taskbar: the font's size, 55 percent of it, and 4 pixels on
-- both sides.
unfoldable pub item_height : ℤ → ℤ
item_height taskbar_h = (taskbar_h *ℤ pos 55 +ℤ pos 800) /ℤ 100

-- `render_menu`: the sizes that it gives the menu.
unfoldable pub render_menu : (Bytes → ℤ) → Host → Host
render_menu text_w h =
    let w = max_text_w text_w h.menu_entries (pos 0) +ℤ pos 24 in
    let item_h = item_height h.srv.cfg.taskbar_h in
    record h {
      menu_w = if ltb_ℤ w (pos 100) then pos 100 else w;
      menu_item_h = item_h;
      menu_h = total_h item_h h.menu_entries;
    }

-- A row as the loop of `render_menu` draws it: its entry, and its top in the menu.
pub record Row : Type 0 where
  pub entry : Entry
  pub top : ℤ

unfoldable pub draw_rows : ℤ → ℤ → List Entry → List Row
draw_rows item_h cur_y [] = []
draw_rows item_h cur_y (e ∷ es) =
    record { entry = e; top = cur_y } ∷ draw_rows item_h (cur_y +ℤ row_h item_h e) es

-- The loop of `menu_item_at`; `ly` is a count of 256ths.
unfoldable pub row_at : ℤ → ℤ → ℕ → ℤ → List Entry → Option ℕ
row_at item_h ly i cur_y [] = none
row_at item_h ly i cur_y (e ∷ es) =
    let bottom = cur_y +ℤ row_h item_h e in
    let rest = row_at item_h ly (suc i) bottom es in
    if leb_ℤ (pixels cur_y) ly && ltb_ℤ ly (pixels bottom)
    then if e.separator || not e.enabled then none else some i
    else rest

-- `menu_item_at`; an index of none is its -1.
unfoldable pub menu_item_at : ℤ → ℤ → Host → Option ℕ
menu_item_at x y h =
    let lx = x -ℤ pixels h.menu_x in
    let ly = y -ℤ pixels h.menu_y in
    let outside =
      ltb_ℤ lx (pos 0)
      || leb_ℤ (pixels h.menu_w) lx
      || ltb_ℤ ly (pos 0)
      || leb_ℤ (pixels h.menu_h) ly in
    if not h.menu_tree || outside then none else row_at h.menu_item_h ly 0 (pos 0) h.menu_entries

-- `menu_click`.
unfoldable pub click_entry : Entry → Host → Option Host
click_entry e h =
    if not e.enabled || e.separator
    then some h
    else if h.menu_proxy
    then some (close_menu (call (menu_event e.id) h))
    else none

unfoldable pub menu_click : Option ℕ → Host → Option Host
menu_click none h = some (close_menu h)
menu_click (some i) h = elim (get_elem? h.menu_entries i) [
  | none ↦ some (close_menu h)
  | some e ↦ click_entry e h
]

abbrev pub same_index : Option ℕ → Option ℕ → Bool
same_index none none = true
same_index (some i) (some j) = i == j
same_index _ _ = false

module _ (text_w : Bytes → ℤ) where
  -- `menu_hover`.
  unfoldable pub menu_hover : ℤ → ℤ → Host → Host
  menu_hover x y h =
      let i = menu_item_at x y h in
      let h1 = render_menu text_w (record h { menu_hovered = i }) in
      if not h.menu_tree || same_index i h.menu_hovered
      then h
      else record h1 { srv = emit (node_raise_to_top tray_menu_tree) h1.srv }

  -- The end of `context_menu`: the menu of an item opens above the point.
  unfoldable pub show_menu : Item → ℤ → ℤ → Host → Host
  show_menu item x y h =
      let h1 =
        render_menu text_w
          (record h { menu_item = some item.address; menu_hovered = none; menu_tree = true }) in
      let left = x -ℤ h1.menu_w /ℤ 2 in
      let top = y -ℤ h1.menu_h in
      let s1 = emit (node_set_position tray_menu_tree left top) h1.srv in
      record h1 { menu_x = left; menu_y = top; srv = emit (node_raise_to_top tray_menu_tree) s1 }

  unfoldable pub fill_menu : Item → ℤ → ℤ → List Entry → Host → Host
  fill_menu item x y [] h = record h { menu_entries = []; menu_proxy = false }
  fill_menu item x y (e ∷ es) h =
      show_menu item x y (record h { menu_entries = e ∷ es; menu_proxy = true })

  -- The part of `context_menu` that asks the item for its menu. Without a proxy the second of its
  -- requests goes through a null pointer.
  unfoldable pub ask_menu : Bus → Item → ℤ → ℤ → Host → Option Host
  ask_menu bus item x y h =
      let asked = call (ask_layout item.address) (call (about_to_show item.address) h) in
      if bus.menu_proxy item.bus_name item.menu_path
      then elim (bus.get_layout item.bus_name item.menu_path) [
        | none ↦ some (record asked { menu_proxy = false })
        | some children ↦ some (fill_menu item x y (parse_layout children) asked)
      ]
      else none

  unfoldable pub open_menu : Bus → Item → ℤ → ℤ → Host → Option Host
  open_menu bus item x y h =
      if h.menu_tree && points_to h.menu_item item.address
      then some (close_menu h)
      else if is_empty item.menu_path
      then some (call (context_menu_item item.address x y) (close_menu h))
      else ask_menu bus item x y (close_menu h)

  -- `context_menu`.
  unfoldable pub context_menu : Bus → ℕ → ℤ → ℤ → Host → Option Host
  context_menu bus index x y h = elim (get_elem? h.items index) [
    | none ↦ some h
    | some item ↦ open_menu bus item x y h
  ]
