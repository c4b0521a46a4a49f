-- ===== src/Tray/Sound/Menus.antt =====
-- The context menu and the soundness of the tray (src/tray.cc).
use steppewm.Base.{
  ℕ, suc, not, ◌<◌, ℤ, ◌+◌, pos, ◌+ℤ◌, ◌-ℤ◌, Bool, true, false, ◌||◌, Option, none, some, List, [],
  ◌∷◌, ◌≡◌, ◌∙◌, refl, arith, get_elem?, length, Bytes, is_empty, Option-cases, Bool-cases, inl,
  inr,
}
use steppewm.Snap.{pixels}
use steppewm.Tray.{Item, Entry, Bus, Host, call, menu_event, about_to_show, ask_layout, close_menu}
use steppewm.Tray.Menu.{
  menu_item_at, click_entry, menu_click, render_menu, menu_hover, show_menu, fill_menu, ask_menu,
  open_menu, context_menu, row_at, row_h, same_index, parse_layout,
}
use steppewm.Tray.Sound.Items.{IsUnique, has_address, has_address_at}
use steppewm.Tray.{context_menu_item}
use steppewm.Base.{points_to, ◌&&◌}
use steppewm.Tray.Sound.{IsSound, Fits, close_menu-IsSound}

-- A menu with an entry has its proxy.
proxied_at :
    (es : List Entry) (i : ℕ) (e : Entry) {p : Bool}
    → get_elem? es i ≡ some e
    → (is_empty es || p) ≡ true
    → p ≡ true
proxied_at [] i e h k = ground arith
proxied_at (x ∷ es) i e h k = k

row_at-lt :
    (item_h ly : ℤ) (i : ℕ) (cur : ℤ) (es : List Entry) (j : ℕ)
    → row_at item_h ly i cur es ≡ some j
    → j < i + length es
unfolding row_at
row_at-lt item_h ly i cur [] j h = ground arith
row_at-lt item_h ly i cur (e ∷ es) j h =
    ground (arith, row_at-lt item_h ly (suc i) (cur +ℤ row_h item_h e) es j)

menu_item_at-lt :
    (x y : ℤ) (h : Host) (j : ℕ) → menu_item_at x y h ≡ some j → j < length h.menu_entries
unfolding menu_item_at
menu_item_at-lt x y h j e =
    ground (arith, row_at-lt h.menu_item_h (y -ℤ pixels h.menu_y) 0 (pos 0) h.menu_entries j)

menu_item_at-Fits : (x y : ℤ) (h : Host) → Fits (menu_item_at x y h) h.menu_entries
menu_item_at-Fits x y h = elim (Option-cases (menu_item_at x y h)) [
  | inl e ↦ rw e tt
  | inr (j, e) ↦ rw e (menu_item_at-lt x y h j e)
]

module _ (text_w : Bytes → ℤ) where
  click_entry-IsSound :
      (e : Entry) (h : Host)
      → IsSound h
      → h.menu_proxy ≡ true
      → (r : Host) × (click_entry e h ≡ some r) × IsSound r
  unfolding click_entry
  click_entry-IsSound e h s k = elim (Bool-cases (not e.enabled || e.separator)) [
    | inl n ↦ (h, rw n refl, s)
    | inr n ↦ (_, rw (n, k) refl, close_menu-IsSound (call (menu_event e.id) h) s.unique)
  ]

  pub menu_click-IsSound :
      (i : Option ℕ) (h : Host) → IsSound h → (r : Host) × (menu_click i h ≡ some r) × IsSound r
  unfolding menu_click
  menu_click-IsSound none h s = (close_menu h, refl, close_menu-IsSound h s.unique)
  menu_click-IsSound (some i) h s = elim (Option-cases (get_elem? h.menu_entries i)) [
    | inl e ↦ (close_menu h, rw (e, menu_click) refl, close_menu-IsSound h s.unique)
    | inr (x, e) ↦
        rw (e, menu_click) (click_entry-IsSound x h s (proxied_at h.menu_entries i x e s.proxied))
  ]

  pub menu_hover-IsSound : (x y : ℤ) (h : Host) → IsSound h → IsSound (menu_hover text_w x y h)
  unfolding menu_hover render_menu
  menu_hover-IsSound x y h s =
      elim (Bool-cases (not h.menu_tree || same_index (menu_item_at x y h) h.menu_hovered)) [
        | inl e ↦ rw e s
        | inr e ↦ rw e (record {
          unique = s.unique;
          owned = s.owned;
          held = s.held;
          proxied = s.proxied;
          hovered = menu_item_at-Fits x y h;
        })
      ]

  fill_menu-IsSound :
      (item : Item) (x y : ℤ) (es : List Entry) (h : Host)
      → IsUnique h.items
      → has_address item.address h.items ≡ true
      → h.menu_tree ≡ false
      → h.menu_item ≡ none
      → h.menu_hovered ≡ none
      → IsSound (fill_menu text_w item x y es h)
  unfolding fill_menu show_menu render_menu
  fill_menu-IsSound item x y [] h u listed closed free calm = record {
    unique = u;
    owned = closed ∙ rw free refl;
    held = rw free refl;
    proxied = refl;
    hovered = rw calm tt;
  }
  fill_menu-IsSound item x y (e ∷ es) h u listed closed free calm = record {
    unique = u;
    owned = refl;
    held = listed;
    proxied = refl;
    hovered = tt;
  }

  module _ (bus : Bus) (reachable : (name path : Bytes) → bus.menu_proxy name path ≡ true) where
    -- The item has been asked for its menu.
    abbrev asked : Item → Host → Host
    asked item h = call (ask_layout item.address) (call (about_to_show item.address) (close_menu h))

    ask_menu-IsSound :
        (item : Item) (x y : ℤ) (h : Host)
        → IsUnique h.items
        → has_address item.address h.items ≡ true
        → (r : Host) × (ask_menu text_w bus item x y (close_menu h) ≡ some r) × IsSound r
    unfolding ask_menu close_menu
    ask_menu-IsSound item x y h u listed =
        elim (Option-cases (bus.get_layout item.bus_name item.menu_path)) [
          | inl e ↦ (
            record (asked item h) { menu_proxy = false },
            rw (reachable item.bus_name item.menu_path, e) refl,
            record { unique = u; owned = refl; held = refl; proxied = refl; hovered = tt },
          )
          | inr (children, e) ↦ (
            fill_menu text_w item x y (parse_layout children) (asked item h),
            rw (reachable item.bus_name item.menu_path, e) refl,
            fill_menu-IsSound item x y (parse_layout children) (asked item h) u listed refl refl
                refl,
          )
        ]

    open_menu-IsSound :
        (item : Item) (x y : ℤ) (h : Host)
        → IsSound h
        → has_address item.address h.items ≡ true
        → (r : Host) × (open_menu text_w bus item x y h ≡ some r) × IsSound r
    unfolding open_menu close_menu
    open_menu-IsSound item x y h s listed =
        elim (Bool-cases (h.menu_tree && points_to h.menu_item item.address)) [
          | inl e ↦ (close_menu h, rw e refl, close_menu-IsSound h s.unique)
          | inr e ↦ elim (Bool-cases (is_empty item.menu_path)) [
            | inl f ↦ (
              call (context_menu_item item.address x y) (close_menu h),
              rw (e, f) refl,
              close_menu-IsSound (call (context_menu_item item.address x y) h) s.unique,
            )
            | inr f ↦ rw (e, f) (ask_menu-IsSound item x y h s.unique listed)
          ]
        ]

    pub context_menu-IsSound :
        (index : ℕ) (x y : ℤ) (h : Host)
        → IsSound h
        → (r : Host) × (context_menu text_w bus index x y h ≡ some r) × IsSound r
    unfolding context_menu
    context_menu-IsSound index x y h s = elim (Option-cases (get_elem? h.items index)) [
      | inl e ↦ (h, rw (e, context_menu) refl, s)
      | inr (item, e) ↦
          rw (e, context_menu)
            (open_menu-IsSound item x y h s (has_address_at h.items index item e))
    ]
