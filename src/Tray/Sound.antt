-- ===== src/Tray/Sound.antt =====
-- What is to hold of the tray between two events: its items, the menu with the item that it belongs to, and the proxy that
-- a click goes through (src/tray.cc).
mod Items
mod Menus
mod Icons
pub mod Runs
use steppewm.Base.{
  ℕ, zero, suc, not, ◌<◌, ℤ, ◌+◌, pos, ◌+ℤ◌, ◌-ℤ◌, Bool, true, false, ◌||◌, Option, none, some,
  List, [], ◌∷◌, ◌++◌, ◌≡◌, ◌∙◌, refl, sym, arith, if◌then◌else◌, any, is_some, get_elem?, length,
  Bytes, is_empty, Option-cases, Bool-cases, inl, inr,
}
use steppewm.Snap.{pixels}
use steppewm.Tray.{
  BusCall, Item, Entry, Bus, Host, call, menu_event, close_menu, names_of, is_item, new_item,
  add_item, handle_register, menu_owner, item_at_address, on_bus, erase_items, handle_unregister,
  on_item, activate, secondary_activate, change_item, menu_path_reply,
}
use steppewm.Tray.Menu.{
  menu_item_at, click_entry, menu_click, render_menu, menu_hover, show_menu, fill_menu, ask_menu,
  open_menu, context_menu, row_at, row_h, same_index, parse_layout,
}
use steppewm.Tray.Sound.Items.{
  IsUnique, has_address, IsUnique-append, IsUnique-erase_items, has_address-erase_items,
  IsUnique-change_item, has_address-change_item, has_address-append, has_address-erase_items,
  IsTame, has_address-none,
}

abbrev pub is_held : Option ℕ → List Item → Bool
is_held none items = true
is_held (some a) items = has_address a items

is_held-append :
    (m : Option ℕ) (items : List Item) (i : Item)
    → is_held m items ≡ true
    → is_held m (items ++ i ∷ []) ≡ true
is_held-append none items i h = refl
is_held-append (some a) items i h = has_address-append a items i h

is_held-change_item :
    (a : ℕ) (f : Item → Item)
    → IsTame f
    → (m : Option ℕ) (items : List Item) → is_held m items ≡ true
    → is_held m (change_item a f items) ≡ true
is_held-change_item a f tame none items h = refl
is_held-change_item a f tame (some b) items h = has_address-change_item a f tame b items ∙ h

-- A hovered row is a row of the menu.
abbrev pub Fits : Option ℕ → List Entry → Type 0
Fits none es = Unit
Fits (some i) es = i < length es

pub record IsSound (h : Host) : Type 0 where
  pub unique : IsUnique h.items
  pub owned : h.menu_tree ≡ is_some h.menu_item
  pub held : is_held h.menu_item h.items ≡ true
  pub proxied : (is_empty h.menu_entries || h.menu_proxy) ≡ true
  pub hovered : Fits h.menu_hovered h.menu_entries

pub close_menu-IsSound : (h : Host) → IsUnique h.items → IsSound (close_menu h)
unfolding close_menu
close_menu-IsSound h u = record {
  unique = u;
  owned = refl;
  held = refl;
  proxied = refl;
  hovered = tt;
}

pub on_item-IsSound :
    (c : ℕ → ℤ → ℤ → BusCall) (index : ℕ) (x y : ℤ) (h : Host)
    → IsSound h
    → IsSound (on_item c index x y h)
unfolding on_item
on_item-IsSound c index x y h s = elim (Option-cases (get_elem? h.items index)) [
  | inl e ↦ rw (e, on_item) s
  | inr (i, e) ↦
      rw (e, on_item)
        (record {
          unique = s.unique;
          owned = s.owned;
          held = s.held;
          proxied = s.proxied;
          hovered = s.hovered;
        })
]

add_item-IsSound :
    (a : ℕ) (names : Bytes × Bytes) (h : Host)
    → any (is_item names) h.items ≡ false
    → IsSound h
    → IsSound (add_item (new_item a names) h)
unfolding add_item
add_item-IsSound a names h fresh s = record {
  unique = IsUnique-append a names h.items fresh s.unique;
  owned = s.owned;
  held = is_held-append h.menu_item h.items (new_item a names) s.held;
  proxied = s.proxied;
  hovered = s.hovered;
}

pub handle_register-IsSound :
    (bus : Bus) (a : ℕ) (service sender : Bytes) (h : Host)
    → IsSound h
    → IsSound (handle_register bus a service sender h)
unfolding handle_register
handle_register-IsSound bus a service sender h s =
    let names = names_of service sender in
    elim (Bool-cases (any (is_item names) h.items)) [
      | inl e ↦ rw e (ground arith)
      | inr e ↦ let t = add_item-IsSound a names h e s in rw e (ground (arith, t))
    ]

pub menu_path_reply-IsSound :
    (a : ℕ) (reply : Option Bytes) (h : Host) → IsSound h → IsSound (menu_path_reply a reply h)
unfolding menu_path_reply
menu_path_reply-IsSound a none h s = s
menu_path_reply-IsSound a (some path) h s =
    let f = λ (i : Item). record i { menu_path = path } in
    let tame : IsTame f = record {
      same_bus = λ i. refl;
      same_path = λ i. refl;
      same_address = λ i. refl;
    } in
    record {
      unique = IsUnique-change_item a f tame h.items s.unique;
      owned = s.owned;
      held = is_held-change_item a f tame h.menu_item h.items s.held;
      proxied = s.proxied;
      hovered = s.hovered;
    }

-- An open menu that does not belong to the bus name keeps its item.
is_held-erase_items :
    (m : Option ℕ) (bus : Bytes) (items : List Item) (cs : List BusCall)
    → is_held m items ≡ true
    → on_bus bus (elim m [ none ↦ none | some a ↦ item_at_address a items ]) ≡ false
    → is_held m (erase_items bus items cs).0 ≡ true
is_held-erase_items none bus items cs h k = refl
is_held-erase_items (some a) bus items cs h k = elim (Option-cases (item_at_address a items)) [
  | inl e ↦ absurd (ground (arith, has_address-none a items e))
  | inr (i, e) ↦ has_address-erase_items a bus items cs i e (rw e at k)
]

drop_items : Bytes → Host → Host
drop_items bus h =
    let kept = erase_items bus h.items h.bus_calls in
    record h { items = kept.0; bus_calls = kept.1 }

drop_items-IsSound :
    (bus : Bytes) (h : Host)
    → IsSound h
    → on_bus bus (menu_owner h) ≡ false
    → IsSound (drop_items bus h)
unfolding drop_items menu_owner
drop_items-IsSound bus h s k = record {
  unique = IsUnique-erase_items bus h.items h.bus_calls s.unique;
  owned = s.owned;
  held = is_held-erase_items h.menu_item bus h.items h.bus_calls s.held k;
  proxied = s.proxied;
  hovered = s.hovered;
}

pub handle_unregister-IsSound :
    (bus : Bytes) (h : Host) → IsSound h → IsSound (handle_unregister bus h)
unfolding handle_unregister drop_items menu_owner close_menu
handle_unregister-IsSound bus h s = elim (Bool-cases (on_bus bus (menu_owner h))) [
  | inl e ↦
      let t = drop_items-IsSound bus (close_menu h) (close_menu-IsSound h s.unique) refl in
      rw e (ground (arith, t))
  | inr e ↦ let t = drop_items-IsSound bus h s e in rw e (ground (arith, t))
]
