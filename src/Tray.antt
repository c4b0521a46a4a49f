-- ===== src/Tray.antt =====
-- The tray: `tray_host` of src/tray.cc, the items that register on D-Bus and their context menu. D-Bus is
-- not part of the repository: what it answers is the record `Bus`, and each signal or reply is a call of the
-- handler below. A text is a list of bytes; an item is known by its address.
pub mod Menu
pub mod Icons
pub mod Pixels
pub mod Decoded
pub mod Rows
pub mod Dirs
pub mod Caching
pub mod Sound
use steppewm.Base.{
  ℕ, ℤ, pos, Bool, true, false, ◌&&◌, ◌||◌, Option, none, some, List, [], ◌∷◌, ◌++◌, ◌==◌,
  if◌then◌else◌, any, find, filter, get_elem?, not, Bytes, codes, same, is_empty,
}
use steppewm.Wlr.{tray_menu_tree, node_destroy}
use steppewm.State.{Server, emit_if, refresh_taskbars}

-- `tray_item`.
pub record Item : Type 0 where
  pub address : ℕ
  pub bus_name : Bytes
  pub object_path : Bytes
  pub menu_path : Bytes
  pub icon_pixels : List ℕ
  pub icon_width : ℕ
  pub icon_height : ℕ
  pub icon_gen : ℕ

-- `menu_entry`. A toggle state of none is the -1 that means unset.
pub record Entry : Type 0 where
  pub id : ℤ
  pub label : Bytes
  pub enabled : Bool
  pub visible : Bool
  pub separator : Bool
  pub toggle_type : Bytes
  pub toggle_state : ℤ

-- The calls made on D-Bus: the signals of the watcher, the methods of an item or of its menu, and the requests for
-- an item's properties, whose replies arrive later.
pub data BusCall : Type 0 where
  item_registered item_unregistered : Bytes → BusCall
  activate_item secondary_activate_item context_menu_item : ℕ → ℤ → ℤ → BusCall
  menu_event : ℤ → BusCall
  get_icon_pixmap get_icon_name get_menu_path about_to_show ask_layout : ℕ → BusCall

-- A child in the reply to `GetLayout`: its id, and what its properties are, if they are there and of the
-- right type. A child of another shape is none.
pub record Child : Type 0 where
  pub id : ℤ
  pub kind : Option Bytes
  pub label : Option Bytes
  pub toggle_type : Option Bytes
  pub enabled : Option Bool
  pub visible : Option Bool
  pub toggle_state : Option ℤ

-- What D-Bus answers: whether an item's proxy can be made and asked, whether the proxy of a menu can be
-- made, and the reply to `GetLayout`, if there is one. A menu is known by its bus name and its path.
pub record Bus : Type 0 where
  pub item_proxy : Bytes → Bytes → Bool
  pub menu_proxy : Bytes → Bytes → Bool
  pub get_layout : Bytes → Bytes → Option (List (Option Child))

-- `tray_host`: its items, and the menu with the item that it belongs to, whether its proxy is set, its
-- entries, whether its scene tree is there, its box, the height of a row and the hovered row.
pub record Host : Type 0 where
  pub srv : Server
  pub items : List Item
  pub menu_item : Option ℕ
  pub menu_proxy : Bool
  pub menu_entries : List Entry
  pub menu_tree : Bool
  pub menu_x : ℤ
  pub menu_y : ℤ
  pub menu_w : ℤ
  pub menu_h : ℤ
  pub menu_item_h : ℤ
  pub menu_hovered : Option ℕ
  pub bus_calls : List BusCall

abbrev pub call : BusCall → Host → Host
call c h = record h { bus_calls = c ∷ h.bus_calls }

-- `refresh_all`.
abbrev pub refresh_all : Host → Host
refresh_all h = record h { srv = refresh_taskbars h.srv }

-- `close_menu`.
unfoldable pub close_menu : Host → Host
close_menu h = record h {
  srv = emit_if h.menu_tree (node_destroy tray_menu_tree) h.srv;
  menu_item = none;
  menu_proxy = false;
  menu_entries = [];
  menu_tree = false;
  menu_hovered = none;
}

abbrev pub starts_with_slash : Bytes → Bool
starts_with_slash [] = false
starts_with_slash (c ∷ cs) = c == b'/'

-- The bus name and the object path of a service that registers.
unfoldable pub names_of : Bytes → Bytes → Bytes × Bytes
names_of service sender =
    if starts_with_slash service then (sender, service) else (service, codes "/StatusNotifierItem")

unfoldable pub is_item : Bytes × Bytes → Item → Bool
is_item (bus, path) i = same i.bus_name bus && same i.object_path path

-- `std::make_unique<tray_item>()` at the address `a`.
unfoldable pub new_item : ℕ → Bytes × Bytes → Item
new_item a (bus, path) = record {
  address = a;
  bus_name = bus;
  object_path = path;
  menu_path = [];
  icon_pixels = [];
  icon_width = 0;
  icon_height = 0;
  icon_gen = 0;
}

-- The call that `fetch_icon` makes, and that of `fetch_menu_path`.
abbrev pub fetch_icon : ℕ → Host → Host
fetch_icon a h = call (get_icon_pixmap a) h

abbrev pub fetch_menu_path : ℕ → Host → Host
fetch_menu_path a h = call (get_menu_path a) h

-- The signals `NewIcon` and `NewAttentionIcon` of an item.
unfoldable pub handle_new_icon : ℕ → Host → Host
handle_new_icon a h = refresh_all (fetch_icon a h)

unfoldable pub add_item : Item → Host → Host
add_item i h =
    let asked = fetch_menu_path i.address (fetch_icon i.address h) in
    refresh_all (call (item_registered i.bus_name) (record asked { items = asked.items ++ i ∷ [] }))

-- `handle_register`; `a` is the address that a new item gets.
unfoldable pub handle_register : Bus → ℕ → Bytes → Bytes → Host → Host
handle_register bus a service sender h =
    let names = names_of service sender in
    if is_empty service
    then h
    else if any (is_item names) h.items
    then h
    else if bus.item_proxy names.0 names.1
    then add_item (new_item a names) h
    else h

unfoldable pub item_at_address : ℕ → List Item → Option Item
item_at_address a items = find (λ i. i.address == a) items

abbrev pub on_bus : Bytes → Option Item → Bool
on_bus bus none = false
on_bus bus (some i) = same i.bus_name bus

-- The item of the open menu.
unfoldable pub menu_owner : Host → Option Item
menu_owner h = elim h.menu_item [ none ↦ none | some a ↦ item_at_address a h.items ]

-- The loop of `handle_unregister`: the items that stay, with a signal for each that goes.
unfoldable pub erase_items : Bytes → List Item → List BusCall → List Item × List BusCall
erase_items bus [] cs = ([], cs)
erase_items bus (i ∷ is) cs =
    let gone = same i.bus_name bus in
    let rest = erase_items bus is (if gone then item_unregistered bus ∷ cs else cs) in
    (if gone then rest.0 else i ∷ rest.0, rest.1)

-- `handle_unregister`.
unfoldable pub handle_unregister : Bytes → Host → Host
handle_unregister bus h =
    let h1 = if on_bus bus (menu_owner h) then close_menu h else h in
    let kept = erase_items bus h1.items h1.bus_calls in
    let h2 = record h1 { items = kept.0; bus_calls = kept.1 } in
    if any (λ i. same i.bus_name bus) h1.items then refresh_all h2 else h2

-- `activate` and `secondary_activate`, with the index of the item.
unfoldable pub on_item : (ℕ → ℤ → ℤ → BusCall) → ℕ → ℤ → ℤ → Host → Host
on_item c index x y h = elim (get_elem? h.items index) [
  | none ↦ h
  | some i ↦ call (c i.address x y) h
]

unfoldable pub activate : ℕ → ℤ → ℤ → Host → Host
unfolding on_item
activate index x y h = on_item activate_item index x y h

unfoldable pub secondary_activate : ℕ → ℤ → ℤ → Host → Host
unfolding on_item
secondary_activate index x y h = on_item secondary_activate_item index x y h

-- Changes the item at an address.
unfoldable pub change_item : ℕ → (Item → Item) → List Item → List Item
change_item a f [] = []
change_item a f (i ∷ is) = if i.address == a then f i ∷ is else i ∷ change_item a f is

-- The reply to `fetch_menu_path`; a reply of another type, or an error, is none.
unfoldable pub menu_path_reply : ℕ → Option Bytes → Host → Host
menu_path_reply a none h = h
menu_path_reply a (some path) h = record h {
  items = change_item a (λ i. record i { menu_path = path }) h.items;
}
