-- ===== src/Tray/Sound/Runs.antt =====
-- The tray's events, one after the other (src/tray.cc).
use steppewm.Base.{ℕ, ℤ, true, Option, none, some, List, [], ◌∷◌, ◌≡◌, refl, Bytes}
use steppewm.Tray.{
  Bus, Host, close_menu, handle_register, handle_new_icon, handle_unregister, activate,
  secondary_activate, menu_path_reply, activate_item, secondary_activate_item,
}
use steppewm.Tray.Pixels.{Pixmap, Image, icon_reply, icon_name_reply}
use steppewm.Tray.Sound.Icons.{icon_reply-IsSound, icon_name_reply-IsSound}
use steppewm.Tray.Menu.{menu_click, menu_hover, context_menu}
use steppewm.Tray.Sound.{
  IsSound, close_menu-IsSound, on_item-IsSound, handle_register-IsSound, menu_path_reply-IsSound,
  handle_unregister-IsSound,
}
use steppewm.Tray.Sound.Menus.{menu_click-IsSound, menu_hover-IsSound, context_menu-IsSound}

-- What happens to the tray: an item registers, at a new address, or its bus name goes; its icon changes; the path of its
-- menu arrives, its icon, or the icon's name; the pointer clicks an item, asks for its menu, moves over the menu or clicks in it; the menu closes.
pub data TrayEvent : Type 0 where
  registered : ℕ → Bytes → Bytes → TrayEvent
  unregistered : Bytes → TrayEvent
  icon_changed : ℕ → TrayEvent
  menu_path_arrived icon_name_arrived : ℕ → Option Bytes → TrayEvent
  icon_arrived : ℕ → List Pixmap → ℤ → TrayEvent
  activated secondary_activated menu_requested : ℕ → ℤ → ℤ → TrayEvent
  menu_hovered : ℤ → ℤ → TrayEvent
  menu_clicked : Option ℕ → TrayEvent
  menu_closed : TrayEvent

module _ (text_w : Bytes → ℤ) (bus : Bus) (find_path : Bytes → Bytes)
    (read_image : Bytes → Option Image) where
  -- The handler of the event.
  unfoldable pub handle_event : TrayEvent → Host → Option Host
  handle_event (registered a service sender) h = some (handle_register bus a service sender h)
  handle_event (unregistered name) h = some (handle_unregister name h)
  handle_event (icon_changed a) h = some (handle_new_icon a h)
  handle_event (menu_path_arrived a reply) h = some (menu_path_reply a reply h)
  handle_event (icon_arrived a pixmaps target) h = some (icon_reply a pixmaps target h)
  handle_event (icon_name_arrived a name) h = some (icon_name_reply find_path read_image a name h)
  handle_event (activated index x y) h = some (activate index x y h)
  handle_event (secondary_activated index x y) h = some (secondary_activate index x y h)
  handle_event (menu_requested index x y) h = context_menu text_w bus index x y h
  handle_event (menu_hovered x y) h = some (menu_hover text_w x y h)
  handle_event (menu_clicked i) h = menu_click i h
  handle_event menu_closed h = some (close_menu h)

  unfoldable pub run_events : List TrayEvent → Host → Option Host
  run_events [] h = some h
  run_events (e ∷ es) h = elim (handle_event e h) [ none ↦ none | some r ↦ run_events es r ]

  module _ (reachable : (name path : Bytes) → bus.menu_proxy name path ≡ true) where
    handle_event-IsSound :
        (e : TrayEvent) (h : Host)
        → IsSound h
        → (r : Host) × (handle_event e h ≡ some r) × IsSound r
    unfolding handle_event activate secondary_activate handle_new_icon
    handle_event-IsSound (registered a service sender) h s =
        (_, refl, handle_register-IsSound bus a service sender h s)
    handle_event-IsSound (unregistered name) h s = (_, refl, handle_unregister-IsSound name h s)
    handle_event-IsSound (icon_changed a) h s = (
      _,
      refl,
      record {
        unique = s.unique;
        owned = s.owned;
        held = s.held;
        proxied = s.proxied;
        hovered = s.hovered;
      },
    )
    handle_event-IsSound (menu_path_arrived a reply) h s =
        (_, refl, menu_path_reply-IsSound a reply h s)
    handle_event-IsSound (icon_arrived a pixmaps target) h s =
        (_, refl, icon_reply-IsSound a pixmaps target h s)
    handle_event-IsSound (icon_name_arrived a name) h s =
        (_, refl, icon_name_reply-IsSound find_path read_image a name h s)
    handle_event-IsSound (activated index x y) h s =
        (_, refl, on_item-IsSound activate_item index x y h s)
    handle_event-IsSound (secondary_activated index x y) h s =
        (_, refl, on_item-IsSound secondary_activate_item index x y h s)
    handle_event-IsSound (menu_requested index x y) h s =
        context_menu-IsSound text_w bus reachable index x y h s
    handle_event-IsSound (menu_hovered x y) h s = (_, refl, menu_hover-IsSound text_w x y h s)
    handle_event-IsSound (menu_clicked i) h s = menu_click-IsSound text_w i h s
    handle_event-IsSound menu_closed h s = (_, refl, close_menu-IsSound h s.unique)

    -- If the proxy of a menu can always be made, every sequence of the tray's events runs through, and from a
    -- sound tray it leads to a sound one: no two items have the same bus name and path, the open menu
    -- belongs to an item of the list and has the proxy that a click goes through, and the hovered row
    -- is a row of it.
    pub run_events-IsSound :
        (es : List TrayEvent) (h : Host)
        → IsSound h
        → (r : Host) × (run_events es h ≡ some r) × IsSound r
    unfolding run_events
    run_events-IsSound [] h s = (h, refl, s)
    run_events-IsSound (e ∷ es) h s =
        let step = handle_event-IsSound e h s in
        let rest = run_events-IsSound es step.0 step.2 in
        (rest.0, rw (step.1, run_events) rest.1, rest.2)
