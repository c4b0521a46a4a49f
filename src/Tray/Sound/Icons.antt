-- ===== src/Tray/Sound/Icons.antt =====
-- New icons and the soundness of the tray (src/tray.cc).
use steppewm.Base.{ℕ, ℤ, Option, none, some, List, [], ◌∷◌, ◌≡◌, refl, arith, Bytes}
use steppewm.Tray.{Item, Host}
use steppewm.Tray.Pixels.{
  Pixmap, decode_pixmap, decode_pixmaps, Image, use_image, load_icon_file, or_same, change_icon,
  icon_reply, icon_name_reply,
}
use steppewm.Tray.Sound.{IsSound, is_held-change_item}
use steppewm.Tray.Sound.Items.{IsTame, IsUnique-change_item}

-- A new icon has the names and the address of the item.
abbrev Keeps : (Item → Option Item) → Type 0
Keeps f =
    (i : Item)
    → ((or_same f i).bus_name ≡ i.bus_name)
      × ((or_same f i).object_path ≡ i.object_path)
      × ((or_same f i).address ≡ i.address)

or_same-IsTame : (f : Item → Option Item) → Keeps f → IsTame (or_same f)
or_same-IsTame f k = record {
  same_bus = λ i. (k i).0;
  same_path = λ i. (k i).1;
  same_address = λ i. (k i).2;
}

decode_pixmaps-Keeps : (ps : List Pixmap) (target : ℤ) → Keeps (decode_pixmaps ps target)
unfolding decode_pixmaps decode_pixmap
decode_pixmaps-Keeps [] target i = (refl, refl, refl)
decode_pixmaps-Keeps (p ∷ ps) target i = (ground arith, ground arith, ground arith)

load_icon_file-Keeps : (m : Option Image) → Keeps (load_icon_file m)
unfolding load_icon_file use_image
load_icon_file-Keeps none i = (refl, refl, refl)
load_icon_file-Keeps (some m) i = (ground arith, ground arith, ground arith)

change_icon-IsSound :
    (a : ℕ) (f : Item → Option Item) (h : Host)
    → Keeps f
    → IsSound h
    → IsSound (change_icon a f h).0
unfolding change_icon
change_icon-IsSound a f h k s =
    let tame = or_same-IsTame f k in
    record {
      unique = IsUnique-change_item a (or_same f) tame h.items s.unique;
      owned = s.owned;
      held = is_held-change_item a (or_same f) tame h.menu_item h.items s.held;
      proxied = s.proxied;
      hovered = s.hovered;
    }

pub icon_reply-IsSound :
    (a : ℕ) (ps : List Pixmap) (target : ℤ) (h : Host)
    → IsSound h
    → IsSound (icon_reply a ps target h)
unfolding icon_reply
icon_reply-IsSound a ps target h s =
    let f = decode_pixmaps ps target in
    let t = change_icon-IsSound a f h (decode_pixmaps-Keeps ps target) s in ground (arith, t)

pub icon_name_reply-IsSound :
    (find_path : Bytes → Bytes) (read_image : Bytes → Option Image) (a : ℕ) (name : Option Bytes)
    (h : Host)
    → IsSound h
    → IsSound (icon_name_reply find_path read_image a name h)
unfolding icon_name_reply
icon_name_reply-IsSound find_path read_image a none h s = s
icon_name_reply-IsSound find_path read_image a (some name) h s =
    let m = read_image (find_path name) in
    let t = change_icon-IsSound a (load_icon_file m) h (load_icon_file-Keeps m) s in
    ground (arith, t)
