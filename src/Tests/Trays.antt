-- ===== src/Tests/Trays.antt =====
-- The theorems on the tray and on the volume: two items, of which one has a menu, and a change of the volume.
use steppewm.Base.{
  ℕ, zero, suc, ◌*◌, ◌≤◌, ℤ, pos, negsuc, ◌+ℤ◌, ◌-ℤ◌, ◌*ℤ◌, ◌/ℤ◌, Bool, true, false, none, some,
  List, [], ◌∷◌, ◌≡◌, refl, ap, All, elem, arith, Bytes, codes, length,
}
use steppewm.Base.{same}
use steppewm.Tray.{Item, Entry, Child, Bus, Host}
use steppewm.Tray.Menu.{
  display, max_text_w, total_h, item_height, render_menu, draw_rows, menu_item_at,
}
use steppewm.Tray.Rows.{IsHit, menu_item_at-render_menu}
use steppewm.Tray.Pixels.{
  Pixmap, width_diff, nearest, premultiply, pixel, convert_pixels, decode_pixmap, decode_pixmaps,
}
use steppewm.Tray.Decoded.{IsDecoded, decode_pixmaps-IsDecoded}
use steppewm.Tray.Dirs.{dirs_loop, split_dirs, dirs_loop-split_dirs}
use steppewm.Tray.Icons.{Files, find_icon_path}
use steppewm.Tray.Caching.{IsDecimal, IsFound, find_icon_path-IsFound}
use steppewm.Tray.Sound.{IsSound}
use steppewm.Tray.Sound.Runs.{
  TrayEvent, registered, unregistered, menu_path_arrived, menu_requested, menu_hovered,
  menu_clicked, run_events, run_events-IsSound,
}
use steppewm.Volume.{SinkInfo, percent_of, is_tracked, display_of, level_text}
use steppewm.Volume.Threads.{
  outside, waiting, Monitor, sink_info, exchange_volume, exchange_muted, notify, wake, read_muted,
  Reach, here, next,
}
use steppewm.Volume.Shown.{Reach-shown}
use steppewm.View.{bool_eq}
use steppewm.Tests.{desk}

abbrev text_w : Bytes → ℤ
text_w t = pos (8 * length t)

abbrev quit : Child
quit = record {
  id = pos 7;
  kind = none;
  label = some (codes "_Quit");
  toggle_type = none;
  enabled = none;
  visible = none;
  toggle_state = none;
}

abbrev bus : Bus
bus = record {
  item_proxy = λ name path. true;
  menu_proxy = λ name path. true;
  get_layout = λ name path. some (some quit ∷ none ∷ []);
}

abbrev empty_tray : Host
empty_tray = record {
  srv = desk;
  items = [];
  menu_item = none;
  menu_proxy = false;
  menu_entries = [];
  menu_tree = false;
  menu_x = pos 0;
  menu_y = pos 0;
  menu_w = pos 0;
  menu_h = pos 0;
  menu_item_h = pos 0;
  menu_hovered = none;
  bus_calls = [];
}

-- An item registers, its menu is opened, the pointer moves over it and clicks; it is opened again, and the item
-- goes.
abbrev day : List TrayEvent
day =
    registered 1 (codes "/item") (codes ":1.4")
    ∷ registered 2 (codes "org.app") (codes ":1.5")
    ∷ menu_path_arrived 1 (some (codes "/menu"))
    ∷ menu_requested 0 (pos 900) (pos 1050)
    ∷ menu_hovered (pos 230400) (pos 266000)
    ∷ menu_clicked (some 0)
    ∷ menu_requested 0 (pos 900) (pos 1050)
    ∷ unregistered (codes ":1.4")
    ∷ []

run_events-IsSound_example :
    (r : Host) × (run_events text_w bus (λ name. []) (λ path. none) day empty_tray ≡ some r)
    × IsSound r
run_events-IsSound_example =
    run_events-IsSound text_w bus (λ name. []) (λ path. none) (λ name path. refl) day empty_tray
      (record { unique = tt; owned = refl; held = refl; proxied = refl; hovered = tt })

abbrev entry : Bool → Bool → Entry
entry enabled separator = record {
  id = pos 1;
  label = codes "Open";
  enabled = enabled;
  visible = true;
  separator = separator;
  toggle_type = [];
  toggle_state = negsuc 0;
}

-- The menu with an entry, a separator and another entry at (800, 1000).
abbrev open_tray : Host
open_tray = record empty_tray {
  menu_item = some 1;
  menu_proxy = true;
  menu_entries = entry true false ∷ entry true true ∷ entry true false ∷ [];
  menu_tree = true;
  menu_x = pos 800;
  menu_y = pos 1000;
}

menu_item_at-render_menu_example :
    let h = render_menu text_w open_tray in
    IsHit h.menu_item_h
      (pos 262144 -ℤ pos 1000 *ℤ pos 256)
      (draw_rows h.menu_item_h (pos 0) open_tray.menu_entries)
      0
      (menu_item_at (pos 206080) (pos 262144) h)
unfolding render_menu max_text_w display total_h item_height ◌+ℤ◌ ◌-ℤ◌ ◌*ℤ◌ ◌/ℤ◌
menu_item_at-render_menu_example =
    menu_item_at-render_menu text_w (pos 206080) (pos 262144) open_tray refl (omega arith)
      (omega arith) (omega arith) (omega arith)

abbrev item : Item
item = record {
  address = 1;
  bus_name = codes ":1.4";
  object_path = codes "/item";
  menu_path = [];
  icon_pixels = [];
  icon_width = 0;
  icon_height = 0;
  icon_gen = 4;
}

-- Two pixels, the first half transparent; the other pixmap is further from the target.
abbrev pixmaps : List Pixmap
pixmaps =
    record { width = pos 1; height = pos 1; bytes = 255 ∷ 0 ∷ 0 ∷ 0 ∷ [] }
    ∷ record { width = pos 2; height = pos 1; bytes = 128 ∷ 255 ∷ 0 ∷ 10 ∷ 255 ∷ 1 ∷ 2 ∷ 3 ∷ [] }
    ∷ []

abbrev new_icon : Item
new_icon = record item {
  icon_width = 2;
  icon_height = 1;
  icon_pixels = 2155872261 ∷ 4278256131 ∷ [];
  icon_gen = 5;
}

decode_pixmaps-IsDecoded_example :
    (p : Pixmap) × IsDecoded p item new_icon
    × All (λ q. width_diff (pos 30) p ≤ width_diff (pos 30) q) pixmaps
unfolding decode_pixmaps decode_pixmap nearest width_diff convert_pixels pixel premultiply ◌-ℤ◌
decode_pixmaps-IsDecoded_example =
    decode_pixmaps-IsDecoded pixmaps (pos 30) item new_icon (omega arith) refl

dirs_loop-split_dirs_example :
    dirs_loop 9 (codes "/a::/b/c:") ≡ some (split_dirs [] (codes "/a::/b/c:"))
dirs_loop-split_dirs_example = dirs_loop-split_dirs 9 (codes "/a::/b/c:") (omega arith)

-- Numbers written as strokes.
abbrev pub strokes : ℕ → Bytes
strokes zero = []
strokes (suc n) = b'1' ∷ strokes n

abbrev tally : ℤ → Bytes
tally (pos n) = b'+' ∷ strokes n
tally (negsuc n) = b'-' ∷ strokes n

strokes_no_hash : (n : ℕ) → elem b'#' (strokes n) ≡ false
strokes_no_hash zero = refl
strokes_no_hash (suc n) = ground (arith, strokes_no_hash n)

tally_no_hash : (n : ℤ) → elem b'#' (tally n) ≡ false
tally_no_hash (pos n) = ground (arith, strokes_no_hash n)
tally_no_hash (negsuc n) = ground (arith, strokes_no_hash n)

length-strokes : (n : ℕ) → length (strokes n) ≡ n
length-strokes zero = refl
length-strokes (suc n) = omega (arith, length-strokes n)

tally_injective : (m n : ℤ) → tally m ≡ tally n → m ≡ n
tally_injective (pos m) (pos n) e =
    let l = ap length e in ap pos (omega (arith, length-strokes m, length-strokes n))
tally_injective (pos m) (negsuc n) e = ground arith
tally_injective (negsuc m) (pos n) e = ground arith
tally_injective (negsuc m) (negsuc n) e =
    let l = ap length e in ap negsuc (omega (arith, length-strokes m, length-strokes n))

abbrev files : Files
files = record { xdg_data_dirs = some (codes "/opt:/usr/share"); readable = λ path. false }

decimal : IsDecimal tally
decimal = record { no_hash = tally_no_hash; injective = tally_injective }

find_icon_path-IsFound_example :
    (path : Bytes) × (after : List (Bytes × Bytes)) × (fresh : List (Bytes × Bytes))
    × (find_icon_path tally files (codes "mail") (pos 3) [] ≡ some (path, after))
    × All (IsFound tally decimal files) after
    × (find_icon_path tally files (codes "mail") (pos 3) [] ≡ some (path, fresh))
find_icon_path-IsFound_example =
    find_icon_path-IsFound tally decimal files (codes "mail") (pos 3) [] tt

abbrev quiet : Monitor
quiet = record {
  volume = pos 50;
  muted = false;
  sink_name = codes "speakers";
  wakes = 0;
  pulse = outside;
  main = waiting;
  shown = level_text (pos 50);
}

abbrev info : SinkInfo
info = record { name = codes "speakers"; avg = 32768; mute = true }

-- The sound is turned down to 50% and off: the main thread wakes once, and shows that it is off.
abbrev turned_off : Monitor
turned_off = record quiet { muted = true; shown = display_of (pos 50) true }

turning_off : Reach quiet turned_off
unfolding percent_of is_tracked bool_eq same
turning_off =
    next
      (next
        (next
          (next
            (next (next here (sink_info _ info refl refl)) (exchange_volume _ (pos 50) true refl))
            (exchange_muted _ true false refl))
          (notify _ refl))
        (wake _ refl (omega arith)))
      (read_muted _ refl refl)

Reach-shown_example : turned_off.shown ≡ display_of (pos 50) true
unfolding display_of
Reach-shown_example = Reach-shown quiet turned_off turning_off refl refl refl refl refl
