-- ===== src/Tray/Pixels.antt =====
-- The icons of tray items: `decode_pixmaps`, `load_icon_file` and the replies to `fetch_icon` and
-- `fetch_icon_name` of src/tray.cc. What Cairo and librsvg read from a file is an argument.
use steppewm.Base.{
  ℕ, suc, ◌+◌, ◌*◌, ◌/◌, ◌^◌, ℤ, pos, pos_part, ◌-ℤ◌, ltb_ℤ, leb_ℤ, ltb, Bool, false, ◌&&◌, ◌||◌,
  Option, none, some, List, [], ◌∷◌, length, if◌then◌else◌, ◌==◌, is_some, Bytes, is_empty,
  neg_part,
}
use steppewm.Tray.{Item, Host, call, refresh_all, change_item, get_icon_name}

-- `Pixmap`: its size, and its pixels as bytes in the order alpha, red, green, blue.
pub record Pixmap : Type 0 where
  pub width : ℤ
  pub height : ℤ
  pub bytes : Bytes

-- `abs(std::get<0>(pm) - target)`.
unfoldable pub width_diff : ℤ → Pixmap → ℕ
width_diff target p = pos_part (p.width -ℤ target) + neg_part (p.width -ℤ target)

-- The first pixmap whose width is nearest to the target.
unfoldable pub nearest : ℤ → Pixmap → List Pixmap → Pixmap
nearest target best [] = best
nearest target best (p ∷ ps) =
    nearest target (if ltb (width_diff target p) (width_diff target best) then p else best) ps

-- A channel, multiplied by alpha where that is neither none nor full.
unfoldable pub premultiply : ℕ → ℕ → ℕ
premultiply a c = if ltb 0 a && ltb a 255 then (c * a + 127) / 255 else c

unfoldable pub pixel : ℕ → ℕ → ℕ → ℕ → ℕ
pixel a r g b = a * 2 ^ 24 + premultiply a r * 2 ^ 16 + premultiply a g * 2 ^ 8 + premultiply a b

-- The first `count` pixels; the caller has seen that there are as many.
unfoldable pub convert_pixels : ℕ → Bytes → List ℕ
convert_pixels (suc n) (a ∷ r ∷ g ∷ b ∷ rest) = pixel a r g b ∷ convert_pixels n rest
convert_pixels _ _ = []

unfoldable pub decode_pixmap : Pixmap → Item → Option Item
decode_pixmap p i =
    let w = pos_part p.width in
    let h = pos_part p.height in
    let refused =
      leb_ℤ p.width (pos 0)
      || leb_ℤ p.height (pos 0)
      || ltb_ℤ (pos 1024) p.width
      || ltb_ℤ (pos 1024) p.height in
    if refused || ltb (length p.bytes) (w * h * 4)
    then none
    else some (record i {
      icon_width = w;
      icon_height = h;
      icon_pixels = convert_pixels (w * h) p.bytes;
      icon_gen = i.icon_gen + 1;
    })

-- `decode_pixmaps`; none is its `false`.
unfoldable pub decode_pixmaps : List Pixmap → ℤ → Item → Option Item
decode_pixmaps [] target i = none
decode_pixmaps (p ∷ ps) target i = decode_pixmap (nearest target p ps) i

-- An image of a file: its size and its pixels.
pub record Image : Type 0 where
  pub w : ℤ
  pub h : ℤ
  pub pixels : List ℕ

unfoldable pub use_image : Image → Item → Option Item
use_image m i =
    let refused =
      leb_ℤ m.w (pos 0) || leb_ℤ m.h (pos 0) || ltb_ℤ (pos 4096) m.w || ltb_ℤ (pos 4096) m.h in
    if refused
    then none
    else some (record i {
      icon_width = pos_part m.w;
      icon_height = pos_part m.h;
      icon_pixels = m.pixels;
      icon_gen = i.icon_gen + 1;
    })

-- `load_icon_file`, for what is read from the file.
unfoldable pub load_icon_file : Option Image → Item → Option Item
load_icon_file none i = none
load_icon_file (some m) i = use_image m i

abbrev pub or_same : (Item → Option Item) → Item → Item
or_same f i = elim (f i) [ none ↦ i | some j ↦ j ]

abbrev pub succeeds : (Item → Option Item) → ℕ → List Item → Bool
succeeds f a [] = false
succeeds f a (i ∷ is) = if i.address == a then is_some (f i) else succeeds f a is

-- Changes the icon of an item, and says whether that worked.
unfoldable pub change_icon : ℕ → (Item → Option Item) → Host → Host × Bool
change_icon a f h = (record h { items = change_item a (or_same f) h.items }, succeeds f a h.items)

-- The reply to `fetch_icon`: the pixmaps, none of them if there was an error.
unfoldable pub icon_reply : ℕ → List Pixmap → ℤ → Host → Host
icon_reply a pixmaps target h =
    let (h1, done) = change_icon a (decode_pixmaps pixmaps target) h in
    if done then refresh_all h1 else call (get_icon_name a) h

-- The reply to `fetch_icon_name`: the icon's name, if there is one; `find_path` is `find_icon_path`, and
-- `read_image` reads a file.
unfoldable pub icon_name_reply :
    (Bytes → Bytes) → (Bytes → Option Image) → ℕ → Option Bytes → Host → Host
icon_name_reply find_path read_image a none h = h
icon_name_reply find_path read_image a (some name) h =
    let path = find_path name in
    let (h1, done) = change_icon a (load_icon_file (read_image path)) h in
    if is_empty name || is_empty path then h else if done then refresh_all h1 else h
