-- ===== src/Tray/Decoded.antt =====
-- What `decode_pixmaps` makes of the pixmaps of an item (src/tray.cc).
use steppewm.Base.{
  ℕ, zero, suc, ◌+◌, ◌*◌, ◌/◌, ◌%◌, ◌^◌, ◌≤◌, ◌<◌, ℤ, pos, pos_part, ltb_ℤ, leb_ℤ, ltb, Bool, true,
  not, negsuc, subst, sym, false, ◌||◌, some, List, [], ◌∷◌, ◌≡◌, inl, inr, refl, arith, All,
  length, if◌then◌else◌, Bytes, Bool-cases,
}
use steppewm.Tray.{Item}
use steppewm.Tray.Pixels.{
  Pixmap, width_diff, nearest, premultiply, pixel, convert_pixels, decode_pixmap, decode_pixmaps,
}

-- What becomes of a channel `c` of a pixel with the alpha `a`: `d` is the integer nearest to `c * a / 255`.
-- With no alpha it is left as it came.
abbrev pub IsChannel : (a c d : ℕ) → Type 0
IsChannel a c d = (a ≡ 0 → d ≡ c) × (0 < a → (255 * d ≤ c * a + 127) × (c * a ≤ 255 * d + 127))

-- A pixel of 32 bits for these bytes: the alpha on top, then the three channels multiplied by it.
abbrev pub IsPixel : (a r g b px : ℕ) → Type 0
IsPixel a r g b px =
    (px < 2 ^ 32)
    × (px / 2 ^ 24 ≡ a)
    × IsChannel a r (px / 2 ^ 16 % 2 ^ 8)
    × IsChannel a g (px / 2 ^ 8 % 2 ^ 8)
    × IsChannel a b (px % 2 ^ 8)

-- The pixels are, one after the other, those of four bytes each.
abbrev pub AreConverted : Bytes → List ℕ → Type 0
AreConverted bs [] = Unit
AreConverted (a ∷ r ∷ g ∷ b ∷ rest) (px ∷ pxs) = IsPixel a r g b px × AreConverted rest pxs
AreConverted bs (px ∷ pxs) = ⊥

premultiply-IsChannel : (a c : ℕ) → a < 256 → IsChannel a c (premultiply a c)
unfolding premultiply
premultiply-IsChannel a c h = ground arith

premultiply-le : (a c : ℕ) → 0 < a → a < 256 → c < 256 → premultiply a c ≤ a
unfolding premultiply
premultiply-le a c lo hi h = elim (Bool-cases (ltb a 255)) [
  | inl e ↦ let m : c * a ≤ 255 * a = grind arith in ground arith
  | inr e ↦ ground arith
]

premultiply-lt : (a c : ℕ) → a < 256 → c < 256 → premultiply a c < 256
unfolding premultiply
premultiply-lt a c lo h = elim (Bool-cases (ltb 0 a)) [
  | inl e ↦ let m = premultiply-le a c (ground arith) lo h in omega arith
  | inr e ↦ ground arith
]

-- The four parts of a pixel.
abbrev packed : ℕ → ℕ → ℕ → ℕ → ℕ
packed a x y z = a * 2 ^ 24 + x * 2 ^ 16 + y * 2 ^ 8 + z

packed_lem :
    (a x y z : ℕ)
    → a < 256
    → x < 256
    → y < 256
    → z < 256
    → let px = packed a x y z in
      (px < 2 ^ 32)
      × (px / 2 ^ 24 ≡ a)
      × (px / 2 ^ 16 % 2 ^ 8 ≡ x)
      × (px / 2 ^ 8 % 2 ^ 8 ≡ y)
      × (px % 2 ^ 8 ≡ z)
packed_lem a x y z ha hx hy hz = (omega arith, omega arith, omega arith, omega arith, omega arith)

pixel-IsPixel :
    (a r g b : ℕ) → a < 256 → r < 256 → g < 256 → b < 256 → IsPixel a r g b (pixel a r g b)
unfolding pixel
pixel-IsPixel a r g b ha hr hg hb =
    let (whole, alpha, x, y, z) =
      packed_lem a (premultiply a r) (premultiply a g) (premultiply a b) ha
        (premultiply-lt a r ha hr) (premultiply-lt a g ha hg) (premultiply-lt a b ha hb) in
    (
      whole,
      alpha,
      subst (IsChannel a r) (sym x) (premultiply-IsChannel a r ha),
      subst (IsChannel a g) (sym y) (premultiply-IsChannel a g ha),
      subst (IsChannel a b) (sym z) (premultiply-IsChannel a b ha),
    )

abbrev IsByte : ℕ → Type 0
IsByte c = c < 256

convert_pixels-AreConverted :
    (n : ℕ) (bs : Bytes) → All IsByte bs → AreConverted bs (convert_pixels n bs)
unfolding convert_pixels
convert_pixels-AreConverted zero bs h = tt
convert_pixels-AreConverted (suc n) [] h = tt
convert_pixels-AreConverted (suc n) (a ∷ []) h = tt
convert_pixels-AreConverted (suc n) (a ∷ r ∷ []) h = tt
convert_pixels-AreConverted (suc n) (a ∷ r ∷ g ∷ []) h = tt
convert_pixels-AreConverted (suc n) (a ∷ r ∷ g ∷ b ∷ rest) h = (
  pixel-IsPixel a r g b h.0 h.1.0 h.1.1.0 h.1.1.1.0,
  convert_pixels-AreConverted n rest h.1.1.1.1,
)

length-convert_pixels : (n : ℕ) (bs : Bytes) → n * 4 ≤ length bs → length (convert_pixels n bs) ≡ n
unfolding convert_pixels
length-convert_pixels zero bs h = refl
length-convert_pixels (suc n) [] h = absurd (omega arith)
length-convert_pixels (suc n) (a ∷ []) h = absurd (omega arith)
length-convert_pixels (suc n) (a ∷ r ∷ []) h = absurd (omega arith)
length-convert_pixels (suc n) (a ∷ r ∷ g ∷ []) h = absurd (omega arith)
length-convert_pixels (suc n) (a ∷ r ∷ g ∷ b ∷ rest) h =
    omega (arith, length-convert_pixels n rest (omega arith))

-- The icon is that of the pixmap `p`: its size, from 1 to 1024 pixels each way, as many pixels as it needs,
-- those of the pixmap's bytes, and a new generation.
pub record IsDecoded (p : Pixmap) (i j : Item) : Type 0 where
  pub wide : (pos j.icon_width ≡ p.width) × (0 < j.icon_width) × (j.icon_width ≤ 1024)
  pub tall : (pos j.icon_height ≡ p.height) × (0 < j.icon_height) × (j.icon_height ≤ 1024)
  pub filled : length j.icon_pixels ≡ j.icon_width * j.icon_height
  pub same : AreConverted p.bytes j.icon_pixels
  pub newer : j.icon_gen ≡ i.icon_gen + 1

-- The icon of `p`, if its size is not refused.
abbrev decoded : Pixmap → Item → Item
decoded p i = record i {
  icon_width = pos_part p.width;
  icon_height = pos_part p.height;
  icon_pixels = convert_pixels (pos_part p.width * pos_part p.height) p.bytes;
  icon_gen = i.icon_gen + 1;
}

fits : Pixmap → Bool
fits p = not (
    leb_ℤ p.width (pos 0)
    || leb_ℤ p.height (pos 0)
    || ltb_ℤ (pos 1024) p.width
    || ltb_ℤ (pos 1024) p.height
    || ltb (length p.bytes) (pos_part p.width * pos_part p.height * 4))

decode_pixmap_lem :
    (p : Pixmap) (i j : Item) → decode_pixmap p i ≡ some j → (fits p ≡ true) × (decoded p i ≡ j)
unfolding decode_pixmap fits
decode_pixmap_lem p i j h = (ground arith, ground arith)

positive : (w : ℤ) → leb_ℤ w (pos 0) ≡ false → (pos (pos_part w) ≡ w) × (0 < pos_part w)
positive (pos n) h = (refl, ground arith)
positive (negsuc n) h = ground arith

decoded-IsDecoded :
    (p : Pixmap) (i : Item) → All IsByte p.bytes → fits p ≡ true → IsDecoded p i (decoded p i)
unfolding fits
decoded-IsDecoded p i bytes h =
    let n = pos_part p.width * pos_part p.height in
    let w = positive p.width (ground arith) in
    let t = positive p.height (ground arith) in
    record {
      wide = (w.0, w.1, ground arith);
      tall = (t.0, t.1, ground arith);
      filled = length-convert_pixels n p.bytes (ground arith);
      same = convert_pixels-AreConverted n p.bytes bytes;
      newer = refl;
    }

decode_pixmap-IsDecoded :
    (p : Pixmap) (i j : Item) → All IsByte p.bytes → decode_pixmap p i ≡ some j → IsDecoded p i j
decode_pixmap-IsDecoded p i j bytes h =
    let (f, e) = decode_pixmap_lem p i j h in
    subst (IsDecoded p i) e (decoded-IsDecoded p i bytes f)

abbrev nearer : ℤ → Pixmap → Pixmap → Pixmap
nearer target best p = if ltb (width_diff target p) (width_diff target best) then p else best

nearer_le :
    (target : ℤ) (best p : Pixmap)
    → (width_diff target (nearer target best p) ≤ width_diff target best)
      × (width_diff target (nearer target best p) ≤ width_diff target p)
nearer_le target best p = ground arith

nearest-le-best :
    (target : ℤ) (best : Pixmap) (ps : List Pixmap)
    → width_diff target (nearest target best ps) ≤ width_diff target best
unfolding nearest
nearest-le-best target best [] = omega arith
nearest-le-best target best (p ∷ ps) =
    omega (arith, nearest-le-best target (nearer target best p) ps, nearer_le target best p)

nearest-le :
    (target : ℤ) (best : Pixmap) (ps : List Pixmap)
    → All (λ q. width_diff target (nearest target best ps) ≤ width_diff target q) ps
unfolding nearest
nearest-le target best [] = tt
nearest-le target best (p ∷ ps) = (
  omega (arith, nearest-le-best target (nearer target best p) ps, nearer_le target best p),
  nearest-le target (nearer target best p) ps,
)

nearest-All {κ} :
    (P : Pixmap → Type κ) (target : ℤ) (best : Pixmap) (ps : List Pixmap)
    → P best
    → All P ps
    → P (nearest target best ps)
unfolding nearest
nearest-All P target best [] h k = h
nearest-All P target best (p ∷ ps) h k =
    elim (Bool-cases (ltb (width_diff target p) (width_diff target best))) [
      | inl e ↦ rw e (nearest-All P target p ps k.0 k.1)
      | inr e ↦ rw e (nearest-All P target best ps h k.1)
    ]

-- Where `decode_pixmaps` succeeds on pixmaps of bytes, the icon is that of a pixmap whose width is as near
-- to the target as that of any other: 1 to 1024 pixels wide and high, with exactly as many pixels as that,
-- each of 32 bits and made of four of the pixmap's bytes, the alpha as it is and the colors multiplied
-- by it and rounded to the nearest, but left as they are where the alpha is 0.
pub decode_pixmaps-IsDecoded :
    (ps : List Pixmap) (target : ℤ) (i j : Item)
    → All (λ p. All IsByte p.bytes) ps
    → decode_pixmaps ps target i ≡ some j
    → (p : Pixmap) × IsDecoded p i j × All (λ q. width_diff target p ≤ width_diff target q) ps
unfolding decode_pixmaps
decode_pixmaps-IsDecoded [] target i j bytes h = ground arith
decode_pixmaps-IsDecoded (p ∷ ps) target i j bytes h =
    let q = nearest target p ps in
    let bytes_of = nearest-All (λ p. All IsByte p.bytes) target p ps bytes.0 bytes.1 in
    (
      q,
      decode_pixmap-IsDecoded q i j bytes_of h,
      (nearest-le-best target p ps, nearest-le target p ps),
    )
