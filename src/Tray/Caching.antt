-- ===== src/Tray/Caching.antt =====
-- The cache of icon paths and the search behind it: `find_icon_path` of src/tray.cc.
use steppewm.Base.{
  ℕ, ℤ, true, false, Option, none, some, List, [], ◌∷◌, ◌++◌, ◌≡◌, refl, ap, ◌∙◌, arith,
  if◌then◌else◌, elem, Bytes, same, same→eq, is_empty, Bool-cases, Option-cases, inl, inr, subst,
  All, ==_refl, codes, find, length,
}
use steppewm.Tray.{starts_with_slash}
use steppewm.Tray.Icons.{
  Files, Cache, lookup, path_or_empty, find_icon_path_uncached, cache_key, search_and_keep,
  look_up_or_search, find_icon_path, base_dirs, candidates,
}
use steppewm.Tray.Dirs.{split_dirs, dirs_loop-split_dirs}

-- What `std::to_string` does: no "#" among its digits, and a text for one number only.
pub record IsDecimal (to_string : ℤ → Bytes) : Type 0 where
  pub no_hash : (n : ℤ) → elem b'#' (to_string n) ≡ false
  pub injective : (m n : ℤ) → to_string m ≡ to_string n → m ≡ n

elem-append : (c : ℕ) (xs ys : Bytes) → elem c (xs ++ c ∷ ys) ≡ true
elem-append c [] ys = ground (arith, ==_refl c)
elem-append c (x ∷ xs) ys = ground (arith, elem-append c xs ys)

-- A text splits at its last "#" in one way.
split_last :
    (c : ℕ) (a b x y : Bytes)
    → elem c x ≡ false
    → elem c y ≡ false
    → (a ++ c ∷ x) ≡ (b ++ c ∷ y)
    → (a ≡ b) × (x ≡ y)
split_last c [] [] x y h k e = ground arith
split_last c [] (d ∷ b) x y h k e =
    let f : x ≡ b ++ c ∷ y = cc in absurd (ground (arith, ap (elem c) f, elem-append c b y))
split_last c (d ∷ a) [] x y h k e =
    let f : y ≡ a ++ c ∷ x = cc in absurd (ground (arith, ap (elem c) f, elem-append c a x))
split_last c (d ∷ a) (g ∷ b) x y h k e =
    let f : (a ++ c ∷ x) ≡ (b ++ c ∷ y) = cc in
    let r = split_last c a b x y h k f in (let hd : d ≡ g = cc in rw (hd, r.0) refl, r.1)

module _ (to_string : ℤ → Bytes) (decimal : IsDecimal to_string) (files : Files) where
  cache_key_injective :
      (a b : Bytes) (m n : ℤ)
      → cache_key to_string files a m ≡ cache_key to_string files b n
      → (a ≡ b) × (m ≡ n)
  unfolding cache_key
  cache_key_injective a b m n e =
      let r =
        split_last b'#' a b (to_string m) (to_string n) (decimal.no_hash m) (decimal.no_hash n) e in
      (r.0, decimal.injective m n r.1)

  -- An entry was put there by a search of these files.
  abbrev pub IsFound : Bytes × Bytes → Type 0
  IsFound entry =
      (name : Bytes) × (target : ℤ) × (cache_key to_string files name target ≡ entry.0)
      × (find_icon_path_uncached to_string files name target ≡ some entry.1)

  lookup-IsFound :
      (name : Bytes) (target : ℤ) (cache : Cache) (path : Bytes)
      → All IsFound cache
      → lookup (cache_key to_string files name target) cache ≡ some path
      → find_icon_path_uncached to_string files name target ≡ some path
  unfolding lookup
  lookup-IsFound name target [] path h e = ground arith
  lookup-IsFound name target ((k, p) ∷ cache) path h e =
      elim (Bool-cases (same k (cache_key to_string files name target))) [
        | inl s ↦
            let (n, u, key, found) = h.0 in
            let same_key = cache_key_injective n name u target (key ∙ same→eq k _ s) in
            let q : some p ≡ some path = rw s at e in
            subst (λ (m : Bytes). find_icon_path_uncached to_string files m target ≡ some path)
              same_key.0
              (subst (λ (v : ℤ). find_icon_path_uncached to_string files n v ≡ some path) same_key.1
                (found ∙ q))
        | inr s ↦ lookup-IsFound name target cache path h.1 (rw s at e)
      ]

  base_dirs_total : (xdg : Option Bytes) → (dirs : List Bytes) × (base_dirs xdg ≡ some dirs)
  unfolding base_dirs
  base_dirs_total none = (_, refl)
  base_dirs_total (some xdg) = elim (Bool-cases (is_empty xdg)) [
    | inl e ↦ (codes "/usr/share/icons" ∷ codes "/usr/local/share/icons" ∷ [], rw e refl)
    | inr e ↦ (split_dirs [] xdg, rw e (dirs_loop-split_dirs (length xdg) xdg (omega arith)))
  ]

  search_total :
      (name : Bytes) (target : ℤ)
      → (path : Bytes) × (find_icon_path_uncached to_string files name target ≡ some path)
  unfolding find_icon_path_uncached
  search_total name target =
      let (dirs, e) = base_dirs_total files.xdg_data_dirs in
      (
        path_or_empty (find files.readable (candidates to_string name target dirs)),
        rw (e, find_icon_path_uncached) refl,
      )

  -- The two ways to a path, where the name is neither empty nor itself a path.
  look_up_or_search-IsFound :
      (name : Bytes) (target : ℤ) (cache : Cache)
      → All IsFound cache
      → (path : Bytes) × (after : Cache) × (look_up_or_search to_string files name target cache
          ≡ some (path, after))
        × All IsFound after
        × (find_icon_path_uncached to_string files name target ≡ some path)
  unfolding look_up_or_search search_and_keep
  look_up_or_search-IsFound name target cache h =
      let key = cache_key to_string files name target in
      let (path, found) = search_total name target in
      elim (Option-cases (lookup key cache)) [
        | inl e ↦ (
          path,
          (key, path) ∷ cache,
          rw (e, look_up_or_search, found, search_and_keep) refl,
          ((name, target, refl, found), h),
          found,
        )
        | inr (p, e) ↦
            (p, cache, rw (e, look_up_or_search) refl, h, lookup-IsFound name target cache p h e)
      ]

  -- As long as the files stay as they are, the search ends whatever XDG_DATA_DIRS is; the path that comes with
  -- a cache filled by earlier searches is the one that comes with an empty cache, and the cache
  -- afterwards holds results of searches again.
  pub find_icon_path-IsFound :
      (name : Bytes) (target : ℤ) (cache : Cache)
      → All IsFound cache
      → (path : Bytes) × (after : Cache) × (fresh : Cache) × (find_icon_path to_string files name
            target cache
          ≡ some (path, after))
        × All IsFound after
        × (find_icon_path to_string files name target [] ≡ some (path, fresh))
  unfolding find_icon_path
  find_icon_path-IsFound name target cache h = elim (Bool-cases (is_empty name)) [
    | inl e ↦ ([], cache, [], rw e refl, h, rw e refl)
    | inr e ↦ elim (Bool-cases (starts_with_slash name)) [
      | inl f ↦
          ((if files.readable name then name else []), cache, [], rw (e, f) refl, h, rw (e, f) refl)
      | inr f ↦
          let (p, after, found, kept, direct) = look_up_or_search-IsFound name target cache h in
          let (q, fresh, found', kept', direct') = look_up_or_search-IsFound name target [] tt in
          let eq : q ≡ p = cc in
          (p, after, fresh, rw (e, f) found, kept, rw (e, f) (rw (← eq) found'))
    ]
  ]
