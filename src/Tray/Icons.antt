-- ===== src/Tray/Icons.antt =====
-- The search for an icon file by its name: `find_icon_path_uncached` and `find_icon_path` of src/tray.cc. The file
-- system is the test `readable`, `access(…, R_OK)`; `to_string` writes a size.
use steppewm.Base.{
  Bool, not, Option, none, some, List, [], ◌∷◌, ◌++◌, if◌then◌else◌, map, filter, find, Bytes,
  codes, same, is_empty, length, ℤ, pos, eqb_ℤ,
}
use steppewm.Tray.{starts_with_slash}
use steppewm.Tray.Dirs.{dirs_loop}

abbrev pub themes : List Bytes
themes = codes "hicolor" ∷ codes "Adwaita" ∷ codes "breeze" ∷ []

abbrev pub exts : List Bytes
exts = codes ".png" ∷ codes ".svg" ∷ []

abbrev pub categories : List Bytes
categories =
    codes "status"
    ∷ codes "apps"
    ∷ codes "devices"
    ∷ codes "actions"
    ∷ codes "categories"
    ∷ codes "emblems"
    ∷ codes "places"
    ∷ []

abbrev pub sizes : List ℤ
sizes = pos 48 ∷ pos 32 ∷ pos 24 ∷ pos 22 ∷ pos 16 ∷ pos 64 ∷ pos 128 ∷ pos 256 ∷ []

-- Texts with a slash between them.
infixr 66 ◌/◌
abbrev ◌/◌ : Bytes → Bytes → Bytes
a / b = a ++ b'/' ∷ b

-- The results of a loop, in order.
unfoldable pub collect {ℓ κ} : {A : Type ℓ} {B : Type κ} → (A → List B) → List A → List B
collect f [] = []
collect f (x ∷ xs) = f x ++ collect f xs

-- The directories to look in, for the value of XDG_DATA_DIRS. The loop has a round for each byte at most.
unfoldable pub base_dirs : Option Bytes → Option (List Bytes)
base_dirs none = some (codes "/usr/share/icons" ∷ codes "/usr/local/share/icons" ∷ [])
base_dirs (some xdg) =
    if is_empty xdg
    then some (codes "/usr/share/icons" ∷ codes "/usr/local/share/icons" ∷ [])
    else dirs_loop (length xdg) xdg

module _ (to_string : ℤ → Bytes) (name : Bytes) where
  -- The files of a size in a theme.
  unfoldable pub sized_files : Bytes → Bytes → ℤ → List Bytes
  sized_files theme base size =
      let sz = to_string size ++ b'x' ∷ to_string size in
      collect (λ cat. map (λ ext. base / theme / sz / cat / (name ++ ext)) exts) categories

  unfoldable pub scalable_files : Bytes → Bytes → List Bytes
  scalable_files theme base =
      map (λ cat. base / theme / codes "scalable" / cat / (name ++ codes ".svg")) categories

  -- The files that the search tries, in order.
  unfoldable pub candidates : ℤ → List Bytes → List Bytes
  candidates target bases =
      let in_size =
        collect
          (λ theme.
            collect (λ base. sized_files theme base target ++ scalable_files theme base) bases)
          themes in
      let in_others =
        collect
          (λ theme.
            collect
              (λ base. collect (sized_files theme base) (filter (λ n. not (eqb_ℤ n target)) sizes))
              bases)
          themes in
      let in_pixmaps = map (λ ext. codes "/usr/share/pixmaps/" ++ name ++ ext) exts in
      in_size ++ in_others ++ in_pixmaps

-- What the search sees of its surroundings: the value of XDG_DATA_DIRS, and which files can be read.
pub record Files : Type 0 where
  pub xdg_data_dirs : Option Bytes
  pub readable : Bytes → Bool

-- `static std::unordered_map<std::string, std::string> cache`.
abbrev pub Cache : Type 0
Cache = List (Bytes × Bytes)

unfoldable pub lookup : Bytes → Cache → Option Bytes
lookup key [] = none
lookup key ((k, path) ∷ cs) = if same k key then some path else lookup key cs

abbrev pub path_or_empty : Option Bytes → Bytes
path_or_empty none = []
path_or_empty (some path) = path

module _ (to_string : ℤ → Bytes) (files : Files) where
  -- `find_icon_path_uncached`: the first file that can be read, or the empty text.
  unfoldable pub find_icon_path_uncached : Bytes → ℤ → Option Bytes
  find_icon_path_uncached name target = elim (base_dirs files.xdg_data_dirs) [
    | none ↦ none
    | some bases ↦
        some (path_or_empty (find files.readable (candidates to_string name target bases)))
  ]

  unfoldable pub cache_key : Bytes → ℤ → Bytes
  cache_key name target = name ++ b'#' ∷ to_string target

  unfoldable pub search_and_keep : Bytes → ℤ → Cache → Option (Bytes × Cache)
  search_and_keep name target cache = elim (find_icon_path_uncached name target) [
    | none ↦ none
    | some path ↦ some (path, (cache_key name target, path) ∷ cache)
  ]

  unfoldable pub look_up_or_search : Bytes → ℤ → Cache → Option (Bytes × Cache)
  look_up_or_search name target cache = elim (lookup (cache_key name target) cache) [
    | none ↦ search_and_keep name target cache
    | some path ↦ some (path, cache)
  ]

  -- `find_icon_path`, with the cache before and after.
  unfoldable pub find_icon_path : Bytes → ℤ → Cache → Option (Bytes × Cache)
  find_icon_path name target cache =
      if is_empty name
      then some ([], cache)
      else if starts_with_slash name
      then some (if files.readable name then name else [], cache)
      else look_up_or_search name target cache
