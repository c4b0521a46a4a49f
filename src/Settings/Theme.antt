-- ===== src/Settings/Theme.antt =====
-- The parts of src/theme.cc that the configuration uses: `resolve_name` and `get_dims`.
use Prim.Native.String.{String, ◌++◌}
use text.Mathlib.Text.{◌==◌ as str_eq}
use steppewm.Base.{
  ℤ, pos, ltb_ℤ, Bool, true, false, not, Option, none, some, List, [], ◌∷◌, if◌then◌else◌,
}
use steppewm.Settings.{Env, Sizes}

abbrev pub is_set : String → Bool
is_set s = not (str_eq s "")

-- An image, by its size in pixels.
pub record Image : Type 0 where
  pub width : ℤ
  pub height : ℤ

-- `class theme`: the images of a button (`buttons_`), and those that `get_dims` measures.
pub record ButtonImages : Type 0 where
  pub active : Option Image
  pub normal : Option Image

pub record ThemeImages : Type 0 where
  pub close : ButtonImages
  pub maximize : ButtonImages
  pub minimize : ButtonImages
  pub titlebar_active : Option Image

-- `theme::suggested_dims`.
pub record Dims : Type 0 where
  pub title_h : ℤ
  pub close_w : ℤ
  pub maximize_w : ℤ
  pub minimize_w : ℤ

-- `bs.active ? bs.active : bs.normal`.
abbrev pub image_of : ButtonImages → Option Image
image_of b = elim b.active [ none ↦ b.normal | some i ↦ some i ]

unfoldable pub taller : ℤ → Option Image → ℤ
taller h none = h
taller h (some i) = if ltb_ℤ h i.height then i.height else h

unfoldable pub tallest : ℤ → List ButtonImages → ℤ
tallest h [] = h
tallest h (b ∷ bs) = tallest (taller h (image_of b)) bs

unfoldable pub width_or_0 : Option Image → ℤ
width_or_0 none = pos 0
width_or_0 (some i) = i.width

unfoldable pub get_dims : ThemeImages → Dims
get_dims t =
    let max_h =
      taller (tallest (pos 0) (t.close ∷ t.maximize ∷ t.minimize ∷ [])) t.titlebar_active in
    record {
      title_h = max_h;
      close_w = width_or_0 (image_of t.close);
      maximize_w = width_or_0 (image_of t.maximize);
      minimize_w = width_or_0 (image_of t.minimize);
    }

-- The end of `config::reload`: the theme's sizes, where it has any.
abbrev pub if_positive : ℤ → ℤ → ℤ
if_positive n old = if ltb_ℤ (pos 0) n then n else old

unfoldable pub fit_theme : Dims → Sizes → Sizes
fit_theme d c = record c {
  title_h = if_positive d.title_h c.title_h;
  close_button_w = if_positive d.close_w c.close_button_w;
  maximize_button_w = if_positive d.maximize_w c.maximize_button_w;
  minimize_button_w = if_positive d.minimize_w c.minimize_button_w;
}

module _ {F : Type 0} (env : Env F) where
  unfoldable pub home_themes : Option String → String → String
  home_themes none name = env.uninitialized
  home_themes (some home) name = env.cut 511 (home ++ "/.config/steppewm/themes/" ++ name)

  -- The folder of the user's themes, in a buffer of 512 bytes.
  unfoldable pub user_themes : Option String → Option String → String → String
  user_themes (some config_home) home name = elim (is_set config_home) [
    | true ↦ env.cut 511 (config_home ++ "/steppewm/themes/" ++ name)
    | false ↦ home_themes home name
  ]
  user_themes none home name = home_themes home name

  unfoldable pub resolve_name : String → Option String
  resolve_name name =
      let own = user_themes (env.getenv "XDG_CONFIG_HOME") (env.getenv "HOME") name in
      let shared = env.cut 511 ("/usr/share/steppewm/themes/" ++ name) in
      let local = env.cut 511 ("/usr/local/share/steppewm/themes/" ++ name) in
      if not (is_set name)
      then none
      else if env.is_dir own
      then some own
      else if env.is_dir shared
      then some shared
      else if env.is_dir local
      then some local
      else none
