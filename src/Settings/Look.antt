-- ===== src/Settings/Look.antt =====
-- What the colors and the sizes are after the globals of a file were read: `read_visual` of src/config.cc.
use Prim.Native.String.{String}
use steppewm.Base.{ℕ, ℤ, Bool, true, some, All, List, [], ◌∷◌, ◌≡◌, refl}
use steppewm.Settings.{Env, Value, Color, Colors, Sizes}
use steppewm.Settings.Read.{
  wrap_int, or_old, cut_or_old, read_bool, read_string, read_color, read_int, read_colors,
  read_sizes,
}

module _ {F : Type 0} (env : Env F) where
  -- The field is the global's value if the global is an integer, a Boolean, a text, or a table with the
  -- component of the color.
  abbrev pub IsInt : Value F → ℤ → Type 0
  IsInt v x = (n : ℤ) → v.integer ≡ some n → x ≡ wrap_int n

  abbrev pub IsFlag : Value F → Bool → Type 0
  IsFlag v x = (b : Bool) → v.boolean ≡ some b → x ≡ b

  abbrev pub IsText : ℕ → Value F → String → Type 0
  IsText k v x = (s : String) → v.text ≡ some s → x ≡ env.cut k s

  abbrev pub IsColor : Value F → Color F → Type 0
  IsColor v c =
      v.is_table ≡ true
      → (f : F)
      → (v.nth 1 ≡ some f → c.r ≡ f)
        × (v.nth 2 ≡ some f → c.g ≡ f)
        × (v.nth 3 ≡ some f → c.b ≡ f)
        × (v.nth 4 ≡ some f → c.a ≡ f)

  read_int-IsInt : (v : Value F) (old : ℤ) → IsInt v (read_int env v old)
  unfolding read_int
  read_int-IsInt v old n h = rw h refl

  read_bool-IsFlag : (v : Value F) (old : Bool) → IsFlag v (read_bool env v old)
  unfolding read_bool or_old
  read_bool-IsFlag v old b h = rw h refl

  read_string-IsText : (k : ℕ) (v : Value F) (old : String) → IsText k v (read_string env k v old)
  unfolding read_string cut_or_old
  read_string-IsText k v old s h = rw h refl

  read_color-IsColor : (v : Value F) (old : Color F) → IsColor v (read_color env v old)
  unfolding read_color or_old
  read_color-IsColor v old t f =
      rw t ((λ h. rw h refl), (λ h. rw h refl), (λ h. rw h refl), (λ h. rw h refl))

  -- The globals that are read into the sizes and the colors, with their fields.
  abbrev pub int_keys : List (String × (Sizes → ℤ))
  int_keys =
      ("title_height", λ z. z.title_h)
      ∷ ("border_width", λ z. z.border_w)
      ∷ ("corner_size", λ z. z.corner_size)
      ∷ ("close_button_width", λ z. z.close_button_w)
      ∷ ("maximize_button_width", λ z. z.maximize_button_w)
      ∷ ("minimize_button_width", λ z. z.minimize_button_w)
      ∷ ("title_font_size", λ z. z.title_font_size)
      ∷ ("taskbar_height", λ z. z.taskbar_h)
      ∷ ("taskbar_button_width", λ z. z.taskbar_button_w)
      ∷ ("taskbar_button_pad", λ z. z.taskbar_button_pad)
      ∷ []

  abbrev pub flag_keys : List (String × (Sizes → Bool))
  flag_keys =
      ("title_gradient", λ z. z.title_gradient)
      ∷ ("center_title_text", λ z. z.center_title_text)
      ∷ ("buttons_left", λ z. z.buttons_left)
      ∷ []

  abbrev pub color_keys : List (String × (Colors F → Color F))
  color_keys =
      ("title_active", λ c. c.color_title_active)
      ∷ ("title_inactive", λ c. c.color_title_inactive)
      ∷ ("border_color", λ c. c.color_border)
      ∷ ("border_active", λ c. c.color_border_active)
      ∷ ("border_inactive", λ c. c.color_border_inactive)
      ∷ ("close_active", λ c. c.color_close_active)
      ∷ ("close_inactive", λ c. c.color_close_inactive)
      ∷ ("button_color", λ c. c.color_button)
      ∷ ("button_inactive", λ c. c.color_button_inactive)
      ∷ ("title_text", λ c. c.color_title_text)
      ∷ ("maximize_active", λ c. c.color_maximize_active)
      ∷ ("maximize_inactive", λ c. c.color_maximize_inactive)
      ∷ ("minimize_active", λ c. c.color_minimize_active)
      ∷ ("minimize_inactive", λ c. c.color_minimize_inactive)
      ∷ ("close_hover", λ c. c.color_close_hover)
      ∷ ("maximize_hover", λ c. c.color_maximize_hover)
      ∷ ("minimize_hover", λ c. c.color_minimize_hover)
      ∷ ("taskbar_bg", λ c. c.color_taskbar_bg)
      ∷ ("taskbar_accent", λ c. c.color_taskbar_accent)
      ∷ ("task_normal", λ c. c.color_task_normal)
      ∷ ("task_active", λ c. c.color_task_active)
      ∷ ("task_minimized", λ c. c.color_task_minimized)
      ∷ ("task_urgent", λ c. c.color_task_urgent)
      ∷ ("task_text", λ c. c.color_task_text)
      ∷ ("tray_bg", λ c. c.color_tray_bg)
      ∷ ("indicator_bg", λ c. c.color_indicator_bg)
      ∷ []

  -- All that the user's file sets is in the colors and the sizes.
  pub record IsUsers (globals : String → Value F) (colors : Colors F) (sizes : Sizes) : Type 0 where
    pub ints : All (λ (k : String × (Sizes → ℤ)). IsInt (globals k.0) (k.1 sizes)) int_keys
    pub flags : All (λ (k : String × (Sizes → Bool)). IsFlag (globals k.0) (k.1 sizes)) flag_keys
    pub texts :
        IsText 15 (globals "button_style") sizes.button_style
        × IsText 15 (globals "border_style") sizes.border_style
        × IsText 63 (globals "font") sizes.font
    pub look :
        All (λ (k : String × (Colors F → Color F)). IsColor (globals k.0) (k.1 colors)) color_keys

  pub read_visual-IsUsers :
      (globals : String → Value F) (colors : Colors F) (sizes : Sizes)
      → IsUsers globals (read_colors env globals colors) (read_sizes env globals sizes)
  unfolding read_colors read_sizes
  read_visual-IsUsers globals colors sizes =
      let int = read_int-IsInt in
      let flag = read_bool-IsFlag in
      let color = read_color-IsColor in
      record {
        ints = (
          int _ _,
          (
            int _ _,
            (
              int _ _,
              (int _ _, (int _ _, (int _ _, (int _ _, (int _ _, (int _ _, (int _ _, tt))))))),
            ),
          ),
        );
        flags = (flag _ _, (flag _ _, (flag _ _, tt)));
        texts = (read_string-IsText 15 _ _, read_string-IsText 15 _ _, read_string-IsText 63 _ _);
        look = (
          color _ _,
          (
            color _ _,
            (
              color _ _,
              (
                color _ _,
                (
                  color _ _,
                  (
                    color _ _,
                    (
                      color _ _,
                      (
                        color _ _,
                        (
                          color _ _,
                          (
                            color _ _,
                            (
                              color _ _,
                              (
                                color _ _,
                                (
                                  color _ _,
                                  (
                                    color _ _,
                                    (
                                      color _ _,
                                      (
                                        color _ _,
                                        (
                                          color _ _,
                                          (
                                            color _ _,
                                            (
                                              color _ _,
                                              (
                                                color _ _,
                                                (
                                                  color _ _,
                                                  (
                                                    color _ _,
                                                    (
                                                      color _ _,
                                                      (color _ _, (color _ _, (color _ _, tt))),
                                                    ),
                                                  ),
                                                ),
                                              ),
                                            ),
                                          ),
                                        ),
                                      ),
                                    ),
                                  ),
                                ),
                              ),
                            ),
                          ),
                        ),
                      ),
                    ),
                  ),
                ),
              ),
            ),
          ),
        );
      }
