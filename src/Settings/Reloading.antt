-- ===== src/Settings/Reloading.antt =====
-- What a reload keeps of the earlier settings, and how the theme's values and the user's meet
-- (src/config.cc).
use Prim.Native.String.{String}
use steppewm.Base.{false, List, [], ◌≡◌, refl, ap}
use steppewm.Settings.{Env, Value, Colors, Settings}
use steppewm.Settings.Defaults.{set_defaults, default_options}
use steppewm.Settings.Read.{read_color, read_colors, read_visual}
use steppewm.Settings.Look.{IsUsers, read_visual-IsUsers}
use steppewm.Settings.Theme.{Dims, fit_theme}
use steppewm.Settings.Load.{
  File, script, Statement, run_calls, run_execs, read_globals, show_globals, load, reload,
}

module _ {F : Type 0} (env : Env F) where
  -- What `reload` starts from.
  abbrev cleared : Settings F → Settings F
  cleared c = record (set_defaults env c) { execs = [] }

  cleared_same :
      (c d : Settings F)
      → c.binds ≡ d.binds
      → c.switchbinds ≡ d.switchbinds
      → c.ran_execs ≡ d.ran_execs
      → c.options.volume_middle_button ≡ d.options.volume_middle_button
      → cleared c ≡ cleared d
  unfolding set_defaults default_options
  cleared_same c d b s r v = rw (b, s, r, v) refl

  -- A reload forgets the earlier settings, but for four things: the commands that were run, what is left in
  -- the two arrays of bindings, and the command of the volume's middle button. Settings that agree on
  -- those are the same after a reload of the same file, and the same commands are started.
  reload-forgets :
      (theme_file : String → File F) (dims : String → Dims) (file : File F) (c d : Settings F)
      → c.binds ≡ d.binds
      → c.switchbinds ≡ d.switchbinds
      → c.ran_execs ≡ d.ran_execs
      → c.options.volume_middle_button ≡ d.options.volume_middle_button
      → reload env theme_file dims file c ≡ reload env theme_file dims file d
  unfolding reload
  reload-forgets theme_file dims file c d b s r v =
      ap
        (λ k.
          let started = run_execs (load env theme_file file k).cfg in
          let c2 = started.cfg in
          record started {
            cfg = record c2 { sizes = fit_theme (dims c2.options.theme_path) c2.sizes };
          })
        (cleared_same c d b s r v)

  border_same :
      (globals : String → Value F) (colors : Colors F)
      → (globals "border_active").is_table ≡ false
      → (read_colors env globals colors).color_border_active
        ≡ (read_colors env globals colors).color_border
  unfolding read_colors read_color
  border_same globals colors h = rw h refl

  -- Whatever the theme's file sets, after a file that runs through the look is the one of that file:
  -- each of the ten sizes that it sets to an integer, each of the three flags that it sets to a
  -- Boolean, the two styles and the font that it sets to a text, and each component of each color
  -- that it sets. If it does not set `border_active`, the border of the active window has the general
  -- border color, also where the theme sets another one.
  pub load-over_theme :
      (theme_file : String → File F) (calls : List (Statement F)) (globals : String → Value F)
      (c : Settings F)
      → (run_calls env calls c).raised ≡ false
      → let r = (load env theme_file (script calls false globals) c).cfg in
        IsUsers env globals r.colors r.sizes
        × ((globals "border_active").is_table ≡ false
            → r.colors.color_border_active ≡ r.colors.color_border)
  unfolding load read_globals show_globals read_visual
  load-over_theme theme_file calls globals c ran =
      rw ran (read_visual-IsUsers env globals _ _, (λ h. border_same globals _ h))
