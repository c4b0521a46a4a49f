-- ===== src/Deco/Clicks.antt =====
-- Clicks on a title bar: `view::deco_handle_button` of src/deco.cc with the release of the button in
-- src/input.cc.
use steppewm.Base.{ℕ, true, false, not, none, some, ◌≡◌, ◌<◌, refl, ap, ◌∙◌, arith, ==_refl}
use steppewm.Wlr.{Wlroots}
use steppewm.Wlr.Layout.{IsLayout}
use steppewm.State.{Server, DecoMode, unsnapped}
use steppewm.Output.{usable_area, taskbar_height}
use steppewm.Snap.{detect_snap}
use steppewm.Window.{toggle_maximize}
use steppewm.Window.States.{apply_state-states}
use steppewm.Grab.{
  begin_move, cursor_begin_interactive, hide_snap_indicator, snap_dropped, drop_window,
  release_button,
}
use steppewm.Grab.Drop.{released, detect_snap-released}
use steppewm.Deco.{
  titlebar, btn_left, elapsed, is_double_click, click_titlebar, click_node, click_decoration,
  deco_handle_button,
}

-- The state that the first click of a pair leaves while the button is down.
abbrev clicked : ℕ → ℕ → Server → Server
clicked t v s =
    begin_move v (record s { titlebar_last_click_time = t; titlebar_last_click_view = some v })

module _ (w : Wlroots) where
  -- The left button goes down on the window's title bar.
  abbrev pub press : ℕ → ℕ → Server → Server
  press t v s = (deco_handle_button w titlebar btn_left t v s).0

  press_titlebar :
      (t v : ℕ) (s : Server)
      → (s.store v).decoration_mode ≡ DecoMode.server
      → press t v s ≡ click_titlebar w true t v s
  unfolding deco_handle_button click_decoration click_node
  press_titlebar t v s h = ap (λ (m : DecoMode). (click_decoration w m titlebar true t v s).0) h

  single :
      (t v : ℕ) (s : Server)
      → is_double_click w true t v s ≡ false
      → click_titlebar w true t v s ≡ clicked t v s
  unfolding click_titlebar cursor_begin_interactive
  single t v s h = ground arith

  double :
      (t v : ℕ) (s : Server)
      → is_double_click w true t v s ≡ true
      → click_titlebar w true t v s ≡ record (toggle_maximize w v s) {
        titlebar_last_click_time = 0;
        titlebar_last_click_view = none;
      }
  unfolding click_titlebar
  double t v s h = ground arith

  detect_snap-clicked : (t v : ℕ) (s : Server) → detect_snap w (clicked t v s) ≡ detect_snap w s
  unfolding detect_snap usable_area taskbar_height begin_move
  detect_snap-clicked t v s = refl

  release_keeps :
      (t v : ℕ) (s : Server)
      → (detect_snap w (released (clicked t v s))).maximize ≡ false
      → (detect_snap w (released (clicked t v s))).edge ≡ unsnapped
      → release_button w (clicked t v s) ≡ released (clicked t v s)
  unfolding release_button drop_window snap_dropped begin_move
  release_keeps t v s m e = ground arith

  second_is_double :
      (t u v : ℕ) (s : Server)
      → elapsed u t < 400
      → is_double_click w true u v (released (clicked t v s)) ≡ true
  unfolding is_double_click begin_move hide_snap_indicator
  second_is_double t u v s h = ground (arith, ==_refl v)

  -- Two clicks with the left button on the title bar of an initialized window that has one: the first is
  -- not the second of another pair, the second follows less than 400 milliseconds later, and the pointer
  -- stays where `detect_snap` finds nothing. The window then changes between maximized and not, is as
  -- fullscreen as before and not snapped, and no click is remembered. The calls do not change the output
  -- layout.
  pub press-release_button-press :
      (t u v : ℕ) (s : Server)
      → IsLayout w
      → (s.store v).decoration_mode ≡ DecoMode.server
      → (s.store v).initialized ≡ true
      → is_double_click w true t v s ≡ false
      → elapsed u t < 400
      → (detect_snap w s).maximize ≡ false
      → (detect_snap w s).edge ≡ unsnapped
      → let r = press u v (release_button w (press t v s)) in
        let o = r.store v in
        (o.maximized ≡ not (s.store v).maximized)
        × (o.fullscreen ≡ (s.store v).fullscreen)
        × (o.snapped ≡ unsnapped)
        × (r.titlebar_last_click_view ≡ none)
  unfolding toggle_maximize begin_move hide_snap_indicator
  press-release_button-press t u v s layout deco i first h m e =
      let a = clicked t v s in
      let b = released a in
      let same = detect_snap-released w layout a ∙ detect_snap-clicked t v s in
      let down = press_titlebar t v s deco ∙ single t v s first in
      let up = release_keeps t v s (ap (λ d. d.maximize) same ∙ m) (ap (λ d. d.edge) same ∙ e) in
      let again = press_titlebar u v b deco ∙ double u v b (second_is_double t u v s h) in
      let result = apply_state-states w (not (s.store v).maximized) (s.store v).fullscreen v b i in
      rw (down, up, again) (result.0, result.1, result.2, refl)
