-- ===== src/Pointer/Clicked.antt =====
-- What a click on a window's button in the taskbar does: `server::on_cursor_button` of src/input.cc.
use steppewm.Base.{
  ℕ, true, false, not, ◌&&◌, ◌||◌, Option, none, some, List, ◌∷◌, ◌≡◌, ◌≢◌, ◌<◌, ◌∙◌, refl, ap,
  arith, ◌==◌, ==_refl, Bool-cases, inl, inr,
}
use steppewm.Wlr.{pointer_notify_button, notify_activity, Call, toplevel, Wlroots}
use steppewm.Wlr.Seat.{IsSeat}
use steppewm.State.{emit, Output, Server, is_shown, num_workspaces}
use steppewm.Workspace.{enter_workspace}
use steppewm.Workspace.Visibility.{workspace_switch_enters}
use steppewm.Deco.{btn_left}
use steppewm.Taskbar.{Taskbar}
use steppewm.Taskbar.Hits.{tray_at, idle_inhibit_at, workspace_at, view_at}
use steppewm.Pointer.{Under, Tray, Commands}
use steppewm.Pointer.Places.{enter_workspace_place, focus_shown, or_true}
use steppewm.Pointer.Press.{
  press_item, run_if, ask_bars, show, bar_action, items_of, menu_is_open, run_action, press_bars,
  press_rest, press_on, press_button, on_cursor_button,
}

module _ (w : Wlroots) (seat : IsSeat w)
    (keyboard : (cs : List Call) → w.has_keyboard cs ≡ true) where
  module _ (c : Commands) where
    show_focused :
        (v : ℕ) (s : Server)
        → (s.store v).mapped ≡ true
        → s.locked ≡ false
        → (s.store v).workspace < num_workspaces
        → let r = run_action w c (show v) s in
          (w.focused_surface r.calls ≡ some (toplevel v))
          × (is_shown (r.store v) r.current_workspace ≡ true)
          × ((r.store v).workspace ≡ (s.store v).workspace)
          × ((r.store v).pinned ≡ (s.store v).pinned)
    unfolding run_action
    show_focused v s m u bound =
        let o = s.store v in
        elim (Bool-cases (not o.pinned && not (o.workspace == s.current_workspace))) [
          | inr e ↦ rw e (focus_shown w seat keyboard v s m u (ground arith))
          | inl e ↦
              let ne : o.workspace ≢ s.current_workspace = ground arith in
              let entered = enter_workspace w o.workspace s in
              let place = enter_workspace_place w v o.workspace s in
              rw (e, workspace_switch_enters seat keyboard o.workspace s bound ne)
                (let o1 = entered.store v in
                  let there : (o1.pinned || o1.workspace == entered.current_workspace) ≡ true =
                    rw (place.2, place.4, ==_refl o.workspace) (or_true (entered.store v).pinned) in
                  let (has, visible, number, pin) =
                    focus_shown w seat keyboard v entered (place.0 ∙ m) (place.3 ∙ u) there in
                  (has, visible, number ∙ place.2, pin ∙ place.1))
        ]

    module _ (bars : ℕ → Taskbar) (tray : Option Tray) where
      -- The first bar decides.
      bar_shows :
          (s : Server) (o : Output) (os : List Output) (v : ℕ)
          → s.outputs ≡ o ∷ os
          → o.output_taskbar ≡ true
          → idle_inhibit_at s.cfg s.cursor_x s.cursor_y (bars o.wlr_output) ≡ false
          → workspace_at s.cfg s.max_visible_workspace s.cursor_x s.cursor_y (bars o.wlr_output)
            ≡ none
          → view_at s.cursor_x s.cursor_y (bars o.wlr_output) ≡ some v
          → ask_bars (λ i. bar_action s (bars i)) s.outputs ≡ some (show v)
      unfolding ask_bars bar_action
      bar_shows s o os v outs has idle ws hit =
          ap (ask_bars (λ i. bar_action s (bars i))) outs ∙ rw (has, idle, ws, hit) refl

      press_rest_shows :
          (v : ℕ) (s : Server)
          → ask_bars (λ i. tray_at s.cfg (items_of tray) s.cursor_x s.cursor_y (bars i)) s.outputs
            ≡ none
          → ask_bars (λ i. bar_action s (bars i)) s.outputs ≡ some (show v)
          → press_rest w c bars tray btn_left s ≡ run_action w c (show v) s
      unfolding press_rest press_item press_bars run_if
      press_rest_shows v s item action = rw (item, action) refl

      press_unlocked :
          (under : Under) (mods time : ℕ) (s : Server)
          → menu_is_open tray ≡ false
          → s.locked ≡ false
          → press_button w c bars tray under mods btn_left time s
            ≡ press_on w c bars tray under.view under.deco mods btn_left time s
      unfolding press_button
      press_unlocked under mods time s menu free = ground arith

      press_shows :
          (under : Under) (mods time v : ℕ) (s : Server)
          → menu_is_open tray ≡ false
          → s.locked ≡ false
          → under.view ≡ none
          → under.deco ≡ none
          → ask_bars (λ i. tray_at s.cfg (items_of tray) s.cursor_x s.cursor_y (bars i)) s.outputs
            ≡ none
          → ask_bars (λ i. bar_action s (bars i)) s.outputs ≡ some (show v)
          → press_button w c bars tray under mods btn_left time s ≡ run_action w c (show v) s
      unfolding press_on
      press_shows under mods time v s menu free no_view no_deco item action =
          press_unlocked under mods time s menu free
          ∙ rw (no_view, no_deco) (press_rest_shows v s item action)

      -- A left click on a window's slot of the first bar, with nothing of the scene, the tray's menu, a
      -- tray item, a workspace label or the idle indicator under the pointer, in an unlocked session:
      -- the window, which is mapped and on one of the nine workspaces, gets the keyboard and is shown;
      -- it is pinned or not and belongs to its workspace as before, so that where it is not pinned that
      -- workspace is now the current one. The seat is as documented and has a keyboard.
      pub on_cursor_button-show :
          (under : Under) (mods time v : ℕ) (s : Server) (o : Output) (os : List Output)
          → menu_is_open tray ≡ false
          → s.locked ≡ false
          → under.view ≡ none
          → under.deco ≡ none
          → s.outputs ≡ o ∷ os
          → o.output_taskbar ≡ true
          → ask_bars (λ i. tray_at s.cfg (items_of tray) s.cursor_x s.cursor_y (bars i)) s.outputs
            ≡ none
          → idle_inhibit_at s.cfg s.cursor_x s.cursor_y (bars o.wlr_output) ≡ false
          → workspace_at s.cfg s.max_visible_workspace s.cursor_x s.cursor_y (bars o.wlr_output)
            ≡ none
          → view_at s.cursor_x s.cursor_y (bars o.wlr_output) ≡ some v
          → (s.store v).mapped ≡ true
          → (s.store v).workspace < num_workspaces
          → let r = on_cursor_button w c bars tray under mods true btn_left time s in
            (w.focused_surface r.calls ≡ some (toplevel v))
            × (is_shown (r.store v) r.current_workspace ≡ true)
            × ((r.store v).workspace ≡ (s.store v).workspace)
            × ((r.store v).pinned ≡ (s.store v).pinned)
      unfolding on_cursor_button
      on_cursor_button-show under mods time v s o os menu free no_view no_deco outs has item idle ws
            hit m bound =
          let s1 = emit (pointer_notify_button btn_left true) (emit notify_activity s) in
          rw
            (press_shows under mods time v s1 menu free no_view no_deco item
              (bar_shows s1 o os v outs has idle ws hit))
            (show_focused v s1 m free bound)
