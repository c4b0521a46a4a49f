-- ===== src/Lifecycle/Pointers.antt =====
-- The pointers of the server to a window, before and after `view::handle_unmap` (src/view.cc).
use steppewm.Base.{
  ℕ, Bool, false, Option, none, some, List, ◌≡◌, ◌≢◌, refl, sym, subst, ap, ◌∙◌, arith,
  if◌then◌else◌, elem, remove, points_to, elem-remove, elem-remove_self, find-passes, ==_refl,
}
use steppewm.Wlr.{Wlroots, Surface, toplevel}
use steppewm.State.{Switcher, Server}
use steppewm.Idle.{update_idle}
use steppewm.Switcher.{view_removed}
use steppewm.Switcher.Members.{listed, IsDistinct, view_removed_keeps, view_removed-listed}
use steppewm.View.Next.{focus_next_cases}
use steppewm.View.{
  update_visibility, minimize, set_urgent, restore_window, activate, raise_overlays, enter_keyboard,
  take_focus, refocus, focus_surface, focus, is_candidate, focus_next,
}
use steppewm.Lifecycle.{
  release_grab, clear_grab, clear_click, clear_hover, destroy_handles, unlist, clear_keyboard,
  clear_pointer, detach, handle_unmap,
}

-- The pointers to windows that the server keeps: its list, the switcher's snapshot, the grab, the last
-- click on a title bar and the hover.
pub record Pointers : Type 0 where
  pub views : List ℕ
  pub sw : Option Switcher
  pub grabbed : Option ℕ
  pub clicked : Option ℕ
  pub hovered : Option ℕ

abbrev pub pointers : Server → Pointers
pointers s = record {
  views = s.views;
  sw = s.sw;
  grabbed = s.grab.grabbed_view;
  clicked = s.titlebar_last_click_view;
  hovered = s.hovered_deco_view;
}

-- None of them leads to the window.
pub record IsClear (v : ℕ) (p : Pointers) : Type 0 where
  pub not_in_list : elem v p.views ≡ false
  pub not_in_switcher : listed p.sw v ≡ false
  pub not_grabbed : points_to p.grabbed v ≡ false
  pub not_clicked : points_to p.clicked v ≡ false
  pub not_hovered : points_to p.hovered v ≡ false

abbrev pub IsUnreferenced : ℕ → Server → Type 0
IsUnreferenced v s = IsClear v (pointers s)

minimize-pointers : (min : Bool) (u : ℕ) (s : Server) → pointers (minimize min u s) ≡ pointers s
unfolding minimize update_visibility update_idle
minimize-pointers min u s = refl

set_urgent-pointers :
    (urgent : Bool) (u : ℕ) (s : Server) → pointers (set_urgent urgent u s) ≡ pointers s
unfolding set_urgent
set_urgent-pointers urgent u s = ground arith

restore_window-pointers : (u : ℕ) (s : Server) → pointers (restore_window u s) ≡ pointers s
unfolding restore_window
restore_window-pointers u s =
    set_urgent-pointers false u _ ∙ ground (arith, minimize-pointers false u s)

dropped : (p : Option ℕ) (v : ℕ) → points_to (if points_to p v then none else p) v ≡ false
dropped p v = ground arith

module _ (w : Wlroots) where
  take_focus-IsUnreferenced :
      (u v : ℕ) (x : Surface) (s : Server)
      → u ≢ v
      → IsUnreferenced v s
      → IsUnreferenced v (take_focus w u x s)
  unfolding take_focus activate enter_keyboard raise_overlays
  take_focus-IsUnreferenced u v x s ne h = record {
    not_in_list = ground (arith, elem-remove u v s.views h.not_in_list);
    not_in_switcher = h.not_in_switcher;
    not_grabbed = h.not_grabbed;
    not_clicked = h.not_clicked;
    not_hovered = refl;
  }

  -- Focusing another window makes no pointer to this one.
  focus-IsUnreferenced :
      (u v : ℕ) (s : Server) → u ≢ v → IsUnreferenced v s → IsUnreferenced v (focus w u s)
  unfolding focus focus_surface refocus
  focus-IsUnreferenced u v s ne h =
      let h' = subst (IsClear v) (sym (restore_window-pointers u s)) h in
      ground (arith, h, h', take_focus-IsUnreferenced u v (toplevel u) (restore_window u s) ne h')

  focus_next-IsUnreferenced :
      (v : ℕ) (s : Server) → IsUnreferenced v s → IsUnreferenced v (focus_next w (some v) s)
  focus_next-IsUnreferenced v s h =
      focus_next_cases w (IsUnreferenced v) (some v) s h
        (λ u e.
          let passed = find-passes (is_candidate s (some v)) s.views e in
          let other : u ≢ v = λ same. ground (arith, ==_refl v) in
          focus-IsUnreferenced u v s other h)
        h

  -- What `handle_unmap` does before it looks for another window to focus.
  abbrev unmapped : ℕ → Server → Server
  unmapped v s = view_removed v (update_idle none (unlist v (detach w v s)))

  -- The server just before the switcher is told.
  abbrev unlisted : ℕ → Server → Server
  unlisted v s = update_idle none (unlist v (detach w v s))

  unlisted-pointers :
      (v : ℕ) (s : Server)
      → pointers (unlisted v s) ≡ record {
        views = remove v s.views;
        sw = s.sw;
        grabbed =
            (if points_to s.grab.grabbed_view v then release_grab s.grab else s.grab).grabbed_view;
        clicked =
            if points_to s.titlebar_last_click_view v then none else s.titlebar_last_click_view;
        hovered = if points_to s.hovered_deco_view v then none else s.hovered_deco_view;
      }
  unfolding detach clear_grab clear_click clear_hover clear_keyboard clear_pointer destroy_handles
      unlist update_idle
  unlisted-pointers v s = refl

  unmapped-IsUnreferenced : (v : ℕ) (s : Server) → IsDistinct s.sw → IsUnreferenced v (unmapped v s)
  unmapped-IsUnreferenced v s d =
      let r = unlisted v s in
      let p = unlisted-pointers v s in
      let q = view_removed_keeps v r in
      record {
        not_in_list =
            ap (λ (t : Server). elem v t.views) q
            ∙ ap (λ (t : Pointers). elem v t.views) p
            ∙ elem-remove_self v s.views;
        not_in_switcher =
            view_removed-listed v r (subst IsDistinct (sym (ap (λ (t : Pointers). t.sw) p)) d);
        not_grabbed =
            ap (λ (t : Server). points_to t.grab.grabbed_view v) q
            ∙ ap (λ (t : Pointers). points_to t.grabbed v) p
            ∙ ground arith;
        not_clicked =
            ap (λ (t : Server). points_to t.titlebar_last_click_view v) q
            ∙ ap (λ (t : Pointers). points_to t.clicked v) p
            ∙ dropped s.titlebar_last_click_view v;
        not_hovered =
            ap (λ (t : Server). points_to t.hovered_deco_view v) q
            ∙ ap (λ (t : Pointers). points_to t.hovered v) p
            ∙ dropped s.hovered_deco_view v;
      }

  -- Unmapping a window leaves no pointer to it, whatever takes the focus next. The switcher's snapshot,
  -- if it is open, holds no window twice.
  pub handle_unmap-IsUnreferenced :
      (v : ℕ) (s : Server) → IsDistinct s.sw → IsUnreferenced v (handle_unmap w v s)
  unfolding handle_unmap
  handle_unmap-IsUnreferenced v s d = focus_next-IsUnreferenced v _ (unmapped-IsUnreferenced v s d)
