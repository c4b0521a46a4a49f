-- ===== src/Lock/Handlers.antt =====
-- The handlers of the lock, of layer surfaces and of the switcher while the session is locked
-- (src/lock.cc, src/layer.cc, src/switcher.cc).
use steppewm.Base.{
  ℕ, true, Option, none, some, List, [], ◌∷◌, ◌≡◌, refl, sym, ◌∙◌, arith, not, find, get_elem?,
  ◌==◌, Option-cases, inl, inr,
}
use steppewm.Wlr.{node_set_enabled, lock_tree, Call, Wlroots}
use steppewm.State.{Output, Server, log, emit, Switcher}
use steppewm.Switcher.{close}
use steppewm.Switcher.Commit.{commit, handle_released, handle_modifiers}
use steppewm.View.{enter_keyboard}
use steppewm.Layer
use steppewm.Lock.{
  LockSurface, broken_msg_hide, first_surface, draw_messages, broken_msg_show, configure_surface,
  configure_surfaces, cover_layout, update_geometry, take_over, begin_lock, on_new_lock,
  on_destroy_lock, on_new_surface, enter_first, ensure_focus, hand_over, on_destroy_surface,
}
use steppewm.Lock.Guarded.{
  client_calls, IsGuarded, IsGuarded-trans, cancel-IsGuarded, stopped_focus, stopped_focus_next,
}

module _ (w : Wlroots) where
  draw_messages_calls :
      (os : List Output) (cs : List Call) → client_calls (draw_messages w os cs) ≡ client_calls cs
  unfolding draw_messages
  draw_messages_calls [] cs = refl
  draw_messages_calls (o ∷ os) cs = draw_messages_calls os _ ∙ ground arith

  configure_surfaces_calls :
      (ls : List LockSurface) (cs : List Call)
      → client_calls (configure_surfaces w ls cs) ≡ client_calls cs
  unfolding configure_surfaces configure_surface
  configure_surfaces_calls [] cs = refl
  configure_surfaces_calls (l ∷ ls) cs = configure_surfaces_calls ls _

  broken_msg_show-IsGuarded : (s : Server) → IsGuarded s (broken_msg_show w s)
  unfolding broken_msg_show broken_msg_hide
  broken_msg_show-IsGuarded s =
      let s1 = record (broken_msg_hide s) { lock_msg_tree = true } in
      (refl, draw_messages_calls s1.outputs s1.calls ∙ ground arith)

  pub update_geometry-IsGuarded :
      (ls : List LockSurface) (s : Server) → IsGuarded s (update_geometry w ls s)
  unfolding update_geometry cover_layout
  update_geometry-IsGuarded ls s =
      let s1 = cover_layout w s in
      let s2 = log (configure_surfaces w ls) s1 in
      ground (
        arith,
        configure_surfaces_calls ls s1.calls,
        broken_msg_show-IsGuarded s1,
        broken_msg_show-IsGuarded s2,
      )

  take_over-IsGuarded : (l : ℕ) (s : Server) → s.locked ≡ true → IsGuarded s (take_over w l s)
  unfolding take_over broken_msg_hide
  take_over-IsGuarded l s h =
      let s1 = broken_msg_hide (record s { cur_lock = some l; locked = true }) in
      let g = cancel-IsGuarded s1 in (g.0 ∙ sym h, g.1 ∙ ground arith)

  begin_lock-IsGuarded : (l : ℕ) (s : Server) → s.locked ≡ true → IsGuarded s (begin_lock w l s)
  unfolding begin_lock
  begin_lock-IsGuarded l s h =
      let s1 = emit (node_set_enabled lock_tree true) (take_over w l s) in
      IsGuarded-trans s s1 (update_geometry w [] s1) (take_over-IsGuarded l s h)
        (update_geometry-IsGuarded [] s1)

  pub on_new_lock-IsGuarded :
      (l : ℕ) (s : Server) → s.locked ≡ true → IsGuarded s (on_new_lock w l s)
  unfolding on_new_lock
  on_new_lock-IsGuarded l s h = ground (arith, begin_lock-IsGuarded l s h)

  pub on_destroy_lock-IsGuarded : (s : Server) → IsGuarded s (on_destroy_lock w s)
  unfolding on_destroy_lock
  on_destroy_lock-IsGuarded s =
      ground (arith, broken_msg_show-IsGuarded (record s { cur_lock = none }))

  pub on_new_surface-IsGuarded : (l : LockSurface) (s : Server) → IsGuarded s (on_new_surface w l s)
  unfolding on_new_surface enter_keyboard configure_surface
  on_new_surface-IsGuarded l s = ground arith

  pub ensure_focus-IsGuarded :
      (ls : List LockSurface) (s : Server) → IsGuarded s (ensure_focus w ls s)
  unfolding ensure_focus enter_first enter_keyboard first_surface
  ensure_focus-IsGuarded [] s = ground arith
  ensure_focus-IsGuarded (l ∷ ls) s = ground arith

  hand_over-IsGuarded : (next : Option LockSurface) (s : Server) → IsGuarded s (hand_over w next s)
  unfolding hand_over
  hand_over-IsGuarded none s = ground arith
  hand_over-IsGuarded (some l) s = ground arith

  pub on_destroy_surface-IsGuarded :
      (a : ℕ) (ls : List LockSurface) (s : Server) → IsGuarded s (on_destroy_surface w a ls s)
  unfolding on_destroy_surface
  on_destroy_surface-IsGuarded a ls s = ground (
    arith,
    hand_over-IsGuarded none s,
    hand_over-IsGuarded (find (λ l. not (l.surface == a)) ls) s,
  )

  commit-IsGuarded : (v : Option ℕ) (s : Server) → s.locked ≡ true → IsGuarded s (commit w v s)
  unfolding commit
  commit-IsGuarded none s l = (refl, refl)
  commit-IsGuarded (some v) s l = stopped_focus w v s (close s) l (refl, refl)

  handle_released-IsGuarded :
      (sw : Switcher) (mods : ℕ) (s : Server)
      → s.locked ≡ true
      → IsGuarded s (handle_released w sw mods s)
  unfolding handle_released
  handle_released-IsGuarded sw mods s l =
      ground (arith, commit-IsGuarded (get_elem? sw.views sw.selected) s l)

  pub handle_modifiers-IsGuarded :
      (mods : ℕ) (s : Server) → s.locked ≡ true → IsGuarded s (handle_modifiers w mods s)
  unfolding handle_modifiers
  handle_modifiers-IsGuarded mods s l = elim (Option-cases s.sw) [
    | inl e ↦ rw (e, handle_modifiers) (refl, refl)
    | inr (sw, e) ↦ rw (e, handle_modifiers) (handle_released-IsGuarded sw mods s l)
  ]

  pub focus_layer-IsGuarded :
      (ls : ℕ) (s : Server) → s.locked ≡ true → IsGuarded s (Layer.focus_layer w ls s)
  unfolding Layer.focus_layer
  focus_layer-IsGuarded ls s l = ground arith

  pub on_unmap-IsGuarded :
      (ls : ℕ) (s : Server) → s.locked ≡ true → IsGuarded s (Layer.on_unmap w ls s)
  unfolding Layer.on_unmap
  on_unmap-IsGuarded ls s l =
      ground (arith, stopped_focus_next w none s (record s { focused_layer = none }) l (refl, refl))
