-- ===== src/Lock.antt =====
-- The session lock: src/lock.cc. While `locked` is set no window is to get the keyboard; `cur_lock` is
-- the running locker. The locker's surfaces are a list that wlroots keeps, an argument of the handlers.
pub mod Guarded
pub mod Windows
pub mod Requests
pub mod Handlers
pub mod Pointer
pub mod Decos
pub mod Tip
pub mod Safety
pub mod Stacking
pub mod Unlock
use steppewm.Base.{
  ℕ, pos, ltb_ℤ, Bool, true, false, not, ◌||◌, Option, none, some, List, [], ◌∷◌, ◌==◌,
  if◌then◌else◌, find, is_some,
}
use steppewm.Wlr.{
  Call, Surface, lock, Wlroots, node_set_enabled, node_set_position, node_raise_to_top,
  node_destroy, rect_set_size, lock_tree, lock_bg, lock_msg_tree, lock_surface_tree, keyboard_enter,
  keyboard_clear_focus, pointer_clear_focus, lock_destroy, lock_send_locked, lock_surface_configure,
  lock_message_draw, constraint_update,
}
use steppewm.Wlr.Seat.{is_surface}
use steppewm.State.{Output, Server, emit, emit_if, log}
use steppewm.Switcher.{cancel}
use steppewm.View.{enter_keyboard, focus_next}
use steppewm.Lifecycle.{release_grab}

-- `class lock_surface`: the surface, and the output that it covers.
pub record LockSurface : Type 0 where
  pub surface : ℕ
  pub output : ℕ

-- `session_lock::broken_msg_hide`.
unfoldable pub broken_msg_hide : Server → Server
broken_msg_hide s = record (emit_if s.lock_msg_tree (node_destroy lock_msg_tree) s) {
  lock_msg_tree = false;
}

-- The surface is a locker's: `wlr_session_lock_surface_v1_try_from_wlr_surface`.
unfoldable pub is_lock : Option Surface → Bool
is_lock (some (lock a)) = true
is_lock _ = false

unfoldable pub first_surface : List LockSurface → Option ℕ
first_surface [] = none
first_surface (l ∷ ls) = some l.surface

module _ (w : Wlroots) where
  -- The loop of `broken_msg_show`, over the outputs that have a place in the layout.
  unfoldable pub draw_messages : List Output → List Call → List Call
  draw_messages [] cs = cs
  draw_messages (o ∷ os) cs = draw_messages os (
      if ltb_ℤ (pos 0) (w.get_box cs (some o.wlr_output)).width
      then lock_message_draw o.wlr_output ∷ cs
      else cs)

  -- `session_lock::broken_msg_show`.
  unfoldable pub broken_msg_show : Server → Server
  broken_msg_show s =
      let s1 = record (broken_msg_hide s) { lock_msg_tree = true } in
      log (draw_messages s1.outputs) s1

  -- `lock_surface::configure`.
  unfoldable pub configure_surface : LockSurface → List Call → List Call
  configure_surface l cs =
      let b = w.get_box cs (some l.output) in
      lock_surface_configure l.surface b.width b.height
      ∷ node_set_position (lock_surface_tree l.surface) b.x b.y
      ∷ cs

  unfoldable pub configure_surfaces : List LockSurface → List Call → List Call
  configure_surfaces [] cs = cs
  configure_surfaces (l ∷ ls) cs = configure_surfaces ls (configure_surface l cs)

  -- The backdrop covers the whole layout and the lock comes to the top.
  unfoldable pub cover_layout : Server → Server
  cover_layout s =
      let b = w.get_box s.calls none in
      emit (node_raise_to_top lock_tree)
        (emit (rect_set_size lock_bg b.width b.height) (emit (node_set_position lock_bg b.x b.y) s))

  -- `session_lock::update_geometry`.
  unfoldable pub update_geometry : List LockSurface → Server → Server
  update_geometry surfaces s =
      let s1 = cover_layout s in
      let s2 = if is_some s1.cur_lock then log (configure_surfaces surfaces) s1 else s1 in
      if not s.locked then s else if s2.lock_msg_tree then broken_msg_show s2 else s2

  -- "cancel anything interactive", "take focus away from regular clients".
  unfoldable pub take_over : ℕ → Server → Server
  take_over l s =
      let s1 = broken_msg_hide (record s { cur_lock = some l; locked = true }) in
      let s2 = cancel s1 in
      let s3 = record s2 { grab = release_grab s2.grab } in
      emit constraint_update (emit pointer_clear_focus (emit keyboard_clear_focus s3))

  -- The constructor of `session_lock`. A new lock has no surface yet.
  unfoldable pub begin_lock : ℕ → Server → Server
  begin_lock l s =
      emit (lock_send_locked l)
        (update_geometry [] (emit (node_set_enabled lock_tree true) (take_over l s)))

  -- `session_lock::on_new`.
  unfoldable pub on_new_lock : ℕ → Server → Server
  on_new_lock l s = if is_some s.cur_lock then emit (lock_destroy l) s else begin_lock l s

  -- The handler of the lock's `unlock` event.
  unfoldable pub on_unlock : Server → Server
  on_unlock s =
      focus_next w none (emit (node_set_enabled lock_tree false) (record s { locked = false }))

  -- The handler of its `destroy` event.
  unfoldable pub on_destroy_lock : Server → Server
  on_destroy_lock s =
      let s1 = record s { cur_lock = none } in if s1.locked then broken_msg_show s1 else s1

  -- The constructor of `lock_surface`.
  unfoldable pub on_new_surface : LockSurface → Server → Server
  on_new_surface l s = enter_keyboard w (lock l.surface) (log (configure_surface l) s)

  unfoldable pub enter_first : Option ℕ → Server → Server
  enter_first none s = s
  enter_first (some a) s =
      if is_lock (w.focused_surface s.calls) then s else enter_keyboard w (lock a) s

  -- `session_lock::ensure_focus`.
  unfoldable pub ensure_focus : List LockSurface → Server → Server
  ensure_focus surfaces s =
      if not s.locked || not (is_some s.cur_lock) then s else enter_first (first_surface surfaces) s

  -- The surface that takes over, if there is one and a keyboard; else a locked session has no focus.
  unfoldable pub hand_over : Option LockSurface → Server → Server
  hand_over (some l) s =
      if w.has_keyboard s.calls
      then emit (keyboard_enter (lock l.surface)) s
      else emit_if s.locked keyboard_clear_focus s
  hand_over none s = emit_if s.locked keyboard_clear_focus s

  -- `lock_surface::handle_destroy`.
  unfoldable pub on_destroy_surface : ℕ → List LockSurface → Server → Server
  on_destroy_surface a surfaces s =
      let next = if is_some s.cur_lock then find (λ l. not (l.surface == a)) surfaces else none in
      if is_surface (w.focused_surface s.calls) (lock a) then hand_over next s else s
