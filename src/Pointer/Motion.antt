-- ===== src/Pointer/Motion.antt =====
-- The pointer's motion: `update_hover`, `server::process_cursor_motion`, `cursor_move_relative`,
-- `on_cursor_motion`, `on_cursor_motion_absolute`, and the pointer constraints of src/input.cc.
use Prim.Native.String.{String}
use steppewm.Base.{
  ℕ, ℤ, ◌+ℤ◌, ◌-ℤ◌, Bool, true, false, ◌&&◌, Option, none, some, List, [], ◌∷◌, ◌==◌, if◌then◌else◌,
}
use steppewm.Wlr.{
  Wlroots, Surface, Call, Node, deco_button, drag_icon_tree, node_set_position,
  pointer_notify_enter, pointer_notify_motion, pointer_clear_focus, set_cursor, deco_set_hover,
  tray_menu_hover, notify_activity, constraint_activated, constraint_deactivated, cursor_move,
  cursor_warp, relative_motion,
}
use steppewm.Wlr.Seat.{is_surface}
use steppewm.State.{View, Output, Server, passthrough, move, resize, emit}
use steppewm.Grab.{to_pixels, process_cursor_move, process_cursor_resize}
use steppewm.Deco.{DecoNode, close_button, maximize_button, minimize_button}
use steppewm.Deco.Parts.{deco_is_button, deco_cursor_name}
use steppewm.Taskbar.{Taskbar, Metrics}
use steppewm.Taskbar.Hits.{hover_update}
use steppewm.Pointer.{Under, Tray, Pointing}
use steppewm.Pointer.Press.{menu_is_open}

-- What wlroots tells of the pointer and its constraints: the pointer's place on its focused surface; the
-- constraint of a surface, its own surface, whether it locks the pointer, and where it confines a step
-- to; where a step from a place ends; and the hint of a constraint for the place of the pointer.
pub record Constraints : Type 0 where
  pub surface_x : List Call → ℤ
  pub surface_y : List Call → ℤ
  pub constraint_for : Surface → Option ℕ
  pub surface_of : ℕ → Surface
  pub locks : ℕ → Bool
  pub confine : ℕ → ℤ → ℤ → ℤ → ℤ → Option (ℤ × ℤ)
  pub step : ℤ → ℤ → ℤ → ℤ → ℤ × ℤ
  pub cursor_hint : ℕ → Option (ℤ × ℤ)

-- Hovered nodes are buttons of decorations.
unfoldable pub same_button : Option Node → Option Node → Bool
same_button none none = true
same_button (some (deco_button v i)) (some (deco_button u j)) = v == u && i == j
same_button _ _ = false

abbrev pub same_view : Option ℕ → Option ℕ → Bool
same_view none none = true
same_view (some a) (some b) = a == b
same_view _ _ = false

-- The node of a decoration's button.
unfoldable pub button_node : ℕ → DecoNode → Option Node
button_node v close_button = some (deco_button v 0)
button_node v maximize_button = some (deco_button v 1)
button_node v minimize_button = some (deco_button v 2)
button_node v _ = none

abbrev pub on_both : Option ℕ → Option Node → (Node → Server → Server) → Server → Server
on_both (some v) (some n) f s = f n s
on_both _ _ f s = s

-- The part of `update_hover` on decorations.
unfoldable pub hover_deco : Option Node → Option ℕ → Server → Server
hover_deco node v s =
    let s1 =
      on_both s.hovered_deco_view s.hovered_deco_node (λ n. emit (deco_set_hover n false)) s in
    let s2 = on_both v node (λ n. emit (deco_set_hover n true)) s1 in
    if same_button s.hovered_deco_node node && same_view s.hovered_deco_view v
    then s
    else record s2 { hovered_deco_node = node; hovered_deco_view = v }

-- What the motion shows as the cursor, and which button it hovers, where no surface is under it.
pub record Shape : Type 0 where
  pub cursor : String
  pub node : Option Node
  pub view : Option ℕ

abbrev pub or_default : Option String → String
or_default none = "default"
or_default (some name) = name

unfoldable pub shape_at : (ℕ → View) → Option (ℕ × DecoNode) → Shape
shape_at st none = record { cursor = "default"; node = none; view = none }
shape_at st (some (v, node)) =
    let mode = (st v).decoration_mode in
    if deco_is_button mode node
    then record { cursor = "pointer"; node = button_node v node; view = some v }
    else record { cursor = or_default (deco_cursor_name mode node); node = none; view = none }

-- The pointer over a surface, or over none.
unfoldable pub enter_surface : Surface → Server → Server
enter_surface x s = emit (pointer_notify_motion x) (emit (pointer_notify_enter x) s)

unfoldable pub leave_surfaces : String → Server → Server
leave_surfaces cursor s = emit pointer_clear_focus (emit (set_cursor cursor) s)

unfoldable pub constraint_of : Constraints → Option Surface → Option ℕ
constraint_of k none = none
constraint_of k (some x) = k.constraint_for x

abbrev pub tell : Option ℕ → (ℕ → Call) → Server → Server
tell none f s = s
tell (some c) f s = emit (f c) s

module _ (w : Wlroots) (m : Metrics) (k : Constraints) where
  -- The loop of `update_hover` over the bars.
  unfoldable pub hover_bars : List Output → Server → (ℕ → Taskbar) → ℕ → Taskbar
  hover_bars [] s bars = bars
  hover_bars (o ∷ os) s bars = hover_bars os s (λ i.
      if o.output_taskbar && i == o.wlr_output
      then hover_update w m s.cursor_x s.cursor_y s (bars i)
      else bars i)

  unfoldable pub update_hover : Option Node → Option ℕ → Pointing → Pointing
  update_hover node v p =
      let s = hover_deco node v p.srv in record p { srv = s; bars = hover_bars s.outputs s p.bars }

  -- `pointer_constraint::update`.
  unfoldable pub update_constraint : Pointing → Pointing
  update_constraint p =
      let next = constraint_of k (w.pointer_surface p.srv.calls) in
      let s1 = tell p.active_constraint constraint_deactivated p.srv in
      if same_view p.active_constraint next
      then p
      else record p { active_constraint = next; srv = tell next constraint_activated s1 }

  -- The hover at the end of `process_cursor_motion`, in an unlocked session.
  unfoldable pub point_at : Under → Pointing → Pointing
  point_at under p =
      let shape = shape_at p.srv.store under.deco in
      let q : Pointing = elim under.surface [
        | some x ↦ update_hover none none (record p { srv = enter_surface x p.srv })
        | none ↦
            update_hover shape.node shape.view
              (record p { srv = leave_surfaces shape.cursor p.srv })
      ] in
      update_constraint q

  unfoldable pub point_locked : Option Surface → Server → Server
  point_locked none s = leave_surfaces "default" s
  point_locked (some x) s = enter_surface x s

  -- No window is moved or resized.
  unfoldable pub pass_motion : Option Tray → Under → Pointing → Pointing
  pass_motion tray under p =
      let q = if menu_is_open tray then record p { srv = emit tray_menu_hover p.srv } else p in
      if q.srv.locked then record q { srv = point_locked under.surface q.srv } else point_at under q

  abbrev pub on_grabbed : (ℕ → Server → Server) → Server → Server
  on_grabbed f s = elim s.grab.grabbed_view [ none ↦ s | some v ↦ f v s ]

  -- `process_cursor_motion`.
  unfoldable pub process_cursor_motion : Option Tray → Under → Pointing → Pointing
  process_cursor_motion tray under p =
      let s =
        emit
          (node_set_position drag_icon_tree (to_pixels p.srv.cursor_x) (to_pixels p.srv.cursor_y))
          p.srv in
      elim s.grab.mode [
        | move ↦ record p { srv = on_grabbed (process_cursor_move w) s }
        | resize ↦ record p { srv = on_grabbed process_cursor_resize s }
        | passthrough ↦ pass_motion tray under (record p { srv = s })
      ]

  -- The constraint that holds the pointer, if it does.
  unfoldable pub holding : Pointing → Option ℕ
  holding p = elim p.active_constraint [
    | none ↦ none
    | some c ↦ elim p.srv.grab.mode [
      | passthrough ↦
          if is_surface (w.pointer_surface p.srv.calls) (k.surface_of c) then some c else none
      | _ ↦ none
    ]
  ]

  abbrev pub or_step : Option (ℤ × ℤ) → ℤ → ℤ → ℤ → ℤ → ℤ × ℤ
  or_step none sx sy dx dy = (dx, dy)
  or_step (some (cx, cy)) sx sy dx dy = (cx -ℤ sx, cy -ℤ sy)

  -- The step that a confining constraint leaves.
  unfoldable pub confined : Option ℕ → ℤ → ℤ → Server → ℤ × ℤ
  confined none dx dy s = (dx, dy)
  confined (some c) dx dy s =
      let sx = k.surface_x s.calls in
      let sy = k.surface_y s.calls in or_step (k.confine c sx sy (sx +ℤ dx) (sy +ℤ dy)) sx sy dx dy

  unfoldable pub is_locking : Option ℕ → Bool
  is_locking none = false
  is_locking (some c) = k.locks c

  -- `wlr_cursor_move`.
  unfoldable pub step_cursor : ℤ × ℤ → Server → Server
  step_cursor (dx, dy) s =
      let (x, y) = k.step s.cursor_x s.cursor_y dx dy in
      emit (cursor_move dx dy) (record s { cursor_x = x; cursor_y = y })

  -- `cursor_move_relative`, which `on_cursor_motion` calls with the event's step; `scene` is what is under
  -- the pointer of a server.
  unfoldable pub cursor_move_relative : (Server → Under) → Option Tray → ℤ → ℤ → Pointing → Pointing
  cursor_move_relative scene tray dx dy p =
      let p1 = record p { srv = emit (relative_motion dx dy) (emit notify_activity p.srv) } in
      let held = holding p1 in
      let s = step_cursor (confined held dx dy p1.srv) p1.srv in
      if is_locking held then p1 else process_cursor_motion tray (scene s) (record p1 { srv = s })

  -- `on_cursor_motion_absolute`, to a place in the layout.
  unfoldable pub on_cursor_motion_absolute :
      (Server → Under) → Option Tray → ℤ → ℤ → Pointing → Pointing
  on_cursor_motion_absolute scene tray lx ly p =
      cursor_move_relative scene tray (lx -ℤ p.srv.cursor_x) (ly -ℤ p.srv.cursor_y) p

  abbrev pub warp_to : Option (ℤ × ℤ) → Server → Server
  warp_to none s = s
  warp_to (some (x, y)) s =
      let lx = s.cursor_x -ℤ k.surface_x s.calls +ℤ x in
      let ly = s.cursor_y -ℤ k.surface_y s.calls +ℤ y in
      emit (cursor_warp lx ly) (record s { cursor_x = lx; cursor_y = ly })

  -- `pointer_constraint::handle_destroy`.
  unfoldable pub destroy_constraint : ℕ → Pointing → Pointing
  destroy_constraint c p =
      let there = is_surface (w.pointer_surface p.srv.calls) (k.surface_of c) in
      if same_view p.active_constraint (some c)
      then record p {
        active_constraint = none;
        srv = if there then warp_to (k.cursor_hint c) p.srv else p.srv;
      }
      else p
