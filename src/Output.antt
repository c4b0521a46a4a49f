-- ===== src/Output.antt =====
-- Outputs: src/output.cc. Which output has a taskbar, and which part of it a window may use. An output
-- pointer of wlroots, which may be null, is `Option ℕ`.
pub mod Taskbars
pub mod Modes
pub mod Configure
pub mod Manage
pub mod Configured
use steppewm.Base.{
  ℕ, ℤ, pos, ◌+ℤ◌, ◌-ℤ◌, Bool, true, false, not, ◌&&◌, ◌||◌, Option, none, some, List, [], ◌∷◌,
  ◌==◌, if◌then◌else◌, find, any, points_to, is_some,
}
use mathlib.Core.List.{reverse}
use steppewm.Wlr.{
  Box, Wlroots, Call, taskbar_create, taskbar_delete, taskbar_view_added, taskbar_update_geometry,
  taskbar_raise,
}
use steppewm.State.{Output, Server, TaskbarPos, bottom, top}

-- `output::find_for_wlr_output`.
unfoldable pub find_for_wlr_output : List Output → Option ℕ → Option Output
find_for_wlr_output os wlr_out = find (λ o. points_to wlr_out o.wlr_output) os

unfoldable pub has_taskbar : Option Output → Bool
has_taskbar none = false
has_taskbar (some o) = o.output_taskbar

-- `output::taskbar_height`.
unfoldable pub taskbar_height : Server → Option ℕ → ℤ
taskbar_height s wlr_out =
    if has_taskbar (find_for_wlr_output s.outputs wlr_out) then s.cfg.taskbar_h else pos 0

-- The strip of `bar` rows taken off at the bottom, or at the top.
unfoldable pub shrink : TaskbarPos → ℤ → Box → Box
shrink bottom bar b = record b { height = b.height -ℤ bar }
shrink top bar b = record b { height = b.height -ℤ bar; y = b.y +ℤ bar }

-- `output::usable_area`.
unfoldable pub usable_area : Wlroots → Server → Option ℕ → Box
usable_area w s wlr_out =
    shrink s.cfg.taskbar_position (taskbar_height s wlr_out) (w.get_box s.calls wlr_out)

-- `output::any_taskbar`.
unfoldable pub any_taskbar : List Output → Bool
any_taskbar = any (λ o. o.output_taskbar)

-- The first loop of `output::ensure_taskbars`, which runs from the back of the list: the last output of
-- the scene that has a taskbar, or else the last one of the scene. `primary` is the choice so far.
unfoldable pub choose_primary : List Output → Option ℕ → Option ℕ
choose_primary [] primary = primary
choose_primary (o ∷ os) primary =
    let next = if o.scene_output && not (is_some primary) then some o.wlr_output else primary in
    let rest = choose_primary os next in
    if o.scene_output && o.output_taskbar then some o.wlr_output else rest

unfoldable pub needs_taskbar : Bool → Option ℕ → Output → Bool
needs_taskbar all_outputs primary o =
    o.scene_output && (all_outputs || points_to primary o.wlr_output)

-- `output::create_taskbar` fills the new taskbar with the windows.
unfoldable pub create_taskbar : List ℕ → ℕ → List Call → List Call
create_taskbar [] o cs = cs
create_taskbar (v ∷ vs) o cs = create_taskbar vs o (taskbar_view_added o v ∷ cs)

-- One round of the second loop: a missing taskbar is made, one too many is deleted, and a taskbar
-- that stays is laid out and raised.
unfoldable pub settle_taskbar : List ℕ → Bool → Output → List Call → Output × List Call
settle_taskbar views needs o cs =
    if needs && not o.output_taskbar
    then (
      record o { output_taskbar = true },
      create_taskbar views o.wlr_output (taskbar_create o.wlr_output ∷ cs),
    )
    else if not needs && o.output_taskbar
    then (record o { output_taskbar = false }, taskbar_delete o.wlr_output ∷ cs)
    else (o, cs)

unfoldable pub lay_out_taskbar : Output → List Call → List Call
lay_out_taskbar o cs =
    if o.output_taskbar
    then taskbar_raise o.wlr_output ∷ taskbar_update_geometry o.wlr_output ∷ cs
    else cs

unfoldable pub settle_taskbars :
    List ℕ → Bool → Option ℕ → List Output → List Call → List Output × List Call
settle_taskbars views all_outputs primary [] cs = ([], cs)
settle_taskbars views all_outputs primary (o ∷ os) cs =
    let (o', cs') = settle_taskbar views (needs_taskbar all_outputs primary o) o cs in
    let (os', cs'') = settle_taskbars views all_outputs primary os (lay_out_taskbar o' cs') in
    (o' ∷ os', cs'')

-- `output::ensure_taskbars`.
unfoldable pub ensure_taskbars : Server → Server
ensure_taskbars s =
    let primary = choose_primary (reverse s.outputs) none in
    let (os, cs) = settle_taskbars s.views s.cfg.taskbar_all_outputs primary s.outputs s.calls in
    record s { outputs = os; calls = cs }
