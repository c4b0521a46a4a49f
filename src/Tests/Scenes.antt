-- ===== src/Tests/Scenes.antt =====
-- The theorems on what is found under the pointer and under the tip of a tablet's tool, on the small desktop.
use steppewm.Base.{pos, ◌+ℤ◌, ◌*ℤ◌, true, false, none, some, [], ◌∷◌, ◌≡◌, refl}
use steppewm.Wlr.{toplevel}
use steppewm.State.{Server, passthrough}
use steppewm.Deco.{border_left}
use steppewm.Scene.{Hit, buffer, kind_of, owner_of, deco_at}
use steppewm.Scene.Grips.{deco_at-parts}
use steppewm.Pointer.{Under}
use steppewm.Pointer.Motion.{
  Constraints, process_cursor_motion, pass_motion, point_at, update_hover, update_constraint,
  hover_deco, enter_surface, leave_surfaces, constraint_of, same_button,
}
use steppewm.Pointer.Press.{menu_is_open}
use steppewm.Tablet.{Place, Tool, move_to, warp_cursor, handle_tip}
use steppewm.Tablet.Focused.{handle_tip-focus}
use steppewm.Tests.{wlr, desk, seat, keyboard}
use steppewm.Tests.Bars.{metrics, bars}

-- The left border of window 2.
abbrev left_side : Hit
left_side = record {
  kind = buffer;
  part = border_left;
  surface = none;
  ancestors = none ∷ some 2 ∷ none ∷ [];
}

deco_at-parts_example : deco_at desk.store (λ v. true) (some left_side) ≡ none
unfolding kind_of owner_of
deco_at-parts_example = deco_at-parts desk.store (λ v. true) left_side 2 refl refl refl refl

abbrev free : Constraints
free = record {
  surface_x = λ cs. pos 0;
  surface_y = λ cs. pos 0;
  constraint_for = λ x. none;
  surface_of = λ c. toplevel 1;
  locks = λ c. false;
  confine = λ c x y tx ty. none;
  step = λ x y dx dy. (x +ℤ dx, y +ℤ dy);
  cursor_hint = λ c. none;
}

abbrev over_window : Under
over_window = record { view = some 1; surface = some (toplevel 1); deco = none }

abbrev idle : Server
idle = record desk { grab = record desk.grab { mode = passthrough } }

abbrev pen : Tool
pen = record {
  pointing = record { srv = idle; bars = bars; active_constraint = none };
  wlr_tool = some 4;
  tool_v2 = some 5;
  tool_data = λ i. some 5;
}

-- In the middle of the tablet.
abbrev middle : Place
middle = record { across = λ l. l *ℤ pos 128; down = λ l. l *ℤ pos 128 }

handle_tip-focus_example :
    wlr.focused_surface
      (handle_tip wlr metrics free none
        (λ s. over_window)
        (λ x y. true)
        true
        middle
        pen).pointing.srv.calls
    ≡ some (toplevel 1)
unfolding move_to warp_cursor process_cursor_motion pass_motion point_at update_hover
    update_constraint hover_deco enter_surface leave_surfaces menu_is_open constraint_of same_button
handle_tip-focus_example =
    handle_tip-focus wlr metrics free none (λ s. over_window) (λ x y. true) seat keyboard middle pen
      5 1 refl refl refl refl refl
