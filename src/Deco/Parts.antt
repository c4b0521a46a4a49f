-- ===== src/Deco/Parts.antt =====
-- Where the parts of a window's decoration stand, and which cursor they show: `view::deco_update`,
-- `deco_is_button` and `deco_cursor_name` of src/deco.cc. Places are those of the nodes inside the
-- decoration; the drawing at the end of `deco_update` is left out.
use Prim.Native.String.{String}
use steppewm.Base.{
  ℤ, pos, ◌+ℤ◌, ◌-ℤ◌, ◌*ℤ◌, ◌/ℤ◌, ◌≤ℤ◌, Bool, true, false, Option, none, some, if◌then◌else◌, ◌⊎◌,
  inl, inr, Bool-cases, int_laws,
}
use steppewm.State.{View, DecoMode}
use steppewm.Settings.{Sizes}
use steppewm.Deco.{
  DecoNode, close_button, maximize_button, minimize_button, border_left, border_right,
  border_bottom, border_top, corner_tl, corner_tr, corner_bl, corner_br,
}

pub record Point : Type 0 where
  pub x : ℤ
  pub y : ℤ

-- The x of the three buttons, on a title bar of width `tw`.
pub record Buttons : Type 0 where
  pub close_x : ℤ
  pub maximize_x : ℤ
  pub minimize_x : ℤ

unfoldable pub place_buttons : Sizes → ℤ → Buttons
place_buttons c tw =
    let left_maximize = pos 4 +ℤ c.close_button_w +ℤ pos 4 in
    let close = tw -ℤ c.close_button_w -ℤ pos 4 in
    let maximize = close -ℤ pos 4 -ℤ c.maximize_button_w in
    if c.buttons_left
    then record {
      close_x = pos 4;
      maximize_x = left_maximize;
      minimize_x = left_maximize +ℤ c.maximize_button_w +ℤ pos 2;
    }
    else record {
      close_x = close;
      maximize_x = maximize;
      minimize_x = maximize -ℤ pos 2 -ℤ c.minimize_button_w;
    }

-- The width of the decoration.
abbrev pub deco_width : Sizes → View → ℤ
deco_width c o = o.geometry.width +ℤ pos 2 *ℤ c.border_w

abbrev pub button_y : Sizes → ℤ
button_y c = (c.title_h -ℤ (c.title_h -ℤ pos 4)) /ℤ 2

-- `deco_update` as far as it places nodes: where each one that it moves stands.
unfoldable pub node_place : Sizes → View → DecoNode → Option Point
node_place c o close_button =
    some (record { x = (place_buttons c (deco_width c o)).close_x; y = button_y c })
node_place c o maximize_button =
    some (record { x = (place_buttons c (deco_width c o)).maximize_x; y = button_y c })
node_place c o minimize_button =
    some (record { x = (place_buttons c (deco_width c o)).minimize_x; y = button_y c })
node_place c o border_left = some (record { x = pos 0; y = c.title_h })
node_place c o border_right = some (record { x = deco_width c o -ℤ c.border_w; y = c.title_h })
node_place c o border_bottom = some (record { x = pos 0; y = c.title_h +ℤ o.geometry.height })
node_place c o border_top = some (record { x = pos 0; y = pos 0 })
node_place c o corner_tl = some (record { x = pos 0; y = pos 0 })
node_place c o corner_tr = some (record { x = deco_width c o -ℤ c.corner_size; y = pos 0 })
node_place c o corner_bl =
    some (record { x = pos 0; y = c.title_h +ℤ o.geometry.height +ℤ c.border_w -ℤ c.corner_size })
node_place c o corner_br = some (record {
  x = deco_width c o -ℤ c.corner_size;
  y = c.title_h +ℤ o.geometry.height +ℤ c.border_w -ℤ c.corner_size;
})
node_place c o _ = none

-- `deco_update` does nothing for a window that draws its own decoration or is fullscreen.
unfoldable pub deco_update : Sizes → View → DecoNode → Option Point
deco_update c o node = elim o.decoration_mode [
  | DecoMode.client ↦ none
  | DecoMode.server ↦ if o.fullscreen then none else node_place c o node
]

unfoldable pub is_button : DecoNode → Bool
is_button close_button = true
is_button maximize_button = true
is_button minimize_button = true
is_button _ = false

-- `deco_is_button`.
unfoldable pub deco_is_button : DecoMode → DecoNode → Bool
deco_is_button DecoMode.server node = is_button node
deco_is_button DecoMode.client node = false

unfoldable pub resize_cursor : DecoNode → Option String
resize_cursor corner_tl = some "nw-resize"
resize_cursor corner_tr = some "ne-resize"
resize_cursor corner_bl = some "sw-resize"
resize_cursor corner_br = some "se-resize"
resize_cursor border_left = some "w-resize"
resize_cursor border_right = some "e-resize"
resize_cursor border_top = some "n-resize"
resize_cursor border_bottom = some "s-resize"
resize_cursor _ = none

-- `deco_cursor_name`.
unfoldable pub deco_cursor_name : DecoMode → DecoNode → Option String
deco_cursor_name DecoMode.server node = resize_cursor node
deco_cursor_name DecoMode.client node = none

-- A span of a title bar of width `tw`, and two that do not meet.
abbrev pub IsInside : ℤ → ℤ → ℤ → Type 0
IsInside tw x w = (pos 0 ≤ℤ x) × (x +ℤ w ≤ℤ tw)

abbrev pub IsApart : ℤ → ℤ → ℤ → ℤ → Type 0
IsApart x w y v = (x +ℤ w ≤ℤ y) ⊎ (y +ℤ v ≤ℤ x)

-- On either side, if the title bar is wide enough for the three buttons, with none of a negative width: they
-- stand inside the title bar and do not meet.
place_buttons-IsApart :
    (c : Sizes) (tw : ℤ)
    → pos 0 ≤ℤ c.close_button_w
    → pos 0 ≤ℤ c.maximize_button_w
    → pos 0 ≤ℤ c.minimize_button_w
    → c.close_button_w +ℤ c.maximize_button_w +ℤ c.minimize_button_w +ℤ pos 10 ≤ℤ tw
    → let b = place_buttons c tw in
      IsInside tw b.close_x c.close_button_w
      × IsInside tw b.maximize_x c.maximize_button_w
      × IsInside tw b.minimize_x c.minimize_button_w
      × IsApart b.close_x c.close_button_w b.maximize_x c.maximize_button_w
      × IsApart b.maximize_x c.maximize_button_w b.minimize_x c.minimize_button_w
      × IsApart b.close_x c.close_button_w b.minimize_x c.minimize_button_w
unfolding place_buttons
place_buttons-IsApart c tw hc hm hn room = elim (Bool-cases c.buttons_left) [
  | inl e ↦ rw e (
    (omega int_laws, omega int_laws),
    (omega int_laws, omega int_laws),
    (omega int_laws, omega int_laws),
    inl (omega int_laws),
    inl (omega int_laws),
    inl (omega int_laws),
  )
  | inr e ↦ rw e (
    (omega int_laws, omega int_laws),
    (omega int_laws, omega int_laws),
    (omega int_laws, omega int_laws),
    inr (omega int_laws),
    inr (omega int_laws),
    inr (omega int_laws),
  )
]
