-- ===== src/Scene.antt =====
-- What is under a point of the scene: `view::at` of src/view.cc and `view::deco_at` of src/deco.cc, from the node that
-- `wlr_scene_node_at` finds and the trees above it.
pub mod Grips
use steppewm.Base.{
  ℕ, Bool, true, false, not, ◌&&◌, ◌||◌, Option, none, some, List, [], ◌∷◌, if◌then◌else◌,
}
use steppewm.Wlr.{Surface}
use steppewm.State.{View, DecoMode}
use steppewm.Deco.{
  DecoNode, titlebar, close_button, maximize_button, minimize_button, border_left, border_right,
  border_bottom, border_top, corner_tl, corner_tr, corner_bl, corner_br, elsewhere,
}
use steppewm.Pointer.{Under}

-- `WLR_SCENE_NODE_RECT` and `WLR_SCENE_NODE_BUFFER`; a tree is never hit.
pub data NodeKind : Type 0 where
  rect buffer : NodeKind

-- What `deco_create` makes each part of a decoration.
unfoldable pub kind_of : DecoNode → Option NodeKind
kind_of elsewhere = none
kind_of border_top = some rect
kind_of corner_tl = some rect
kind_of corner_tr = some rect
kind_of corner_bl = some rect
kind_of corner_br = some rect
kind_of _ = some buffer

-- The node that is hit: its kind, which part of the decoration of the window above it it is, the surface that it
-- shows, and the `data` of the trees above it, from the inside out.
pub record Hit : Type 0 where
  pub kind : NodeKind
  pub part : DecoNode
  pub surface : Option Surface
  pub ancestors : List (Option ℕ)

-- "find the view": the first tree above that has one.
unfoldable pub owner_of : List (Option ℕ) → Option ℕ
owner_of [] = none
owner_of (none ∷ above) = owner_of above
owner_of (some v ∷ above) = some v

abbrev pub is_rect : NodeKind → Bool
is_rect rect = true
is_rect buffer = false

abbrev pub with_owner : Option Surface → Option ℕ → Option ℕ × Option Surface
with_owner none v = (none, none)
with_owner (some x) v = (v, some x)

-- `view::at`: the window, and what is written to `*surface`, which is null before.
unfoldable pub at : Option Hit → Option ℕ × Option Surface
at none = (none, none)
at (some h) = if is_rect h.kind then (none, none) else with_owner h.surface (owner_of h.ancestors)

-- "themed decoration buffers".
unfoldable pub is_themed : DecoNode → Bool
is_themed titlebar = true
is_themed close_button = true
is_themed maximize_button = true
is_themed minimize_button = true
is_themed _ = false

abbrev pub is_server : DecoMode → Bool
is_server DecoMode.server = true
is_server DecoMode.client = false

module _ (st : ℕ → View) (has_titlebar : ℕ → Bool) where
  unfoldable pub part_at : Hit → Option ℕ → Option (ℕ × DecoNode)
  part_at h none = none
  part_at h (some v) =
      if is_server (st v).decoration_mode && has_titlebar v && (is_rect h.kind || is_themed h.part)
      then some (v, h.part)
      else none

  -- `view::deco_at`.
  unfoldable pub deco_at : Option Hit → Option (ℕ × DecoNode)
  deco_at none = none
  deco_at (some h) = part_at h (owner_of h.ancestors)

  -- What `server::process_cursor_motion` and `on_cursor_button` find with the two.
  unfoldable pub under_of : Option Hit → Under
  under_of hit = record { view = (at hit).0; surface = (at hit).1; deco = deco_at hit }
