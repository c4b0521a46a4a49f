-- ===== src/Layer.antt =====
-- Layer surfaces and the keyboard: `layer_surface::focus`, `on_map`, `on_unmap` and `on_destroy` of
-- src/layer.cc. A layer surface is known by its address; `focused_layer` points to the one that took
-- the keyboard.
pub mod Handback
pub mod Create
use steppewm.Base.{ℕ, Bool, none, some, if◌then◌else◌, points_to}
use steppewm.Wlr.{Wlroots, layer}
use steppewm.State.{Server}
use steppewm.View.{enter_keyboard, focus_next}

-- `layer_surface::on_destroy`: "guard against a dangling pointer".
unfoldable pub on_destroy : ℕ → Server → Server
on_destroy ls s = record s {
  focused_layer = if points_to s.focused_layer ls then none else s.focused_layer;
}

module _ (w : Wlroots) where
  -- `layer_surface::focus`.
  unfoldable pub focus_layer : ℕ → Server → Server
  focus_layer ls s =
      if s.locked then s else record (enter_keyboard w (layer ls) s) { focused_layer = some ls }

  -- `layer_surface::on_map`; `interactive` says that the client asked for the keyboard.
  unfoldable pub on_map : Bool → ℕ → Server → Server
  on_map interactive ls s = if interactive then focus_layer ls s else s

  -- `layer_surface::on_unmap`.
  unfoldable pub on_unmap : ℕ → Server → Server
  on_unmap ls s =
      if points_to s.focused_layer ls
      then focus_next w none (record s { focused_layer = none })
      else s
