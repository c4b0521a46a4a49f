-- ===== src/Popup.antt =====
-- Popups of windows: `popup::on_new`, `unconstrain`, `handle_commit` and `handle_reposition` of src/view.cc.
use steppewm.Base.{ℕ, ℤ, ◌+ℤ◌, ◌-ℤ◌, Bool, true, false, Option, none, some, if◌then◌else◌}
use steppewm.Wlr.{Box, Wlroots, popup_unconstrain, popup_create}
use steppewm.State.{Server, emit}
use steppewm.Snap.{pixels}

-- The surface that a popup belongs to, by its role: the toplevel of a window, if its `data` is still set; a popup,
-- with whether it has a scene tree, and the surface that it belongs to, which may be null; or a
-- surface of no role that counts.
pub data Parent : Type 0 where
  toplevel_parent : Option ℕ → Parent
  popup_parent : Bool → Parent → Parent
  orphan_parent : Bool → Parent
  no_parent : Parent

-- `popup`, with whether its surface is initialized.
pub record Popup : Type 0 where
  pub xdg_popup : ℕ
  pub parent : Parent
  pub initialized : Bool
  pub unconstrained : Bool

-- "walk up the popup chain to the toplevel that owns a view".
unfoldable pub root_of : Parent → Option ℕ
root_of (toplevel_parent v) = v
root_of (popup_parent placed above) = root_of above
root_of (orphan_parent placed) = none
root_of no_parent = none

-- Whether there is a scene tree to put the popup under.
unfoldable pub has_tree : Parent → Bool
has_tree (toplevel_parent none) = false
has_tree (toplevel_parent (some v)) = true
has_tree (popup_parent placed above) = placed
has_tree (orphan_parent placed) = placed
has_tree no_parent = false

-- `popup::on_new`, for the popup with its parent.
unfoldable pub new_popup : ℕ → Parent → Server → Server × Option Popup
new_popup a parent s =
    if has_tree parent
    then (
      emit (popup_create a) s,
      some (record { xdg_popup = a; parent = parent; initialized = false; unconstrained = false }),
    )
    else (s, none)

module _ (w : Wlroots) where
  -- The box of an output, relative to the surface of a window.
  unfoldable pub relative_box : ℤ → ℤ → Box → Box
  relative_box x y b = record b { x = b.x -ℤ x; y = b.y -ℤ y }

  unfoldable pub unconstrain_on : ℕ → ℤ → ℤ → Server → Server × Bool
  unconstrain_on a x y s = elim (w.output_at s.calls (pixels x) (pixels y)) [
    | none ↦ (s, false)
    | some out ↦
        (emit (popup_unconstrain a (relative_box x y (w.get_box s.calls (some out)))) s, true)
  ]

  unfoldable pub unconstrain_root : ℕ → Option ℕ → Server → Server × Bool
  unconstrain_root a none s = (s, false)
  unconstrain_root a (some v) s =
      let o = s.store v in unconstrain_on a (o.x +ℤ o.xdg_x) (o.y +ℤ o.xdg_y) s

  -- `popup::unconstrain`.
  unfoldable pub unconstrain : Popup → Server → Server × Bool
  unconstrain p s =
      if p.initialized then unconstrain_root p.xdg_popup (root_of p.parent) s else (s, false)

  -- `popup::handle_commit`.
  unfoldable pub handle_commit : Popup → Server → Server × Popup
  handle_commit p s =
      let (s1, done) = unconstrain p s in
      if p.unconstrained then (s, p) else (s1, record p { unconstrained = done })

  -- `popup::handle_reposition`.
  unfoldable pub handle_reposition : Popup → Server → Server
  handle_reposition p s = (unconstrain p s).0
