-- ===== src/Idle.antt =====
-- Idle inhibition: `class idle_inhibitor` in src/input.cc. The inhibitors are the list that wlroots
-- keeps; a surface that is not a window's counts as shown while it is mapped.
pub mod Shown
use steppewm.Base.{
  ℕ, Bool, true, false, not, ◌&&◌, ◌||◌, Option, List, [], ◌∷◌, ◌==◌, if◌then◌else◌, points_to,
}
use steppewm.Wlr.{Surface, toplevel, layer, lock, other, set_inhibited}
use steppewm.State.{View, Inhibitor, Server, emit}

-- The test of `visible` on the toplevel's window.
unfoldable pub window_visible : View → ℕ → Bool
window_visible v current =
    if v.has_data then v.mapped && not v.minimized && v.workspace == current else true

unfoldable pub surface_visible : (ℕ → View) → ℕ → Surface → Bool
surface_visible st current (toplevel v) = window_visible (st v) current
surface_visible st current _ = true

-- `idle_inhibitor::visible`.
unfoldable pub visible : Server → Inhibitor → Bool
visible s i =
    if not i.surface_mapped then false else surface_visible s.store s.current_workspace i.surface

-- The loop of `idle_inhibitor::update`: some inhibitor other than `exclude` is visible.
unfoldable pub inhibited : Server → Option ℕ → List Inhibitor → Bool
inhibited s exclude [] = false
inhibited s exclude (i ∷ is) =
    (not (points_to exclude i.address) && visible s i) || inhibited s exclude is

-- `idle_inhibitor::update`; `none` is the default argument `nullptr`.
unfoldable pub update_idle : Option ℕ → Server → Server
update_idle exclude s =
    emit (set_inhibited (inhibited s exclude s.inhibitors || s.idle_inhibit_manual)) s
