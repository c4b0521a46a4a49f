-- ===== src/Window/Geometry.antt =====
-- What each operation of src/view.cc leaves in the window's own fields.
use steppewm.Base.{ℕ, ℤ, Bool, true, false, Option, ◌≡◌, refl, arith, ==_refl, if◌then◌else◌}
use steppewm.Wlr.{Box, Wlroots}
use steppewm.State.{View, Server, SnapEdge, unsnapped}
use steppewm.View.{raise_overlays}
use steppewm.Window.{
  is_special, deco_x, deco_y, with_saved_geometry, save_geometry, set_states, show_snapped, unsnap,
  occupy, fill_output, restore_geometry, restack,
}

pub save_geometry_view :
    (v : ℕ) (s : Server) → (save_geometry v s).store v ≡ with_saved_geometry (s.store v)
unfolding save_geometry
save_geometry_view v s = rw (==_refl v) refl

-- A window that an operation shows in the given states at the given place, decorations inset.
abbrev pub shown_at : ℤ → ℤ → ℤ → ℤ → Bool → Bool → SnapEdge → View → View
shown_at x y xdg_x xdg_y maximized fullscreen edge o = record o {
  x = x;
  y = y;
  xdg_x = xdg_x;
  xdg_y = xdg_y;
  maximized = maximized;
  fullscreen = fullscreen;
  snapped = edge;
}

pub occupy_view :
    (zone : Box) (edge : SnapEdge) (v : ℕ) (s : Server)
    → (occupy zone edge v s).store v
      ≡ shown_at zone.x zone.y (deco_x v s) (deco_y v s) false false edge (s.store v)
unfolding occupy show_snapped set_states raise_overlays
occupy_view zone edge v s = rw (==_refl v) refl

-- Leaving every special state goes back to the saved place.
pub unsnap_view :
    (v : ℕ) (s : Server)
    → is_special (s.store v) ≡ true
    → let geo = (s.store v).saved_geo in
      (unsnap v s).store v
      ≡ shown_at geo.x geo.y (deco_x v s) (deco_y v s) false false unsnapped (s.store v)
unfolding unsnap show_snapped set_states raise_overlays
unsnap_view v s h = rw (h, ==_refl v) refl

pub set_states_view :
    (m f : Bool) (edge : SnapEdge) (v : ℕ) (s : Server)
    → (set_states m f edge v s).store v
      ≡ record (s.store v) { maximized = m; fullscreen = f; snapped = edge }
unfolding set_states
set_states_view m f edge v s = rw (==_refl v) refl

pub restack_view : (was f : Bool) (v : ℕ) (s : Server) → (restack was f v s).store v ≡ s.store v
unfolding restack raise_overlays
restack_view was f v s = ground arith

pub restore_geometry_view :
    (v : ℕ) (s : Server)
    → let o = s.store v in
      (restore_geometry v s).store v
      ≡ record o { x = o.saved_geo.x; y = o.saved_geo.y; xdg_x = deco_x v s; xdg_y = deco_y v s }
unfolding restore_geometry
restore_geometry_view v s = rw (==_refl v) refl

-- The place that a window returns to when it leaves its special state.
pub record Place : Type 0 where
  pub x : ℤ
  pub y : ℤ

abbrev pub home : View → Place
home o =
    if is_special o
    then record { x = o.saved_geo.x; y = o.saved_geo.y }
    else record { x = o.x; y = o.y }

abbrev pub saved_place : View → Place
saved_place o = record { x = o.saved_geo.x; y = o.saved_geo.y }

pub with_saved_geometry-home :
    (o : View)
    → (saved_place (with_saved_geometry o) ≡ home o) × (home (with_saved_geometry o) ≡ home o)
unfolding with_saved_geometry
with_saved_geometry-home o = ground arith

pub fill_output_saved :
    (w : Wlroots) (out : Option ℕ) (f : Bool) (v : ℕ) (s : Server)
    → saved_place ((fill_output w out f v s).store v) ≡ saved_place (s.store v)
unfolding fill_output
fill_output_saved w out true v s = rw (==_refl v) refl
fill_output_saved w out false v s = rw (==_refl v) refl

pub unsnap_normal : (v : ℕ) (s : Server) → is_special (s.store v) ≡ false → unsnap v s ≡ s
unfolding unsnap
unsnap_normal v s h = rw h refl
