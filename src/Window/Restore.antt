-- ===== src/Window/Restore.antt =====
-- The place that a window had before it was snapped, maximized or fullscreen: src/view.cc.
use steppewm.Base.{
  ℕ, Bool, true, false, ◌||◌, Option, none, some, List, [], ◌∷◌, ◌≡◌, refl, sym, ap, ◌∙◌, arith,
  Bool-cases, Option-cases, inl, inr, if◌then◌else◌,
}
use steppewm.Wlr.{Box, Wlroots}
use steppewm.State.{View, Server, SnapEdge, unsnapped}
use steppewm.Output.{usable_area}
use steppewm.Snap.{snap_zone}
use steppewm.Window.{
  is_special, is_snapped, save_geometry, set_states, unsnap, occupy, announce_states, output_for,
  snap_on, snap_to_edge, snap_to, restore_geometry, change_geometry, apply_state,
}
use steppewm.Window.Geometry.{
  Place, home, saved_place, save_geometry_view, with_saved_geometry-home, occupy_view, unsnap_view,
  unsnap_normal, set_states_view, restack_view, restore_geometry_view, fill_output_saved,
}

abbrev home_of : ℕ → Server → Place
home_of v s = home (s.store v)

unsnap-home : (v : ℕ) (s : Server) → home_of v (unsnap v s) ≡ home_of v s
unsnap-home v s = elim (Bool-cases (is_special (s.store v))) [
  | inl e ↦ rw (unsnap_view v s e, e) refl
  | inr e ↦ rw (unsnap_normal v s e) refl
]

occupy-home :
    (zone : Box) (edge : SnapEdge) (v : ℕ) (s : Server)
    → is_snapped edge ≡ true
    → home_of v (occupy zone edge v s) ≡ saved_place (s.store v)
occupy-home zone edge v s e = rw (occupy_view zone edge v s, e) refl

home-set_states :
    (m f : Bool) (v : ℕ) (s : Server)
    → m || f ≡ true
    → home_of v (set_states m f unsnapped v s) ≡ saved_place (s.store v)
home-set_states m f v s h = rw (set_states_view m f unsnapped v s) (ground arith)

abbrev pub place : View → Place
place o = record { x = o.x; y = o.y }

normal_place : (o : View) → is_special o ≡ false → place o ≡ home o
normal_place o h = rw h refl

home-set_states_normal :
    (m f : Bool) (v : ℕ) (s : Server)
    → m || f ≡ false
    → home_of v (set_states m f unsnapped v s) ≡ place (s.store v)
home-set_states_normal m f v s h = rw (set_states_view m f unsnapped v s) (ground arith)

restored-place :
    (v : ℕ) (s : Server)
    → place ((if is_special (s.store v) then restore_geometry v s else s).store v) ≡ home_of v s
restored-place v s = elim (Bool-cases (is_special (s.store v))) [
  | inl e ↦ rw e (ap place (restore_geometry_view v s))
  | inr e ↦ rw e refl
]

-- A change of state, by a key, a button, the client or another program.
pub data Change : Type 0 where
  snap : SnapEdge → Change
  state : Bool → Bool → Change

module _ (w : Wlroots) where
  snap_on-home :
      (out : Option ℕ) (edge : SnapEdge) (v : ℕ) (s : Server)
      → is_snapped edge ≡ true
      → saved_place (s.store v) ≡ home_of v s
      → home_of v (snap_on w out edge v s) ≡ home_of v s
  unfolding snap_on
  snap_on-home none edge v s e h = refl
  snap_on-home (some out) edge v s e h =
      elim (Option-cases (snap_zone edge (usable_area w s (some out)))) [
        | inl z ↦ rw (z, snap_on) refl
        | inr (zone, z) ↦ rw (z, snap_on) (occupy-home zone edge v s e ∙ h)
      ]

  snap_to_edge-home :
      (edge : SnapEdge) (v : ℕ) (s : Server)
      → is_snapped edge ≡ true
      → home_of v (snap_to_edge w edge v s) ≡ home_of v s
  unfolding snap_to_edge
  snap_to_edge-home edge v s e =
      let s1 = save_geometry v s in
      let (saved, kept) = with_saved_geometry-home (s.store v) in
      let view = save_geometry_view v s in
      let same : home_of v s1 ≡ home_of v s = ap home view ∙ kept in
      snap_on-home (output_for w v s1) edge v s1 e (ap saved_place view ∙ saved ∙ sym same) ∙ same

  -- `view::snap_to` keeps the window's home, on every edge and branch.
  pub snap_to-home :
      (edge : SnapEdge) (v : ℕ) (s : Server) → home_of v (snap_to w edge v s) ≡ home_of v s
  unfolding snap_to
  snap_to-home edge v s = ground (arith, snap_to_edge-home edge v s, unsnap-home v s)

  change_geometry-home :
      (m f : Bool) (v : ℕ) (s : Server)
      → home_of v (set_states m f unsnapped v (change_geometry w m f v s)) ≡ home_of v s
  unfolding change_geometry
  change_geometry-home m f v s = elim (Bool-cases (m || f)) [
    | inl e ↦
        let s1 = save_geometry v s in
        rw (e, change_geometry)
          (home-set_states m f v _ e
            ∙ fill_output_saved w (output_for w v s1) f v s1
            ∙ ap saved_place (save_geometry_view v s)
            ∙ (with_saved_geometry-home (s.store v)).0)
    | inr e ↦ rw (e, change_geometry) (home-set_states_normal m f v _ e ∙ restored-place v s)
  ]

  announce_states_store :
      (m f : Bool) (v : ℕ) (s : Server) → (announce_states m f v s).store ≡ s.store
  unfolding announce_states
  announce_states_store m f v s = refl

  -- `view::apply_state` keeps the window's home, whichever state is entered or left.
  pub apply_state-home :
      (m f : Bool) (v : ℕ) (s : Server) → home_of v (apply_state w m f v s) ≡ home_of v s
  unfolding apply_state
  apply_state-home m f v s =
      let s1 = set_states m f unsnapped v (change_geometry w m f v s) in
      ground (
        arith,
        restack_view (s.store v).fullscreen f v (announce_states m f v s1),
        announce_states_store m f v s1,
        change_geometry-home m f v s,
      )

  unfoldable pub change : ℕ → Change → Server → Server
  change v (snap edge) s = snap_to w edge v s
  change v (state m f) s = apply_state w m f v s

  unfoldable pub changes : ℕ → List Change → Server → Server
  changes v [] s = s
  changes v (c ∷ cs) s = changes v cs (change v c s)

  change-home : (v : ℕ) (c : Change) (s : Server) → home_of v (change v c s) ≡ home_of v s
  unfolding change
  change-home v (snap edge) s = snap_to-home edge v s
  change-home v (state m f) s = apply_state-home m f v s

  changes-home : (v : ℕ) (cs : List Change) (s : Server) → home_of v (changes v cs s) ≡ home_of v s
  unfolding changes
  changes-home v [] s = refl
  changes-home v (c ∷ cs) s = changes-home v cs (change v c s) ∙ change-home v c s

  -- Whatever states a window went through, once it is neither maximized nor fullscreen nor snapped it
  -- stands where it stood before the first of them.
  pub changes-place :
      (v : ℕ) (cs : List Change) (s : Server)
      → is_special (s.store v) ≡ false
      → is_special ((changes v cs s).store v) ≡ false
      → place ((changes v cs s).store v) ≡ place (s.store v)
  changes-place v cs s normal back =
      normal_place ((changes v cs s).store v) back
      ∙ changes-home v cs s
      ∙ sym (normal_place (s.store v) normal)
