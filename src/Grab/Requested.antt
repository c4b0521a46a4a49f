-- ===== src/Grab/Requested.antt =====
-- The size that a window's client is asked for when the window takes a zone: `view::snap_to` of src/view.cc.
use steppewm.Base.{
  ℕ, pos, ◌*ℤ◌, ◌-ℤ◌, true, false, ◌&&◌, List, [], ◌∷◌, ◌≡◌, refl, ◌∙◌, if◌then◌else◌, arith,
  ==_refl,
}
use steppewm.Wlr.{Box, Call, node_raise_to_top, scene_tree, deco_set_visible, toplevel_set_size}
use steppewm.State.{View, Output, Server, SnapEdge, emit, move_window, move_content}
use steppewm.View.{raise_pinned, raise_layer, raise_output, raise_outputs, raise_overlays}
use steppewm.Window.{
  deco_x, deco_y, with_saved_geometry, save_geometry, set_states, show_snapped, occupy,
}
use steppewm.Grab.Resize.{requested_width, requested_height}

-- The last size that was asked of the window is the same.
abbrev SameSize : ℕ → List Call → List Call → Type 0
SameSize v cs ds =
    (requested_width v cs ≡ requested_width v ds) × (requested_height v cs ≡ requested_height v ds)

raise_pinned-SameSize :
    (v : ℕ) (st : ℕ → View) (vs : List ℕ) (cs : List Call) → SameSize v (raise_pinned st vs cs) cs
unfolding raise_pinned
raise_pinned-SameSize v st [] cs = (refl, refl)
raise_pinned-SameSize v st (u ∷ vs) cs =
    let cs1 =
      if (st u).pinned && (st u).mapped then node_raise_to_top (scene_tree u) ∷ cs else cs in
    let (wide, tall) = raise_pinned-SameSize v st vs cs1 in
    (wide ∙ ground arith, tall ∙ ground arith)

raise_output-SameSize : (v : ℕ) (o : Output) (cs : List Call) → SameSize v (raise_output o cs) cs
unfolding raise_output raise_layer
raise_output-SameSize v o cs = ground arith

raise_outputs-SameSize :
    (v : ℕ) (os : List Output) (cs : List Call) → SameSize v (raise_outputs os cs) cs
unfolding raise_outputs
raise_outputs-SameSize v [] cs = (refl, refl)
raise_outputs-SameSize v (o ∷ os) cs =
    let (wide, tall) = raise_outputs-SameSize v os (raise_output o cs) in
    let (wide1, tall1) = raise_output-SameSize v o cs in (wide ∙ wide1, tall ∙ tall1)

raise_overlays-SameSize : (v : ℕ) (s : Server) → SameSize v (raise_overlays s).calls s.calls
unfolding raise_overlays
raise_overlays-SameSize v s =
    let (wide, tall) = raise_outputs-SameSize v s.outputs (raise_pinned s.store s.views s.calls) in
    let (wide1, tall1) = raise_pinned-SameSize v s.store s.views s.calls in
    (wide ∙ wide1, tall ∙ tall1)

show_snapped-SameSize : (v : ℕ) (s : Server) → SameSize v (show_snapped v s).calls s.calls
unfolding show_snapped
show_snapped-SameSize v s = raise_overlays-SameSize v (emit (deco_set_visible v true) s)

-- The size that is asked for leaves room for the decoration in the zone.
pub occupy_size :
    (zone : Box) (edge : SnapEdge) (v : ℕ) (s : Server)
    → let r = occupy zone edge v s in
      (requested_width v r.calls ≡ zone.width -ℤ pos 2 *ℤ deco_x v s)
      × (requested_height v r.calls ≡ zone.height -ℤ deco_y v s -ℤ deco_x v s)
unfolding occupy set_states
occupy_size zone edge v s =
    let ox = deco_x v s in
    let oy = deco_y v s in
    let asked = toplevel_set_size v (zone.width -ℤ pos 2 *ℤ ox) (zone.height -ℤ oy -ℤ ox) in
    let s1 = move_content v ox oy (move_window v zone.x zone.y s) in
    let (wide, tall) = show_snapped-SameSize v (set_states false false edge v (emit asked s1)) in
    (wide ∙ rw (==_refl v) refl, tall ∙ rw (==_refl v) refl)

-- Saving the geometry does not change the decoration.
pub save_geometry-deco :
    (v : ℕ) (s : Server)
    → (deco_x v (save_geometry v s) ≡ deco_x v s) × (deco_y v (save_geometry v s) ≡ deco_y v s)
unfolding save_geometry with_saved_geometry
save_geometry-deco v s = rw (==_refl v) (ground arith)
