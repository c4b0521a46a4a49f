-- ===== src/Tests/Windows.antt =====
-- The theorems on focus, workspaces, the switcher and the states of windows, on the small desktop.
use steppewm.Base.{pos, true, false, none, some, List, [], ◌∷◌, ◌≡◌, ◌⊎◌, refl, arith, get_elem?}
use steppewm.Wlr.{toplevel}
use steppewm.State.{Switcher, left}
use steppewm.Switcher.{view_removed}
use steppewm.Switcher.Commit.{handle_modifiers, handle_modifiers-focus}
use steppewm.Switcher.Selection.{IsSelecting, view_removed-highlight}
use steppewm.Snap.{snap_zone}
use steppewm.View.{focus, raise_overlays}
use steppewm.View.Focus.{IsRestored, focus_lem}
use steppewm.Workspace.{workspace_switch}
use steppewm.Workspace.Visibility.{workspace_switch-focus}
use steppewm.Lifecycle.{handle_unmap}
use steppewm.Lifecycle.Pointers.{IsUnreferenced, handle_unmap-IsUnreferenced}
use steppewm.Window.{
  snap_to, snap_to_edge, snap_on, output_for, unsnap, occupy, save_geometry, with_saved_geometry,
  set_states, show_snapped, apply_state, change_geometry, fill_output, restore_geometry,
  announce_states, restack,
}
use steppewm.Window.Restore.{place, Change, snap, state, change, changes, changes-place}
use steppewm.Tests.{wlr, seat, keyboard, desk, last_focus}

focus_lem_example :
    let r = focus wlr 2 desk in
    (last_focus r.calls ≡ some (toplevel 2))
    × IsRestored (r.store 2)
    × ((r.views ≡ 2 ∷ 1 ∷ 3 ∷ [])
        ⊎ ((last_focus [] ≡ some (toplevel 2)) × (r.views ≡ 1 ∷ 2 ∷ 3 ∷ [])))
focus_lem_example = focus_lem wlr seat keyboard 2 desk refl refl

workspace_switch-focus_example :
    last_focus (workspace_switch wlr (pos 1) desk).calls ≡ some (toplevel 3)
workspace_switch-focus_example =
    workspace_switch-focus seat keyboard 1 desk (omega arith) (λ e. omega arith) refl

handle_unmap-IsUnreferenced_example : IsUnreferenced 2 (handle_unmap wlr 2 desk)
handle_unmap-IsUnreferenced_example = handle_unmap-IsUnreferenced wlr 2 desk (refl, (refl, tt))

abbrev round_trip : List Change
round_trip = snap left ∷ state true false ∷ state false false ∷ []

changes-place_example :
    place ((changes wlr 2 round_trip desk).store 2) ≡ record { x = pos 100; y = pos 50 }
unfolding changes change snap_to snap_to_edge snap_on output_for unsnap occupy save_geometry
    with_saved_geometry set_states show_snapped apply_state change_geometry fill_output
    restore_geometry announce_states restack snap_zone raise_overlays
changes-place_example = changes-place wlr 2 round_trip desk refl refl

handle_modifiers-focus_example :
    let r = handle_modifiers wlr 0 desk in (r.sw ≡ none) × (last_focus r.calls ≡ some (toplevel 2))
handle_modifiers-focus_example =
    handle_modifiers-focus wlr seat keyboard (record { views = 1 ∷ 2 ∷ []; selected = 1; mods = 8 })
      2 0 desk refl refl refl refl refl

abbrev cycling : Switcher
cycling = record { views = 1 ∷ 2 ∷ []; selected = 1; mods = 8 }

view_removed-highlight_example :
    (sw' : Switcher) × ((view_removed 1 desk).sw ≡ some sw')
    × IsSelecting sw'
    × (get_elem? sw'.views sw'.selected ≡ some 2)
view_removed-highlight_example =
    view_removed-highlight cycling 2 1 desk refl (omega arith) refl (λ e. omega arith)
