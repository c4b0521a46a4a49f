-- ===== src/Grab/Drop.antt =====
-- Dropping a dragged window at an edge of an output: the release of a button in
-- `server::on_cursor_button`, and `detect_snap`, of src/input.cc.
use steppewm.Base.{
  ℕ, pos, ◌+ℤ◌, ◌-ℤ◌, ◌*ℤ◌, leb_ℤ, Bool, true, false, Option, none, some, ◌≡◌, ◌≢◌, refl, sym, ap,
  ◌∙◌, subst, arith, Option-cases, Bool-cases, inl, inr,
}
use steppewm.Wlr.{Box, Wlroots, node_set_enabled, snap_indicator}
use steppewm.Wlr.Layout.{IsLayout}
use steppewm.State.{View, Server, move, SnapEdge, unsnapped}
use steppewm.Output.{usable_area, taskbar_height}
use steppewm.Snap.{no_snap, SnapDetect, pixels, detect_snap, snap_for, snap_zone}
use steppewm.Snap.Zones.{snap_for-snap_zone}
use steppewm.Lifecycle.{release_grab}
use steppewm.Window.{
  deco_x, deco_y, is_snapped, snap_to, snap_to_edge, snap_on, output_for, occupy, save_geometry,
}
use steppewm.Window.Geometry.{occupy_view}
use steppewm.Grab.Resize.{requested_width, requested_height}
use steppewm.Grab.Requested.{occupy_size, save_geometry-deco}
use steppewm.Grab.{hide_snap_indicator, snap_dropped, drop_window, release_button}

-- The server after a button went up, before the window is dropped.
abbrev pub released : Server → Server
released s = hide_snap_indicator (record s { grab = release_grab s.grab })

is_snapped-edge : (edge : SnapEdge) → is_snapped edge ≡ true → edge ≢ unsnapped
is_snapped-edge edge h = ground arith

module _ (w : Wlroots) where
  output_for-cursor :
      (out v : ℕ) (s : Server)
      → w.output_at s.calls s.cursor_x s.cursor_y ≡ some out
      → output_for w v s ≡ some out
  unfolding output_for
  output_for-cursor out v s h = rw (h, output_for) refl

  snap_on-zone :
      (edge : SnapEdge) (out v : ℕ) (zone : Box) (s : Server)
      → snap_zone edge (usable_area w s (some out)) ≡ some zone
      → snap_on w (some out) edge v s ≡ occupy zone edge v s
  unfolding snap_on
  snap_on-zone edge out v zone s z = rw (z, snap_on) refl

  -- Saving the geometry moves no output.
  usable_area-saved :
      (out : Option ℕ) (v : ℕ) (s : Server)
      → usable_area w (save_geometry v s) out ≡ usable_area w s out
  unfolding usable_area taskbar_height save_geometry
  usable_area-saved out v s = refl

  snap_to_edge-zone :
      (edge : SnapEdge) (out v : ℕ) (zone : Box) (s : Server)
      → w.output_at s.calls s.cursor_x s.cursor_y ≡ some out
      → snap_zone edge (usable_area w s (some out)) ≡ some zone
      → snap_to_edge w edge v s ≡ occupy zone edge v (save_geometry v s)
  unfolding snap_to_edge save_geometry
  snap_to_edge-zone edge out v zone s at z =
      let s1 = save_geometry v s in
      rw (output_for-cursor out v s1 at) (
        snap_on-zone edge out v zone s1
          (ap (snap_zone edge) (usable_area-saved (some out) v s) ∙ z))

  snap_to-zone :
      (edge : SnapEdge) (out v : ℕ) (zone : Box) (s : Server)
      → (s.store v).initialized ≡ true
      → is_snapped edge ≡ true
      → w.output_at s.calls s.cursor_x s.cursor_y ≡ some out
      → snap_zone edge (usable_area w s (some out)) ≡ some zone
      → snap_to w edge v s ≡ occupy zone edge v (save_geometry v s)
  unfolding snap_to
  snap_to-zone edge out v zone s i e at z = ground (arith, snap_to_edge-zone edge out v zone s at z)

  -- What `detect_snap` finds on an output.
  abbrev on_output : ℕ → Server → SnapDetect
  on_output out s =
      let ob = w.get_box s.calls (some out) in
      snap_for (leb_ℤ s.cursor_x (pixels (ob.x +ℤ pos 1)))
        (leb_ℤ (pixels (ob.x +ℤ ob.width -ℤ pos 2)) s.cursor_x)
        (leb_ℤ s.cursor_y (pixels (ob.y +ℤ pos 1)))
        (leb_ℤ (pixels (ob.y +ℤ ob.height -ℤ pos 2)) s.cursor_y) (usable_area w s (some out))

  detect_snap-some :
      (out : ℕ) (s : Server)
      → w.output_at s.calls s.cursor_x s.cursor_y ≡ some out
      → detect_snap w s ≡ on_output out s
  unfolding detect_snap
  detect_snap-some out s e = rw (e, detect_snap) refl

  detect_snap-none :
      (s : Server) → w.output_at s.calls s.cursor_x s.cursor_y ≡ none → detect_snap w s ≡ no_snap
  unfolding detect_snap
  detect_snap-none s e = rw (e, detect_snap) refl

  snap_for-edge :
      (l r t b : Bool) (ua : Box)
      → is_snapped (snap_for l r t b ua).edge ≡ true
      → (snap_zone (snap_for l r t b ua).edge ua ≡ some (snap_for l r t b ua).zone)
        × ((snap_for l r t b ua).maximize ≡ false)
  snap_for-edge l r t b ua h =
      let d = snap_for l r t b ua in
      let facts = snap_for-snap_zone l r t b ua in
      let ne = is_snapped-edge d.edge h in
      (
        facts.0 ne,
        elim (Bool-cases d.maximize) [ inl e ↦ ground (arith, facts.1 e, ne) | inr e ↦ e ],
      )

  -- What a preview of an edge tells: the output that it is on, and the edge's zone of it.
  detected :
      (s : Server)
      → is_snapped (detect_snap w s).edge ≡ true
      → (out : ℕ) × (w.output_at s.calls s.cursor_x s.cursor_y ≡ some out)
        × (snap_zone (detect_snap w s).edge (usable_area w s (some out))
            ≡ some (detect_snap w s).zone)
        × ((detect_snap w s).maximize ≡ false)
  detected s h = elim (Option-cases (w.output_at s.calls s.cursor_x s.cursor_y)) [
    | inl e ↦
        ground
          (arith, subst (λ (d : SnapDetect). is_snapped d.edge ≡ true) (detect_snap-none s e) h)
    | inr (out, e) ↦
        let same = detect_snap-some out s e in
        let facts =
          snap_for-edge _ _ _ _ (usable_area w s (some out))
            (subst (λ (d : SnapDetect). is_snapped d.edge ≡ true) same h) in
        let back =
          subst
            (λ (d : SnapDetect).
              (snap_zone d.edge (usable_area w s (some out)) ≡ some d.zone) × (d.maximize ≡ false))
            (sym same) facts in
        (out, e, back.0, back.1)
  ]

  usable_area-released :
      IsLayout w
      → (s : Server) (out : Option ℕ) → usable_area w (released s) out ≡ usable_area w s out
  unfolding usable_area taskbar_height hide_snap_indicator
  usable_area-released layout s out =
      rw (layout.get_box-call (node_set_enabled snap_indicator false) s.calls out) refl

  on_output-released :
      IsLayout w → (out : ℕ) (s : Server) → on_output out (released s) ≡ on_output out s
  unfolding hide_snap_indicator
  on_output-released layout out s =
      rw
        (
          usable_area-released layout s (some out),
          layout.get_box-call (node_set_enabled snap_indicator false) s.calls (some out),
        )
        refl

  output_at-released :
      IsLayout w
      → (s : Server)
      → w.output_at (released s).calls (released s).cursor_x (released s).cursor_y
        ≡ w.output_at s.calls s.cursor_x s.cursor_y
  unfolding hide_snap_indicator
  output_at-released layout s =
      layout.output_at-call (node_set_enabled snap_indicator false) s.calls s.cursor_x s.cursor_y

  pub detect_snap-released :
      IsLayout w → (s : Server) → detect_snap w (released s) ≡ detect_snap w s
  detect_snap-released layout s =
      let at = output_at-released layout s in
      elim (Option-cases (w.output_at s.calls s.cursor_x s.cursor_y)) [
        | inl e ↦ detect_snap-none (released s) (at ∙ e) ∙ sym (detect_snap-none s e)
        | inr (out, e) ↦
            detect_snap-some out (released s) (at ∙ e)
            ∙ on_output-released layout out s
            ∙ sym (detect_snap-some out s e)
      ]

  drop_snaps :
      (v : ℕ) (s : Server)
      → s.grab.mode ≡ move
      → s.grab.grabbed_view ≡ some v
      → (s.store v).mapped ≡ true
      → (detect_snap w (released s)).maximize ≡ false
      → is_snapped (detect_snap w (released s)).edge ≡ true
      → release_button w s ≡ snap_to w (detect_snap w (released s)).edge v (released s)
  unfolding release_button drop_window snap_dropped hide_snap_indicator
  drop_snaps v s m g mapped still e = rw (m, g, drop_window) (ground arith)

  -- Dropping a mapped and initialized window that is being moved, where the preview shows an edge: its
  -- corner is the corner of the zone that `detect_snap` finds at the cursor, its state is that edge, and
  -- its client is asked for the size of the zone, less a border at both sides and the title bar and a
  -- border above and below if the server decorates it. The calls do not change the output layout.
  pub release_button-zone :
      (v : ℕ) (s : Server)
      → IsLayout w
      → s.grab.mode ≡ move
      → s.grab.grabbed_view ≡ some v
      → (s.store v).mapped ≡ true
      → (s.store v).initialized ≡ true
      → is_snapped (detect_snap w s).edge ≡ true
      → let d = detect_snap w s in
        let r = release_button w s in
        let o = r.store v in
        (o.x ≡ d.zone.x)
        × (o.y ≡ d.zone.y)
        × (o.snapped ≡ d.edge)
        × (requested_width v r.calls ≡ d.zone.width -ℤ pos 2 *ℤ deco_x v s)
        × (requested_height v r.calls ≡ d.zone.height -ℤ deco_y v s -ℤ deco_x v s)
  unfolding hide_snap_indicator
  release_button-zone v s layout m g mapped i e =
      let s0 = released s in
      let same = detect_snap-released layout s in
      let e0 = ap (λ (d : SnapDetect). is_snapped d.edge) same ∙ e in
      let (out, at, z, still) = detected s0 e0 in
      let d = detect_snap w s0 in
      let dropped =
        drop_snaps v s m g mapped still e0 ∙ snap_to-zone d.edge out v d.zone s0 i e0 at z in
      let shown =
        ap (λ (r : Server). r.store v) dropped ∙ occupy_view d.zone d.edge v (save_geometry v s0) in
      let size = occupy_size d.zone d.edge v (save_geometry v s0) in
      let (across, down) = save_geometry-deco v s0 in
      (
        ap (λ (o : View). o.x) shown ∙ ap (λ (d : SnapDetect). d.zone.x) same,
        ap (λ (o : View). o.y) shown ∙ ap (λ (d : SnapDetect). d.zone.y) same,
        ap (λ (o : View). o.snapped) shown ∙ ap (λ (d : SnapDetect). d.edge) same,
        ap (λ (r : Server). requested_width v r.calls) dropped
            ∙ size.0
            ∙ ap (λ n. d.zone.width -ℤ pos 2 *ℤ n) across
            ∙ ap (λ (d : SnapDetect). d.zone.width -ℤ pos 2 *ℤ deco_x v s) same,
        ap (λ (r : Server). requested_height v r.calls) dropped
            ∙ size.1
            ∙ rw (across, down)
                (ap (λ (d : SnapDetect). d.zone.height -ℤ deco_y v s -ℤ deco_x v s) same),
      )
