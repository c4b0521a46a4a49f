-- ===== src/Grab/Resize.antt =====
-- Resizing with the pointer: the sizes and the edges that `process_cursor_resize` of src/input.cc asks for.
use steppewm.Base.{
  ℕ, ℤ, pos, ◌+ℤ◌, ◌-ℤ◌, ◌<ℤ◌, +ℤ_parts, -ℤ_parts, int_laws, Bool, true, false, List, [], ◌∷◌, ◌==◌,
  ◌≡◌, refl, ◌∙◌, arith, if◌then◌else◌, ==_refl,
}
use steppewm.Wlr.{Call, toplevel_set_size}
use steppewm.State.{Server}
use steppewm.Snap.{edge_top, edge_bottom, edge_left, edge_right}
use steppewm.Window.{deco_x, deco_y}
use steppewm.Grab.{
  has_edge, to_pixels, span, drag_low, drag_high, drag_span, resized_across, resized_down,
  process_cursor_resize,
}

-- However far the pointer goes, the span is not empty, the end that is not dragged stays, and the one that is
-- dragged goes to the border unless the other end is in the way.
drag_span_lem :
    (low high : Bool) (border x n : ℤ)
    → pos 0 <ℤ n
    → let r = drag_span low high border (span x n) in
      (r.low <ℤ r.high)
      × (low ≡ true → r.high ≡ x +ℤ n)
      × (low ≡ false → r.low ≡ x)
      × (low ≡ false → high ≡ false → r.high ≡ x +ℤ n)
      × (low ≡ true → border <ℤ (x +ℤ n) → r.low ≡ border)
      × (low ≡ false → high ≡ true → x <ℤ border → r.high ≡ border)
unfolding drag_span drag_low drag_high
drag_span_lem low high border x n h =
    ground (arith, +ℤ_parts x n, -ℤ_parts (x +ℤ n) (pos 1), +ℤ_parts x (pos 1))

-- The content's left and top edges as the request leaves them: the window's position, its decoration
-- and the client's own offset.
abbrev pub content_left : ℕ → Server → ℤ
content_left v s = (s.store v).x +ℤ deco_x v s +ℤ (s.store v).geometry.x

abbrev pub content_top : ℕ → Server → ℤ
content_top v s = (s.store v).y +ℤ deco_y v s +ℤ (s.store v).geometry.y

back : (a b c : ℤ) → a -ℤ b -ℤ c +ℤ b +ℤ c ≡ a
back a b c = omega int_laws

there_and_back : (a b : ℤ) → a +ℤ (b -ℤ a) ≡ b
there_and_back a b = omega int_laws

positive : (a b : ℤ) → a <ℤ b → pos 0 <ℤ b -ℤ a
positive a b h = omega (int_laws)

-- The size that was last asked of the window's client.
abbrev pub requested_width : ℕ → List Call → ℤ
requested_width v (toplevel_set_size u a b ∷ cs) = if u == v then a else requested_width v cs
requested_width v (_ ∷ cs) = requested_width v cs
requested_width v [] = pos 0

abbrev pub requested_height : ℕ → List Call → ℤ
requested_height v (toplevel_set_size u a b ∷ cs) = if u == v then b else requested_height v cs
requested_height v (_ ∷ cs) = requested_height v cs
requested_height v [] = pos 0

process_cursor_resize_state :
    (v : ℕ) (s : Server)
    → let r = process_cursor_resize v s in
      let across = resized_across s in
      let down = resized_down s in
      (content_left v r ≡ across.low)
      × (content_top v r ≡ down.low)
      × (requested_width v r.calls ≡ across.high -ℤ across.low)
      × (requested_height v r.calls ≡ down.high -ℤ down.low)
unfolding process_cursor_resize
process_cursor_resize_state v s =
    let o = s.store v in
    rw (==_refl v) (
      back (resized_across s).low (deco_x v s) o.geometry.x,
      back (resized_down s).low (deco_y v s) o.geometry.y,
      refl,
      refl,
    )

-- One axis of a resize: the requested size is positive, an end that is not dragged stays, the far end also
-- when the near one is dragged, and the dragged end is at the border unless it would pass the other one.
abbrev pub IsResized : (low high : Bool) (border x n at size : ℤ) → Type 0
IsResized low high border x n at size =
    (pos 0 <ℤ size)
    × (low ≡ true → at +ℤ size ≡ x +ℤ n)
    × (low ≡ false → at ≡ x)
    × (low ≡ false → high ≡ false → at +ℤ size ≡ x +ℤ n)
    × (low ≡ true → border <ℤ (x +ℤ n) → at ≡ border)
    × (low ≡ false → high ≡ true → x <ℤ border → at +ℤ size ≡ border)

axis-IsResized :
    (low high : Bool) (border x n : ℤ)
    → pos 0 <ℤ n
    → let r = drag_span low high border (span x n) in
      IsResized low high border x n r.low (r.high -ℤ r.low)
axis-IsResized low high border x n h =
    let r = drag_span low high border (span x n) in
    let (some_room, far, near, still, low_end, high_end) = drag_span_lem low high border x n h in
    let whole = there_and_back r.low r.high in
    (
      positive r.low r.high some_room,
      (λ l. whole ∙ far l),
      near,
      (λ l k. whole ∙ still l k),
      low_end,
      (λ l k b. whole ∙ high_end l k b),
    )

-- A resize by the pointer, of a window that was not empty when it began: wherever the pointer is, the
-- size asked of the client is positive on both axes. On each axis an edge that is not dragged stays where
-- it was; the dragged edge goes to where the pointer takes it, unless it would pass the other one.
pub process_cursor_resize-IsResized :
    (v : ℕ) (s : Server)
    → pos 0 <ℤ s.grab.geobox.width
    → pos 0 <ℤ s.grab.geobox.height
    → let r = process_cursor_resize v s in
      let g = s.grab in
      IsResized
        (has_edge g.resize_edges edge_left)
        (has_edge g.resize_edges edge_right)
        (to_pixels (s.cursor_x -ℤ g.grab_x))
        g.geobox.x
        g.geobox.width
        (content_left v r)
        (requested_width v r.calls)
      × IsResized
          (has_edge g.resize_edges edge_top)
          (has_edge g.resize_edges edge_bottom)
          (to_pixels (s.cursor_y -ℤ g.grab_y))
          g.geobox.y
          g.geobox.height
          (content_top v r)
          (requested_height v r.calls)
unfolding resized_across resized_down
process_cursor_resize-IsResized v s hw hh =
    let g = s.grab in
    let e = process_cursor_resize_state v s in
    rw (e.0, e.1, e.2, e.3)
      (
        axis-IsResized (has_edge g.resize_edges edge_left) (has_edge g.resize_edges edge_right)
            (to_pixels (s.cursor_x -ℤ g.grab_x)) g.geobox.x g.geobox.width hw,
        axis-IsResized (has_edge g.resize_edges edge_top) (has_edge g.resize_edges edge_bottom)
            (to_pixels (s.cursor_y -ℤ g.grab_y)) g.geobox.y g.geobox.height hh,
      )
