-- ===== src/Scene/Grips.antt =====
-- Which parts of a decoration the pointer finds: `view::deco_at` against the parts that `view::deco_create` makes and
-- the edges that they drag (src/deco.cc).
use steppewm.Base.{ℕ, Bool, true, false, ◌||◌, none, some, ◌≡◌, arith, if◌then◌else◌}
use steppewm.State.{View, DecoMode}
use steppewm.Deco.{DecoNode, border_left, border_right, border_bottom}
use steppewm.Scene.{NodeKind, kind_of, Hit, is_themed, is_rect, owner_of, part_at, deco_at}

-- The parts that stand beside or below the window and drag one edge of it.
abbrev pub is_side : DecoNode → Bool
is_side border_left = true
is_side border_right = true
is_side border_bottom = true
is_side _ = false

side-is_buffer :
    (p : DecoNode) (k : NodeKind)
    → kind_of p ≡ some k
    → is_side p ≡ true
    → (is_rect k || is_themed p) ≡ false
unfolding kind_of is_themed
side-is_buffer border_left k e s = ground arith
side-is_buffer border_right k e s = ground arith
side-is_buffer border_bottom k e s = ground arith
side-is_buffer _ k e s = ground arith

part-kept :
    (p : DecoNode) (k : NodeKind)
    → kind_of p ≡ some k
    → is_side p ≡ false
    → (is_rect k || is_themed p) ≡ true
unfolding kind_of is_themed
part-kept _ k e s = ground arith

module _ (st : ℕ → View) (has_titlebar : ℕ → Bool) where
  -- On a window with a decoration of the server's, a hit on one of the parts that `deco_create` makes is found
  -- unless it is the border at the left, at the right or at the bottom: those three are buffers, for which
  -- `deco_at` has no case, so that no press on them reaches `deco_handle_button`.
  pub deco_at-parts :
      (h : Hit) (v : ℕ)
      → kind_of h.part ≡ some h.kind
      → owner_of h.ancestors ≡ some v
      → (st v).decoration_mode ≡ DecoMode.server
      → has_titlebar v ≡ true
      → deco_at st has_titlebar (some h) ≡ (if is_side h.part then none else some (v, h.part))
  unfolding deco_at part_at
  deco_at-parts h v kind owner mode titled =
      rw (owner, part_at, mode, titled)
        (ground (arith, side-is_buffer h.part h.kind kind, part-kept h.part h.kind kind))
