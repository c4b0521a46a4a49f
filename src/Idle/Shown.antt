-- ===== src/Idle/Shown.antt =====
-- When a window's inhibitor counts, compared with when the window is shown.
use steppewm.Base.{
  ℕ, Bool, true, false, not, ◌&&◌, ◌||◌, Option, List, [], ◌∷◌, ◌≡◌, refl, arith, ◌==◌, any,
  points_to,
}
use steppewm.Wlr.{set_inhibited, toplevel}
use steppewm.State.{Inhibitor, Server, is_shown}
use steppewm.Idle.{window_visible, surface_visible, visible, inhibited, update_idle}

-- The inhibitors that count for `update`: visible, and not the one that is going away.
abbrev pub counts : Server → Option ℕ → Inhibitor → Bool
counts s exclude i = not (points_to exclude i.address) && visible s i

inhibited-any :
    (s : Server) (exclude : Option ℕ) (is : List Inhibitor)
    → inhibited s exclude is ≡ any (counts s exclude) is
unfolding inhibited
inhibited-any s exclude [] = refl
inhibited-any s exclude (i ∷ is) = ground (arith, inhibited-any s exclude is)

-- The inhibitor of a mapped surface of a mapped window that is not pinned counts exactly when the
-- window is shown. That of a pinned window counts only on the window's own workspace, though the window
-- is shown on every one.
pub visible-is_shown :
    (s : Server) (i : Inhibitor) (v : ℕ)
    → i.surface ≡ toplevel v
    → i.surface_mapped ≡ true
    → (s.store v).has_data ≡ true
    → (s.store v).mapped ≡ true
    → ((s.store v).pinned ≡ false → visible s i ≡ is_shown (s.store v) s.current_workspace)
      × ((s.store v).pinned ≡ true
          → visible s i
            ≡ is_shown (s.store v) s.current_workspace
              && (s.store v).workspace == s.current_workspace)
unfolding visible surface_visible window_visible
visible-is_shown s i v e m d p = rw (e, visible) (ground arith)

-- `update` reports what the inhibitors say together with the manual switch.
pub update_idle_reports :
    (s : Server) (exclude : Option ℕ)
    → update_idle exclude s ≡ record s {
      calls =
          set_inhibited (any (counts s exclude) s.inhibitors || s.idle_inhibit_manual) ∷ s.calls;
    }
unfolding update_idle
update_idle_reports s exclude = rw (inhibited-any s exclude s.inhibitors) refl
