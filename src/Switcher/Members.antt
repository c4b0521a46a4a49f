-- ===== src/Switcher/Members.antt =====
-- Which windows the switcher's snapshot lists: src/switcher.cc.
use steppewm.Base.{
  ℕ, zero, suc, Bool, false, Option, none, some, List, [], ◌∷◌, ◌≡◌, refl, subst, arith, elem,
  Distinct, Option-cases, inl, inr,
}
use steppewm.State.{Switcher, Server}
use steppewm.Switcher.{index_of, erase_at, erase_entry, removed_from, view_removed}

-- The window stands in the snapshot of an open switcher.
abbrev pub listed : Option Switcher → ℕ → Bool
listed none v = false
listed (some sw) v = elem v sw.views

-- The snapshot holds no window twice.
abbrev pub IsDistinct : Option Switcher → Type 0
IsDistinct none = Unit
IsDistinct (some sw) = Distinct sw.views

index_of-elem : (v : ℕ) (xs : List ℕ) → index_of v xs ≡ none → elem v xs ≡ false
unfolding index_of
index_of-elem v [] h = refl
index_of-elem v (x ∷ xs) h = ground (arith, index_of-elem v xs)

elem-erase_at :
    (v i : ℕ) (xs : List ℕ) → Distinct xs → index_of v xs ≡ some i → elem v (erase_at i xs) ≡ false
unfolding index_of erase_at
elem-erase_at v i [] d h = refl
elem-erase_at v zero (x ∷ xs) d h = ground (arith, d.0)
elem-erase_at v (suc i) (x ∷ xs) d h = ground (arith, elem-erase_at v i xs d.1)

-- The rest of the server is as before, but for the calls.
pub view_removed_keeps :
    (v : ℕ) (s : Server) → let r = view_removed v s in r ≡ record s { sw = r.sw; calls = r.calls }
unfolding view_removed removed_from erase_entry
view_removed_keeps v s = ground arith

listed-erased :
    (sw : Switcher) (i v : ℕ) (s : Server)
    → elem v (erase_at i sw.views) ≡ false
    → listed (erase_entry sw i s).sw v ≡ false
unfolding erase_entry
listed-erased sw i v s h = ground arith

removed_from-listed :
    (sw : Switcher) (v : ℕ) (s : Server)
    → s.sw ≡ some sw
    → Distinct sw.views
    → listed (removed_from sw v s).sw v ≡ false
unfolding removed_from
removed_from-listed sw v s e d = elim (Option-cases (index_of v sw.views)) [
  | inl absent ↦ rw (absent, removed_from, e) (index_of-elem v sw.views absent)
  | inr (i, found) ↦
      rw (found, removed_from) (listed-erased sw i v s (elem-erase_at v i sw.views d found))
]

pub view_removed-listed :
    (v : ℕ) (s : Server) → IsDistinct s.sw → listed (view_removed v s).sw v ≡ false
unfolding view_removed
view_removed-listed v s d = elim (Option-cases s.sw) [
  | inl e ↦ rw (e, view_removed, e) refl
  | inr (sw, e) ↦ rw (e, view_removed) (removed_from-listed sw v s e (subst IsDistinct e d))
]
