-- ===== src/Switcher/Selection.antt =====
-- The highlight of the switcher: src/switcher.cc.
use Prim.Native.Nat.{◌<◌}
use steppewm.Base.{
  ℕ, zero, suc, ◌-◌, Bool, true, false, Option, none, some, List, [], ◌∷◌, ◌≡◌, ◌≢◌, inl, inr, refl,
  subst, ap, ◌∙◌, arith, ltb, if◌then◌else◌, length, get_elem?, Option-cases,
}
use steppewm.State.{Switcher, Server}
use steppewm.Switcher.{
  index_of, erase_at, reselect, erase_entry, removed_from, view_removed, next_index, advance,
  snapshot, open_switcher, cycle,
}

-- An open switcher has an entry under its highlight.
abbrev pub IsSelecting : Switcher → Type 0
IsSelecting sw = sw.selected < length sw.views

abbrev pub IsSelecting? : Option Switcher → Type 0
IsSelecting? none = Unit
IsSelecting? (some sw) = IsSelecting sw

index_of-lt : (v : ℕ) (xs : List ℕ) (i : ℕ) → index_of v xs ≡ some i → i < length xs
unfolding index_of
index_of-lt v [] i h = ground arith
index_of-lt v (x ∷ xs) i h = ground (arith, index_of-lt v xs (i - 1))

length-erase_at : (i : ℕ) (xs : List ℕ) → i < length xs → suc (length (erase_at i xs)) ≡ length xs
unfolding erase_at
length-erase_at i [] h = elim h [ ]
length-erase_at zero (x ∷ xs) h = refl
length-erase_at (suc i) (x ∷ xs) h = ap suc (length-erase_at i xs (omega arith))

-- Erasing an entry keeps the others in order.
get_elem?-erase_at :
    (i j : ℕ) (xs : List ℕ)
    → get_elem? (erase_at i xs) j ≡ get_elem? xs (if ltb j i then j else suc j)
unfolding erase_at
get_elem?-erase_at i j [] = ground arith
get_elem?-erase_at zero j (x ∷ xs) = ground arith
get_elem?-erase_at (suc i) zero (x ∷ xs) = ground arith
get_elem?-erase_at (suc i) (suc j) (x ∷ xs) = ground (arith, get_elem?-erase_at i j xs)

-- Stepping forward and stepping back undo each other, and stay on the entries.
next_index_inverse :
    (i n : ℕ)
    → i < n
    → (next_index false i n < n)
      × (next_index true i n < n)
      × (next_index true (next_index false i n) n ≡ i)
      × (next_index false (next_index true i n) n ≡ i)
unfolding next_index
next_index_inverse i n h = grind arith

next_index-lt : (backwards : Bool) (i n : ℕ) → i < n → next_index backwards i n < n
next_index-lt true i n h = (next_index_inverse i n h).1
next_index-lt false i n h = (next_index_inverse i n h).0

index_of-get_elem? :
    (v : ℕ) (xs : List ℕ) (i : ℕ) → index_of v xs ≡ some i → get_elem? xs i ≡ some v
unfolding index_of
index_of-get_elem? v [] i h = ground arith
index_of-get_elem? v (x ∷ xs) zero h = ground arith
index_of-get_elem? v (x ∷ xs) (suc i) h = ground (arith, index_of-get_elem? v xs i)

-- After the erasure of an entry that is not highlighted the same window is highlighted.
reselect-get_elem? :
    (i selected : ℕ) (xs : List ℕ)
    → i < length xs
    → selected < length xs
    → i ≢ selected
    → let j = reselect selected i (length (erase_at i xs)) in
      (j < length (erase_at i xs)) × (get_elem? (erase_at i xs) j ≡ get_elem? xs selected)
unfolding reselect
reselect-get_elem? i selected xs hi hs ne = ground (
  arith,
  length-erase_at i xs hi,
  get_elem?-erase_at i selected xs,
  get_elem?-erase_at i (selected - 1) xs,
)

erase_entry_sw :
    (sw : Switcher) (i : ℕ) (s : Server)
    → (erase_entry sw i s).sw ≡ elim (erase_at i sw.views) [
      | [] ↦ none
      | x ∷ xs ↦
          some (record sw { views = x ∷ xs; selected = reselect sw.selected i (length (x ∷ xs)) })
    ]
unfolding erase_entry
erase_entry_sw sw i s = ground arith

-- What is left of the snapshot, highlight included.
abbrev rest : Switcher → ℕ → Switcher
rest sw i =
    let xs = erase_at i sw.views in
    record sw { views = xs; selected = reselect sw.selected i (length xs) }

erase_entry-rest :
    (sw : Switcher) (i : ℕ) (s : Server)
    → erase_at i sw.views ≢ []
    → (erase_entry sw i s).sw ≡ some (rest sw i)
erase_entry-rest sw i s h = ground (arith, erase_entry_sw sw i s)

-- A window leaves the snapshot of an open switcher while another one is highlighted: the switcher stays
-- open, and that one stays highlighted.
pub view_removed-highlight :
    (sw : Switcher) (u v : ℕ) (s : Server)
    → s.sw ≡ some sw
    → IsSelecting sw
    → get_elem? sw.views sw.selected ≡ some u
    → u ≢ v
    → (sw' : Switcher) × ((view_removed v s).sw ≡ some sw')
      × IsSelecting sw'
      × (get_elem? sw'.views sw'.selected ≡ some u)
unfolding view_removed removed_from
view_removed-highlight sw u v s e h g ne = elim (Option-cases (index_of v sw.views)) [
  | inl absent ↦ (sw, rw (e, view_removed, absent, removed_from) e, h, g)
  | inr (i, found) ↦
      let here = index_of-get_elem? v sw.views i found in
      let apart : i ≢ sw.selected = λ same. ne (ground arith) in
      let kept =
        reselect-get_elem? i sw.selected sw.views (index_of-lt v sw.views i found) h apart in
      (
        rest sw i,
        rw (e, view_removed, found, removed_from)
            (erase_entry-rest sw i s (λ empty. omega (arith, ap length empty, kept.0))),
        kept.0,
        kept.1 ∙ g,
      )
]

reselected :
    (sw : Switcher) (i : ℕ) (xs : List ℕ)
    → sw.selected < suc (length xs)
    → i < suc (length xs)
    → IsSelecting? (elim xs [
      | [] ↦ none
      | x ∷ xs ↦
          some (record sw { views = x ∷ xs; selected = reselect sw.selected i (length (x ∷ xs)) })
    ])
unfolding reselect
reselected sw i [] h k = tt
reselected sw i (x ∷ xs) h k = ground arith

removed_from-IsSelecting :
    (sw : Switcher) (v : ℕ) (s : Server)
    → s.sw ≡ some sw
    → IsSelecting sw
    → IsSelecting? (removed_from sw v s).sw
unfolding removed_from
removed_from-IsSelecting sw v s e h = elim (Option-cases (index_of v sw.views)) [
  | inl absent ↦ rw (absent, removed_from, e) h
  | inr (i, found) ↦
      let lt = index_of-lt v sw.views i found in
      let len = length-erase_at i sw.views lt in
      rw (found, removed_from, erase_entry_sw sw i s)
        (reselected sw i (erase_at i sw.views) (omega arith) (omega arith))
]

-- Whatever window goes, an open switcher keeps an entry under its highlight, or closes.
view_removed-IsSelecting :
    (v : ℕ) (s : Server) → IsSelecting? s.sw → IsSelecting? (view_removed v s).sw
unfolding view_removed
view_removed-IsSelecting v s h = elim (Option-cases s.sw) [
  | inl e ↦ rw (e, view_removed, e) tt
  | inr (sw, e) ↦ rw (e, view_removed) (removed_from-IsSelecting sw v s e (subst IsSelecting? e h))
]

open_switcher-IsSelecting :
    (xs : List ℕ) (mods : ℕ) (backwards : Bool) (s : Server)
    → s.sw ≡ none
    → IsSelecting? (open_switcher xs mods backwards s).sw
unfolding open_switcher advance
open_switcher-IsSelecting [] mods backwards s e = rw e tt
open_switcher-IsSelecting (x ∷ xs) mods backwards s e =
    next_index-lt backwards 0 (suc (length xs)) (omega arith)

cycle_closed :
    (mods : ℕ) (backwards : Bool) (s : Server)
    → s.sw ≡ none
    → cycle mods backwards s ≡ open_switcher (snapshot s) mods backwards s
unfolding cycle
cycle_closed mods backwards s e = ground arith

cycle_open :
    (mods : ℕ) (backwards : Bool) (sw : Switcher) (s : Server)
    → s.sw ≡ some sw
    → cycle mods backwards s ≡ advance backwards sw s
unfolding cycle
cycle_open mods backwards sw s e = ground arith

-- Opening the switcher or stepping it leaves an entry under the highlight.
cycle-IsSelecting :
    (mods : ℕ) (backwards : Bool) (s : Server)
    → IsSelecting? s.sw
    → IsSelecting? (cycle mods backwards s).sw
unfolding advance
cycle-IsSelecting mods backwards s h = elim (Option-cases s.sw) [
  | inl e ↦
      rw (cycle_closed mods backwards s e)
        (open_switcher-IsSelecting (snapshot s) mods backwards s e)
  | inr (sw, e) ↦
      rw (cycle_open mods backwards sw s e)
        (next_index-lt backwards sw.selected (length sw.views) (subst IsSelecting? e h))
]
