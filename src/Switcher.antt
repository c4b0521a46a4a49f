-- ===== src/Switcher.antt =====
-- The Alt-Tab switcher: src/switcher.cc. `sw` is the overlay, null when it is closed; the snapshot
-- `views` of the windows is fixed when it opens, and `selected` is an index into it. Rendering is the
-- call `render_switcher`.
pub mod Panel
pub mod Rows
pub mod Members
pub mod Commit
pub mod Selection
use steppewm.Base.{
  ℕ, zero, suc, ◌+◌, ◌-◌, ◌%◌, Bool, true, false, ◌&&◌, Option, none, some, List, [], ◌∷◌, ◌==◌,
  ltb, leb, if◌then◌else◌, length, filter,
}
use steppewm.Wlr.{node_destroy, node_raise_to_top, switcher_tree, render_switcher}
use steppewm.State.{Switcher, Server, View, emit}

-- `~switcher`, on `delete`: the overlay goes and the pointer to it is cleared.
abbrev pub close : Server → Server
close s = emit (node_destroy switcher_tree) (record s { sw = none })

-- `switcher::cancel`; `delete` of a null pointer does nothing.
unfoldable pub cancel : Server → Server
cancel s = elim s.sw [ none ↦ s | some _ ↦ close s ]

-- The index of the first entry that is `v`.
unfoldable pub index_of : ℕ → List ℕ → Option ℕ
index_of v [] = none
index_of v (x ∷ xs) =
    if x == v then some 0 else elim (index_of v xs) [ none ↦ none | some i ↦ some (suc i) ]

-- `views_.erase(views_.begin() + i)`.
unfoldable pub erase_at : ℕ → List ℕ → List ℕ
erase_at i [] = []
erase_at zero (x ∷ xs) = xs
erase_at (suc i) (x ∷ xs) = x ∷ erase_at i xs

-- The highlight after entry `i` was erased and `n` entries are left.
unfoldable pub reselect : ℕ → ℕ → ℕ → ℕ
reselect selected i n =
    if ltb i selected then selected - 1 else if leb n selected then n - 1 else selected

-- The rest of `switcher::view_removed` once entry `i` is found.
unfoldable pub erase_entry : Switcher → ℕ → Server → Server
erase_entry sw i s = elim (erase_at i sw.views) [
  | [] ↦ close s
  | x ∷ xs ↦ emit render_switcher (record s {
    sw = some (record sw { views = x ∷ xs; selected = reselect sw.selected i (length (x ∷ xs)) });
  })
]

unfoldable pub removed_from : Switcher → ℕ → Server → Server
removed_from sw v s = elim (index_of v sw.views) [ none ↦ s | some i ↦ erase_entry sw i s ]

-- `switcher::view_removed`.
unfoldable pub view_removed : ℕ → Server → Server
view_removed v s = elim s.sw [ none ↦ s | some sw ↦ removed_from sw v s ]

-- The index arithmetic of `switcher::advance`.
unfoldable pub next_index : Bool → ℕ → ℕ → ℕ
next_index backwards selected count =
    if backwards then (selected + count - 1) % count else (selected + 1) % count

-- `switcher::advance`.
unfoldable pub advance : Bool → Switcher → Server → Server
advance backwards sw s = emit render_switcher (record s {
  sw = some (record sw { selected = next_index backwards sw.selected (length sw.views) });
})

-- The windows that the switcher offers: the mapped ones of the current workspace.
abbrev pub is_listed : Server → ℕ → Bool
is_listed s v = (s.store v).mapped && (s.store v).workspace == s.current_workspace

unfoldable pub snapshot : Server → List ℕ
snapshot s = filter (is_listed s) s.views

-- `new switcher`, and the first step: nothing opens when no window is listed.
unfoldable pub open_switcher : List ℕ → ℕ → Bool → Server → Server
open_switcher [] mods backwards s = s
open_switcher (v ∷ vs) mods backwards s =
    advance backwards (record { views = v ∷ vs; selected = 0; mods = mods })
      (emit (node_raise_to_top switcher_tree) s)

-- `switcher::cycle`.
unfoldable pub cycle : ℕ → Bool → Server → Server
cycle mods backwards s = elim s.sw [
  | none ↦ open_switcher (snapshot s) mods backwards s
  | some sw ↦ advance backwards sw s
]
