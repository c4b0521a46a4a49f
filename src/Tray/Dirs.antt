-- ===== src/Tray/Dirs.antt =====
-- The loop of `find_icon_path_uncached` that splits XDG_DATA_DIRS at its colons (src/tray.cc).
use steppewm.Base.{
  ℕ, zero, suc, ◌≤◌, Option, none, some, List, [], ◌∷◌, ◌++◌, ◌≡◌, refl, arith, ◌==◌, if◌then◌else◌,
  length, Bytes, codes, Bool-cases, inl, inr, ap, sym, ◌∙◌,
}
use mathlib.Core.List.{append-nil, append_assoc}

-- `dirs.find(':', pos)`: the text up to the colon, and the one after it.
unfoldable pub until_colon : Bytes → Bytes
until_colon [] = []
until_colon (c ∷ cs) = let rest = until_colon cs in if c == b':' then [] else c ∷ rest

unfoldable pub after_colon : Bytes → Bytes
after_colon [] = []
after_colon (c ∷ cs) = let rest = after_colon cs in if c == b':' then cs else rest

abbrev pub with_dir : Bytes → List Bytes → List Bytes
with_dir [] dirs = dirs
with_dir (c ∷ cs) dirs = ((c ∷ cs) ++ codes "/icons") ∷ dirs

abbrev pub map_some : (List Bytes → List Bytes) → Option (List Bytes) → Option (List Bytes)
map_some f none = none
map_some f (some xs) = some (f xs)

-- The loop over the text from `pos` on, with at most `fuel` rounds; it gives none if it is not done then.
unfoldable pub dirs_loop : ℕ → Bytes → Option (List Bytes)
dirs_loop fuel [] = some []
dirs_loop zero (c ∷ cs) = none
dirs_loop (suc fuel) (c ∷ cs) =
    map_some (with_dir (until_colon (c ∷ cs))) (dirs_loop fuel (after_colon (c ∷ cs)))

-- The directories of a text, in one pass over it: `dir` is what was read since the last colon.
pub split_dirs : Bytes → Bytes → List Bytes
split_dirs dir [] = with_dir dir []
split_dirs dir (c ∷ cs) =
    let next = with_dir dir (split_dirs [] cs) in
    let more = split_dirs (dir ++ c ∷ []) cs in if c == b':' then next else more

split_dirs_nil : split_dirs [] [] ≡ []
unfolding split_dirs
split_dirs_nil = refl

split_dirs_step :
    (dir cs : Bytes)
    → split_dirs dir cs ≡ with_dir (dir ++ until_colon cs) (split_dirs [] (after_colon cs))
unfolding split_dirs until_colon after_colon
split_dirs_step dir [] = ap (λ d. with_dir d []) (sym (append-nil dir))
split_dirs_step dir (c ∷ cs) = elim (Bool-cases (c == b':')) [
  | inl e ↦ rw (e, append-nil) refl
  | inr e ↦ rw e (
      split_dirs_step (dir ++ c ∷ []) cs
      ∙ ap (λ d. with_dir d (split_dirs [] (after_colon cs)))
          (append_assoc dir (c ∷ []) (until_colon cs)))
]

length-after_colon : (cs : Bytes) → length (after_colon cs) ≤ length cs
unfolding after_colon
length-after_colon [] = omega arith
length-after_colon (c ∷ cs) = ground (arith, length-after_colon cs)

length-after_colon_cons : (c : ℕ) (cs : Bytes) → length (after_colon (c ∷ cs)) ≤ length cs
unfolding after_colon
length-after_colon_cons c cs = ground (arith, length-after_colon cs)

-- The loop ends within as many rounds as the text has bytes, and gives the directories between the colons,
-- without the empty ones, each with "/icons" after it.
pub dirs_loop-split_dirs :
    (fuel : ℕ) (cs : Bytes) → length cs ≤ fuel → dirs_loop fuel cs ≡ some (split_dirs [] cs)
unfolding dirs_loop
dirs_loop-split_dirs fuel [] h = ap some (sym split_dirs_nil)
dirs_loop-split_dirs zero (c ∷ cs) h = absurd (omega arith)
dirs_loop-split_dirs (suc fuel) (c ∷ cs) h =
    rw
      (dirs_loop-split_dirs fuel (after_colon (c ∷ cs))
        (omega (arith, length-after_colon_cons c cs)))
      (ap some (sym (split_dirs_step [] (c ∷ cs))))
