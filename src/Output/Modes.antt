-- ===== src/Output/Modes.antt =====
-- The choice of an output's mode: `output::pick_mode` of src/output.cc.
use steppewm.Base.{
  ◌==◌, ℕ, ℤ, pos, ◌-ℤ◌, pos_part, neg_part, ◌+◌, ltb, ltb_ℤ, Bool, true, false, ◌&&◌, Option, none,
  some, List, [], ◌∷◌, ◌≡◌, if◌then◌else◌, All,
}

-- `struct wlr_output_mode`, and what `output_config` (src/config.h) asks for: a mode is only looked for
-- when a size is configured, which is not negative then. The rates are in mHz.
pub record Mode : Type 0 where
  pub width : ℕ
  pub height : ℕ
  pub refresh : ℤ

pub record ModeConfig : Type 0 where
  pub width : ℕ
  pub height : ℕ
  pub refresh_mhz : ℤ

abbrev pub abs : ℤ → ℕ
abs a = pos_part a + neg_part a

abbrev pub fits : ModeConfig → Mode → Bool
fits oc m = m.width == oc.width && m.height == oc.height

-- The mode replaces the best one so far.
abbrev pub is_better : ModeConfig → Mode → Mode → Bool
is_better oc best m =
    if ltb_ℤ (pos 0) oc.refresh_mhz
    then ltb (abs (m.refresh -ℤ oc.refresh_mhz)) (abs (best.refresh -ℤ oc.refresh_mhz))
    else ltb_ℤ best.refresh m.refresh

-- The loop, from the best mode so far.
unfoldable pub better_of : ModeConfig → Mode → List Mode → Mode
better_of oc best [] = best
better_of oc best (m ∷ ms) = better_of oc (if fits oc m && is_better oc best m then m else best) ms

-- `output::pick_mode`.
unfoldable pub pick_mode : ModeConfig → List Mode → Option Mode
pick_mode oc [] = none
pick_mode oc (m ∷ ms) =
    let rest = pick_mode oc ms in if fits oc m then some (better_of oc m ms) else rest

-- A mode is as good as each mode that fits, of a list.
abbrev pub IsBest : ModeConfig → Mode → List Mode → Type 0
IsBest oc best = All (λ m. fits oc m ≡ true → is_better oc best m ≡ false)

-- What the loop promises of its result.
abbrev IsResult : ModeConfig → Mode → List Mode → Mode → Type 0
IsResult oc best ms r = (fits oc r ≡ true) × (is_better oc r best ≡ false) × IsBest oc r ms

-- What the choice promises of a list of modes.
abbrev pub IsChoice : ModeConfig → List Mode → Option Mode → Type 0
IsChoice oc ms none = All (λ m. fits oc m ≡ false) ms
IsChoice oc ms (some best) = (fits oc best ≡ true) × IsBest oc best ms
