-- ===== src/Taskbar/Slots.antt =====
-- Which windows and launchers the task row shows: the part of `taskbar::layout` (src/taskbar.cc) that
-- fills `slots_`.
use Prim.Native.String.{String}
use text.Mathlib.Text.{◌==◌ as str_eq}
use steppewm.Base.{
  ℕ, suc, pos, Bool, true, false, not, ◌&&◌, ◌||◌, Option, none, some, List, [], ◌∷◌, ◌++◌, ◌==◌,
  if◌then◌else◌,
}
use steppewm.State.{View, Config}
use steppewm.Taskbar.{Button, Slot}

unfoldable pub has_app : String → Option String → Bool
has_app app none = false
has_app app (some id) = str_eq id app

-- A button, and whether a pinned app has claimed it.
pub record Claim : Type 0 where
  pub button : Button
  pub claimed : Bool

unfoldable pub new_slot : Option ℕ → Option ℕ → Slot
new_slot v pin = record { v = v; pin_idx = pin; x = pos 0; w = pos 0 }

-- The first unclaimed button of the app, which is then claimed.
unfoldable pub claim : String → List Claim → Option ℕ × List Claim
claim app [] = (none, [])
claim app (c ∷ cs) =
    let (found, rest) = claim app cs in
    if not c.claimed && has_app app c.button.app_id
    then (some c.button.v, record c { claimed = true } ∷ cs)
    else (found, c ∷ rest)

-- "for each pinned app".
unfoldable pub claim_pins : ℕ → List String → List Claim → List Slot × List Claim
claim_pins i [] cs = ([], cs)
claim_pins i (app ∷ apps) cs =
    let (found, cs1) = claim app cs in
    let (slots, cs2) = claim_pins (suc i) apps cs1 in (new_slot found (some i) ∷ slots, cs2)

-- The test on a button that no pinned app has claimed.
abbrev pub in_row : Config → (ℕ → View) → ℕ → ℕ → Bool
in_row cfg st current v = cfg.taskbar_all_workspaces || (st v).pinned || (st v).workspace == current

-- "for each button that hasn't been matched yet".
unfoldable pub unclaimed_slots : Config → (ℕ → View) → ℕ → List Claim → List Slot
unclaimed_slots cfg st current [] = []
unclaimed_slots cfg st current (c ∷ cs) =
    let rest = unclaimed_slots cfg st current cs in
    if not c.claimed && in_row cfg st current c.button.v
    then new_slot (some c.button.v) none ∷ rest
    else rest

unfoldable pub unclaimed : List Button → List Claim
unclaimed [] = []
unclaimed (b ∷ bs) = record { button = b; claimed = false } ∷ unclaimed bs

unfoldable pub fill_slots : Config → (ℕ → View) → ℕ → List Button → List Slot
fill_slots cfg st current bs =
    let (pinned, cs) = claim_pins 0 cfg.pins (unclaimed bs) in
    pinned ++ unclaimed_slots cfg st current cs
