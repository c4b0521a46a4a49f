-- ===== src/Tests/Locking.antt =====
-- The theorems on the session lock, on the small desktop.
use steppewm.Base.{pos, true, some, List, [], ◌∷◌, ◌≡◌, refl}
use steppewm.Wlr.{lock_tree}
use steppewm.Dispatch.{Keybind}
use steppewm.Keyboard.{Key}
use steppewm.State.{Server}
use steppewm.Lock.{on_new_lock}
use steppewm.Lock.Guarded.{client_calls}
use steppewm.Lock.Safety.{
  Event, mapped, unmapped, activated, action, layer_mapped, lock_surface_created, lock_destroyed,
  window_created, activation_requested, key, button, deco_button, destroyed, run, run-locked,
}
use steppewm.Lock.Stacking.{node, last_raised, lock_shown, on_new_lock-covers}
use steppewm.Deco.{btn_left, minimize_button}
use steppewm.Tests.Bars.{commands, bars, nowhere}
use steppewm.Base.{none}
use steppewm.Wlr.{other}
use steppewm.Tests.{wlr, root, bad_token, desk}

abbrev locked_desk : Server
locked_desk = record desk { locked = true; cur_lock = some 90 }

-- A binding to the second workspace, and its key.
abbrev binds : List Keybind
binds = record { modifiers = 64; sym = 50; action = "workspace"; arg = "2" } ∷ []

abbrev switch_key : Key
switch_key = record {
  keycode = 11;
  pressed = true;
  syms = 50 ∷ [];
  raw_syms = 50 ∷ [];
  modifiers = 64;
}

-- A locker shows its surface; a window maps, another is activated and a binding asks for the next
-- workspace; a launcher opens; a window is created, a client asks for activation and a bound key is
-- pressed, then a button over the taskbar; the button of a decoration is clicked and a window is
-- destroyed; then the locker dies.
abbrev night : List Event
night =
    lock_surface_created (record { surface = 91; output = 7 })
    ∷ mapped 3
    ∷ activated 3
    ∷ action "workspace" "2" 0
    ∷ layer_mapped true 50
    ∷ unmapped 2
    ∷ window_created 4
    ∷ activation_requested (some (other 70)) bad_token
    ∷ key [] true true [] switch_key
    ∷ button commands bars none nowhere 0 true btn_left 1000
    ∷ deco_button minimize_button btn_left 1100 3
    ∷ destroyed 2
    ∷ lock_destroyed
    ∷ []

run-locked_example :
    ((run wlr (λ x. pos 2) root (λ x. x) binds night locked_desk).locked ≡ true)
    × (client_calls (run wlr (λ x. pos 2) root (λ x. x) binds night locked_desk).calls ≡ [])
run-locked_example = run-locked wlr (λ x. pos 2) root (λ x. x) binds night locked_desk refl

on_new_lock-covers_example :
    let r = on_new_lock wlr 90 desk in
    (r.locked ≡ true) × (lock_shown r.calls ≡ true) × (last_raised r.calls ≡ some (node lock_tree))
on_new_lock-covers_example = on_new_lock-covers wlr 90 desk refl
