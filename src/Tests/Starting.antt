-- ===== src/Tests/Starting.antt =====
-- The theorems on the start of the compositor, on the panel of the switcher and on the icons of windows.
use steppewm.Base.{
  ℕ, pos, ◌+ℤ◌, ◌-ℤ◌, ◌*ℤ◌, ◌/ℤ◌, true, none, some, [], ◌∷◌, ◌≡◌, ◌⊎◌, refl, arith, codes, same,
  List,
}
use steppewm.Snap.{box}
use steppewm.Switcher.Panel.{panel_on, panel_w, panel_h}
use steppewm.Switcher.Rows.{IsLaidOut, panel_on-IsLaidOut}
use steppewm.Start.{System, Process, start_xwayland}
use steppewm.Start.Displays.{IsServed, IsTakenBelow, start_xwayland-display}
use steppewm.Lifecycle.Icons.{
  Icons, IconEvent, icon_set, window_destroyed, run_icons, IsCounted, users, run_icons-IsCounted,
}
use steppewm.Tests.{desk, monitor}
use steppewm.Tests.Trays.{strokes}

-- Display 0 has a socket.
abbrev one_display : System
one_display = record {
  exists = λ path. same path (codes "/tmp/.X11-unix/X");
  writable = λ path. true;
  keyring_output = none;
}

abbrev process : Process
process = record { environment = λ name. none; effects = [] }

start_xwayland-display_example :
    let r = start_xwayland strokes one_display process in
    ((d : ℕ) × IsServed strokes one_display d process r)
    ⊎ (IsTakenBelow strokes one_display 32 × (r ≡ process))
start_xwayland-display_example = start_xwayland-display strokes one_display process

-- Two windows on a screen of 1920 by 1080.
panel_on-IsLaidOut_example : IsLaidOut 2 monitor (box (pos 760) (pos 505) (pos 400) (pos 69))
unfolding panel_on panel_w panel_h ◌+ℤ◌ ◌-ℤ◌ ◌*ℤ◌ ◌/ℤ◌
panel_on-IsLaidOut_example =
    panel_on-IsLaidOut 2 monitor (box (pos 760) (pos 505) (pos 400) (pos 69)) refl

abbrev icons : Icons
icons = record { srv = desk; icon = λ v. none; refs = λ i. 0 }

-- Windows 1 and 2 get the same icon, window 1 another one, and window 2 goes.
abbrev changes_of_icons : List IconEvent
changes_of_icons =
    icon_set 1 (some 8) ∷ icon_set 2 (some 8) ∷ icon_set 1 (some 9) ∷ window_destroyed 2 ∷ []

run_icons-IsCounted_example : IsCounted 4 (run_icons changes_of_icons icons)
unfolding users
run_icons-IsCounted_example =
    run_icons-IsCounted 4 changes_of_icons icons
      (omega arith, (omega arith, (omega arith, (omega arith, tt)))) (λ i. refl)
