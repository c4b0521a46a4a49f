-- ===== src/Wlr/Layout.antt =====
-- The documented behaviour of the output layout, as named hypotheses: none of the modelled calls changes
-- where the outputs are.
use steppewm.Base.{ℕ, ℤ, Option, List, ◌∷◌, ◌≡◌}
use steppewm.Wlr.{Call, Wlroots}

pub record IsLayout (w : Wlroots) : Type 0 where
  pub output_at-call :
      (c : Call) (cs : List Call) (x y : ℤ) → w.output_at (c ∷ cs) x y ≡ w.output_at cs x y
  pub get_box-call :
      (c : Call) (cs : List Call) (o : Option ℕ) → w.get_box (c ∷ cs) o ≡ w.get_box cs o
