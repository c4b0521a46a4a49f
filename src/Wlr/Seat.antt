-- ===== src/Wlr/Seat.antt =====
-- The documented behaviour of the seat's keyboard focus, as named hypotheses, and what follows: the
-- focus depends on the focus calls alone.
use steppewm.Base.{
  Bool, true, false, Option, none, some, List, [], ◌∷◌, ◌≡◌, refl, sym, ap, ◌∙◌, ◌==◌,
  if◌then◌else◌, arith, Bool-cases, inl, inr,
}
use steppewm.Wlr.{
  Surface, toplevel, layer, lock, other, Call, keyboard_enter, keyboard_clear_focus, Wlroots,
}

-- Two surface pointers are the same.
abbrev pub surface_eq : Surface → Surface → Bool
surface_eq (toplevel a) (toplevel b) = a == b
surface_eq (layer a) (layer b) = a == b
surface_eq (lock a) (lock b) = a == b
surface_eq (other a) (other b) = a == b
surface_eq _ _ = false

-- A surface pointer, which may be null, is the given one.
abbrev pub is_surface : Option Surface → Surface → Bool
is_surface none a = false
is_surface (some b) a = surface_eq b a

pub is_surface→eq : (o : Option Surface) (a : Surface) → is_surface o a ≡ true → o ≡ some a
is_surface→eq none a h = ground arith
is_surface→eq (some (toplevel b)) a h = ground arith
is_surface→eq (some (layer b)) a h = ground arith
is_surface→eq (some (lock b)) a h = ground arith
is_surface→eq (some (other b)) a h = ground arith

-- The calls that may move the keyboard focus.
abbrev pub is_focus_call : Call → Bool
is_focus_call (keyboard_enter x) = true
is_focus_call keyboard_clear_focus = true
is_focus_call _ = false

abbrev pub focus_calls : List Call → List Call
focus_calls [] = []
focus_calls (c ∷ cs) = if is_focus_call c then c ∷ focus_calls cs else focus_calls cs

-- `wlr_seat_keyboard_notify_enter` gives the focus to the surface, `wlr_seat_keyboard_notify_clear_focus`
-- takes it away, and no other call of the compositor moves it (no client holds a keyboard grab).
pub record IsSeat (w : Wlroots) : Type 0 where
  pub focused-enter :
      (x : Surface) (cs : List Call) → w.focused_surface (keyboard_enter x ∷ cs) ≡ some x
  pub focused-clear : (cs : List Call) → w.focused_surface (keyboard_clear_focus ∷ cs) ≡ none
  pub focused-other :
      (c : Call) (cs : List Call)
      → is_focus_call c ≡ false
      → w.focused_surface (c ∷ cs) ≡ w.focused_surface cs

module _ {w : Wlroots} (seat : IsSeat w) where
  focused-focus_call :
      (c : Call) (cs ds : List Call)
      → is_focus_call c ≡ true
      → w.focused_surface (c ∷ cs) ≡ w.focused_surface (c ∷ ds)
  focused-focus_call (keyboard_enter x) cs ds h =
      seat.focused-enter x cs ∙ sym (seat.focused-enter x ds)
  focused-focus_call keyboard_clear_focus cs ds h =
      seat.focused-clear cs ∙ sym (seat.focused-clear ds)
  focused-focus_call _ cs ds h = ground arith

  pub focused-focus_calls :
      (cs : List Call) → w.focused_surface cs ≡ w.focused_surface (focus_calls cs)
  focused-focus_calls [] = refl
  focused-focus_calls (c ∷ cs) = elim (Bool-cases (is_focus_call c)) [
    | inl e ↦ rw (e) (focused-focus_call c cs (focus_calls cs) e)
    | inr e ↦ rw (e) (seat.focused-other c cs e ∙ focused-focus_calls cs)
  ]

  -- Logs with the same focus calls leave the same surface focused.
  pub same_focus :
      (cs ds : List Call)
      → focus_calls cs ≡ focus_calls ds
      → w.focused_surface cs ≡ w.focused_surface ds
  same_focus cs ds e =
      focused-focus_calls cs ∙ ap w.focused_surface e ∙ sym (focused-focus_calls ds)
