-- ===== src/View/Quiet.antt =====
-- Which operations of src/view.cc leave the keyboard focus alone: the loops that only draw or raise.
use steppewm.Base.{
  if◌then◌else◌, ℕ, Bool, false, Option, none, some, List, [], ◌∷◌, ◌≡◌, refl, ◌∙◌, arith,
}
use steppewm.Wlr.{Call, Surface, toplevel}
use steppewm.Wlr.Seat.{focus_calls, is_focus_call}
use steppewm.State.{View, Output, Server, refresh_outputs, refresh_taskbars}
use steppewm.Idle.{update_idle}
use steppewm.View.{
  update_visibility, minimize, set_urgent, raise_pinned, raise_layer, raise_output, raise_outputs,
  raise_overlays, unfocus_window, unfocus_previous, restore_window, activate,
}

pub emit_if-quiet :
    (b : Bool) (c : Call) (cs : List Call)
    → is_focus_call c ≡ false
    → focus_calls (if b then c ∷ cs else cs) ≡ focus_calls cs
emit_if-quiet b c cs h = ground arith

pub refresh_outputs-quiet :
    (os : List Output) (cs : List Call) → focus_calls (refresh_outputs os cs) ≡ focus_calls cs
refresh_outputs-quiet [] cs = refl
refresh_outputs-quiet (o ∷ os) cs = refresh_outputs-quiet os _ ∙ ground arith

raise_pinned-quiet :
    (st : ℕ → View) (vs : List ℕ) (cs : List Call)
    → focus_calls (raise_pinned st vs cs) ≡ focus_calls cs
unfolding raise_pinned
raise_pinned-quiet st [] cs = refl
raise_pinned-quiet st (v ∷ vs) cs = raise_pinned-quiet st vs _ ∙ ground arith

raise_output-quiet :
    (o : Output) (cs : List Call) → focus_calls (raise_output o cs) ≡ focus_calls cs
unfolding raise_output raise_layer
raise_output-quiet o cs = ground arith

raise_outputs-quiet :
    (os : List Output) (cs : List Call) → focus_calls (raise_outputs os cs) ≡ focus_calls cs
unfolding raise_outputs
raise_outputs-quiet [] cs = refl
raise_outputs-quiet (o ∷ os) cs = raise_outputs-quiet os _ ∙ raise_output-quiet o cs

pub raise_overlays-quiet : (s : Server) → focus_calls (raise_overlays s).calls ≡ focus_calls s.calls
unfolding raise_overlays
raise_overlays-quiet s =
    raise_outputs-quiet s.outputs _ ∙ raise_pinned-quiet s.store s.views s.calls

pub refresh_taskbars-quiet :
    (s : Server) → focus_calls (refresh_taskbars s).calls ≡ focus_calls s.calls
refresh_taskbars-quiet s = refresh_outputs-quiet s.outputs s.calls

pub update_visibility-quiet :
    (v : ℕ) (s : Server) → focus_calls (update_visibility v s).calls ≡ focus_calls s.calls
unfolding update_visibility update_idle
update_visibility-quiet v s = refl

pub minimize-quiet :
    (min : Bool) (v : ℕ) (s : Server) → focus_calls (minimize min v s).calls ≡ focus_calls s.calls
unfolding minimize update_visibility update_idle
minimize-quiet min v s = refresh_outputs-quiet s.outputs _ ∙ ground arith

pub set_urgent-quiet :
    (urgent : Bool) (v : ℕ) (s : Server)
    → focus_calls (set_urgent urgent v s).calls ≡ focus_calls s.calls
unfolding set_urgent
set_urgent-quiet urgent v s = ground (arith, refresh_outputs-quiet s.outputs s.calls)

pub restore_window-quiet :
    (v : ℕ) (s : Server) → focus_calls (restore_window v s).calls ≡ focus_calls s.calls
unfolding restore_window
restore_window-quiet v s = ground (
  arith,
  set_urgent-quiet false v s,
  set_urgent-quiet false v (minimize false v s),
  minimize-quiet false v s,
)

pub unfocus_previous-quiet :
    (st : ℕ → View) (p : Option Surface) (cs : List Call)
    → focus_calls (unfocus_previous st p cs) ≡ focus_calls cs
unfolding unfocus_previous unfocus_window
unfocus_previous-quiet st none cs = refl
unfocus_previous-quiet st (some (toplevel p)) cs = ground arith
unfocus_previous-quiet st (some _) cs = refl

pub activate-quiet : (v : ℕ) (s : Server) → focus_calls (activate v s).calls ≡ focus_calls s.calls
unfolding activate
activate-quiet v s = ground arith
