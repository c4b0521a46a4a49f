-- ===== src/Lock/Guarded.antt =====
-- What each handler does while the session is locked (src/lock.cc, src/view.cc, src/layer.cc and
-- src/switcher.cc), to the lock and to the keyboard.
use steppewm.Base.{
  ℕ, ℤ, pos, negsuc, Bool, true, false, Option, none, some, List, [], ◌∷◌, ◌≡◌, refl, sym, ap, ◌∙◌,
  subst, arith, if◌then◌else◌, for_each, find, Bool-cases, Option-cases, inl, inr,
}
use steppewm.Wlr.{Call, Surface, lock, keyboard_enter, Wlroots}
use steppewm.Wlr.Seat.{focus_calls, is_focus_call}
use steppewm.State.{modify, log, Output, Server, refresh_taskbars}
use steppewm.Idle.{update_idle}
use steppewm.Switcher.{cancel, view_removed, removed_from, erase_entry}
use steppewm.View.{update_visibility, minimize, focus_surface, focus, focus_next}
use steppewm.View.Quiet.{refresh_outputs-quiet, minimize-quiet}
use steppewm.Workspace.{
  grow, is_topmost, show_workspace, focus_topmost, enter_workspace, workspace_switch,
  move_window_to, move_to_workspace,
}
use steppewm.Placement.{place, place_on, place_in}
use steppewm.Lifecycle.{
  add_to_taskbars, remove_from_taskbars, clear_grab, clear_click, clear_hover, clear_keyboard,
  clear_pointer, destroy_handles, detach, unlist, enlist, create_handles, handle_map, handle_unmap,
}

abbrev pub is_client : Surface → Bool
is_client (lock a) = false
is_client _ = true

abbrev pub is_client_call : Call → Bool
is_client_call (keyboard_enter x) = is_client x
is_client_call _ = false

-- The calls that gave the keyboard to a surface that is not a locker's, the newest first.
abbrev pub client_calls : List Call → List Call
client_calls [] = []
client_calls (c ∷ cs) = if is_client_call c then c ∷ client_calls cs else client_calls cs

-- From one state to another the lock stays as it is and no client's surface gets the keyboard.
abbrev pub IsGuarded : Server → Server → Type 0
IsGuarded s r = (r.locked ≡ s.locked) × (client_calls r.calls ≡ client_calls s.calls)

pub IsGuarded-trans : (s r t : Server) → IsGuarded s r → IsGuarded r t → IsGuarded s t
IsGuarded-trans s r t g h = (h.0 ∙ g.0, h.1 ∙ g.1)

client_call_focus : (c : Call) → is_focus_call c ≡ false → is_client_call c ≡ false
client_call_focus (keyboard_enter x) h = ground arith
client_call_focus _ h = refl

client_calls-focus_calls : (cs : List Call) → client_calls (focus_calls cs) ≡ client_calls cs
client_calls-focus_calls [] = refl
client_calls-focus_calls (c ∷ cs) = elim (Bool-cases (is_focus_call c)) [
  | inl t ↦ rw (t, client_calls-focus_calls cs) refl
  | inr f ↦ rw (f, client_call_focus c f) (client_calls-focus_calls cs)
]

-- A step that leaves the focus calls alone is guarded.
pub quiet-IsGuarded :
    (s r : Server) → r.locked ≡ s.locked → focus_calls r.calls ≡ focus_calls s.calls → IsGuarded s r
quiet-IsGuarded s r l e = (
  l,
  sym (client_calls-focus_calls r.calls) ∙ ap client_calls e ∙ client_calls-focus_calls s.calls,
)

pub focus-locked : (w : Wlroots) (v : ℕ) (s : Server) → s.locked ≡ true → focus w v s ≡ s
unfolding focus focus_surface
focus-locked w v s l = ground arith

pub focus_next-locked :
    (w : Wlroots) (skip : Option ℕ) (s : Server) → s.locked ≡ true → focus_next w skip s ≡ s
unfolding focus_next
focus_next-locked w skip s l = ground arith

-- Before a call of `focus` or `focus_next` that the lock stops.
pub stopped_focus :
    (w : Wlroots) (v : ℕ) (s r : Server)
    → s.locked ≡ true
    → IsGuarded s r
    → IsGuarded s (focus w v r)
stopped_focus w v s r l g = subst (IsGuarded s) (sym (focus-locked w v r (g.0 ∙ l))) g

pub stopped_focus_next :
    (w : Wlroots) (skip : Option ℕ) (s r : Server)
    → s.locked ≡ true
    → IsGuarded s r
    → IsGuarded s (focus_next w skip r)
stopped_focus_next w skip s r l g =
    subst (IsGuarded s) (sym (focus_next-locked w skip r (g.0 ∙ l))) g

pub minimize-IsGuarded : (min : Bool) (v : ℕ) (s : Server) → IsGuarded s (minimize min v s)
unfolding minimize update_visibility update_idle
minimize-IsGuarded min v s = quiet-IsGuarded s (minimize min v s) refl (minimize-quiet min v s)

pub refresh_taskbars-IsGuarded : (s : Server) → IsGuarded s (refresh_taskbars s)
refresh_taskbars-IsGuarded s =
    quiet-IsGuarded s (refresh_taskbars s) refl (refresh_outputs-quiet s.outputs s.calls)

pub cancel-IsGuarded : (s : Server) → IsGuarded s (cancel s)
unfolding cancel
cancel-IsGuarded s = ground arith

pub view_removed-IsGuarded : (v : ℕ) (s : Server) → IsGuarded s (view_removed v s)
unfolding view_removed removed_from erase_entry
view_removed-IsGuarded v s = ground arith

update_visibility-IsGuarded : (v : ℕ) (s : Server) → IsGuarded s (update_visibility v s)
unfolding update_visibility update_idle
update_visibility-IsGuarded v s = (refl, refl)

visibility_loop-IsGuarded :
    (vs : List ℕ) (s : Server) → IsGuarded s (for_each update_visibility vs s)
visibility_loop-IsGuarded [] s = (refl, refl)
visibility_loop-IsGuarded (v ∷ vs) s =
    IsGuarded-trans s (update_visibility v s)
      (for_each update_visibility vs (update_visibility v s)) (update_visibility-IsGuarded v s)
      (visibility_loop-IsGuarded vs (update_visibility v s))

pub show_workspace-IsGuarded :
    (workspace : ℕ) (s : Server) → IsGuarded s (show_workspace workspace s)
unfolding show_workspace
show_workspace-IsGuarded workspace s =
    let s1 = record s {
      current_workspace = workspace;
      max_visible_workspace = grow s.max_visible_workspace workspace;
    } in
    IsGuarded-trans s (cancel s1) (for_each update_visibility s.views (cancel s1))
      (cancel-IsGuarded s1) (visibility_loop-IsGuarded s.views (cancel s1))

add_to_taskbars_calls :
    (v : ℕ) (os : List Output) (cs : List Call)
    → client_calls (add_to_taskbars v os cs) ≡ client_calls cs
unfolding add_to_taskbars
add_to_taskbars_calls v [] cs = refl
add_to_taskbars_calls v (o ∷ os) cs = add_to_taskbars_calls v os _ ∙ ground arith

remove_from_taskbars_calls :
    (v : ℕ) (os : List Output) (cs : List Call)
    → client_calls (remove_from_taskbars v os cs) ≡ client_calls cs
unfolding remove_from_taskbars
remove_from_taskbars_calls v [] cs = refl
remove_from_taskbars_calls v (o ∷ os) cs = remove_from_taskbars_calls v os _ ∙ ground arith

module _ (w : Wlroots) where
  place-IsGuarded : (v : ℕ) (s : Server) → IsGuarded s (place w v s)
  unfolding place place_on place_in
  place-IsGuarded v s = ground arith

  focus_topmost-IsGuarded :
      (workspace : ℕ) (s : Server) → s.locked ≡ true → IsGuarded s (focus_topmost w workspace s)
  unfolding focus_topmost
  focus_topmost-IsGuarded workspace s l =
      elim (Option-cases (find (is_topmost s workspace) s.views)) [
        | inl e ↦ rw (e, focus_topmost) (refl, refl)
        | inr (v, e) ↦ rw (e, focus_topmost) (stopped_focus w v s s l (refl, refl))
      ]

  enter_workspace-IsGuarded :
      (workspace : ℕ) (s : Server) → s.locked ≡ true → IsGuarded s (enter_workspace w workspace s)
  unfolding enter_workspace
  enter_workspace-IsGuarded workspace s l =
      let s1 = show_workspace workspace s in
      let s2 = focus_topmost w workspace s1 in
      let g1 = show_workspace-IsGuarded workspace s in
      let g2 = IsGuarded-trans s s1 s2 g1 (focus_topmost-IsGuarded workspace s1 (g1.0 ∙ l)) in
      let g3 = IsGuarded-trans s s2 (refresh_taskbars s2) g2 (refresh_taskbars-IsGuarded s2) in
      (g3.0, ground (arith, g3.1))

  pub workspace_switch-IsGuarded :
      (n : ℤ) (s : Server) → s.locked ≡ true → IsGuarded s (workspace_switch w n s)
  unfolding workspace_switch
  workspace_switch-IsGuarded (negsuc n) s l = (refl, refl)
  workspace_switch-IsGuarded (pos n) s l = ground (arith, enter_workspace-IsGuarded n s l)

  move_window_to-IsGuarded :
      (ws v : ℕ) (s : Server) → s.locked ≡ true → IsGuarded s (move_window_to w ws v s)
  unfolding move_window_to
  move_window_to-IsGuarded ws v s l =
      let s1 = modify v (λ o. record o { pinned = false; workspace = ws }) s in
      let s2 = record s1 { max_visible_workspace = grow s1.max_visible_workspace ws } in
      let s3 = update_visibility v s2 in
      let s4 = view_removed v s3 in
      let s5 = focus_next w (some v) s4 in
      let g3 = IsGuarded-trans s s2 s3 (refl, refl) (update_visibility-IsGuarded v s2) in
      let g4 = IsGuarded-trans s s3 s4 g3 (view_removed-IsGuarded v s3) in
      let g5 = stopped_focus_next w (some v) s s4 l g4 in
      IsGuarded-trans s s5 (refresh_taskbars s5) g5 (refresh_taskbars-IsGuarded s5)

  pub move_to_workspace-IsGuarded :
      (n : ℤ) (v : ℕ) (s : Server) → s.locked ≡ true → IsGuarded s (move_to_workspace w n v s)
  unfolding move_to_workspace
  move_to_workspace-IsGuarded (negsuc n) v s l = (refl, refl)
  move_to_workspace-IsGuarded (pos n) v s l = ground (arith, move_window_to-IsGuarded n v s l)

  pub handle_map-IsGuarded : (v : ℕ) (s : Server) → s.locked ≡ true → IsGuarded s (handle_map w v s)
  unfolding handle_map enlist create_handles
  handle_map-IsGuarded v s l =
      let s1 = modify v (λ o. record o { mapped = true; workspace = s.current_workspace }) s in
      let s2 = update_visibility v (record s1 { views = v ∷ s1.views }) in
      let s3 = place w v s2 in
      let s4 = log (add_to_taskbars v s3.outputs) s3 in
      let g2 =
        IsGuarded-trans s (record s1 { views = v ∷ s1.views }) s2 (refl, refl)
          (update_visibility-IsGuarded v (record s1 { views = v ∷ s1.views })) in
      let g3 = IsGuarded-trans s s2 s3 g2 (place-IsGuarded v s2) in
      let g4 = IsGuarded-trans s s3 s4 g3 (refl, add_to_taskbars_calls v s3.outputs s3.calls) in
      stopped_focus w v s (create_handles w v s4) l
        (IsGuarded-trans s s4 (create_handles w v s4) g4 (refl, refl))

  detach-IsGuarded : (v : ℕ) (s : Server) → IsGuarded s (detach w v s)
  unfolding detach clear_grab clear_click clear_hover clear_keyboard clear_pointer destroy_handles
  detach-IsGuarded v s = ground arith

  pub handle_unmap-IsGuarded :
      (v : ℕ) (s : Server) → s.locked ≡ true → IsGuarded s (handle_unmap w v s)
  unfolding handle_unmap unlist update_idle
  handle_unmap-IsGuarded v s l =
      let s1 = detach w v s in
      let s2 = update_idle none (unlist v s1) in
      let s3 = view_removed v s2 in
      let s4 = log (remove_from_taskbars v s3.outputs) s3 in
      let g2 = IsGuarded-trans s s1 s2 (detach-IsGuarded v s) (refl, refl) in
      let g3 = IsGuarded-trans s s2 s3 g2 (view_removed-IsGuarded v s2) in
      let g4 =
        IsGuarded-trans s s3 s4 g3 (refl, remove_from_taskbars_calls v s3.outputs s3.calls) in
      stopped_focus_next w (some v) s s4 l g4
