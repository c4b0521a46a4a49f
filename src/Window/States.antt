-- ===== src/Window/States.antt =====
-- What `view::apply_state` of src/view.cc makes of the states of a window.
use steppewm.Base.{ℕ, Bool, true, ◌≡◌, refl, ap, ◌∙◌, arith}
use steppewm.Wlr.{Wlroots}
use steppewm.State.{View, Server, unsnapped}
use steppewm.Window.{set_states, announce_states, restack, change_geometry, apply_state}
use steppewm.Window.Geometry.{set_states_view, restack_view}

announced_store : (m f : Bool) (v : ℕ) (s : Server) → (announce_states m f v s).store ≡ s.store
unfolding announce_states
announced_store m f v s = refl

apply_state_steps :
    (w : Wlroots) (m f : Bool) (v : ℕ) (s : Server)
    → (s.store v).initialized ≡ true
    → apply_state w m f v s
      ≡ restack
          (s.store v).fullscreen
          f
          v
          (announce_states m f v (set_states m f unsnapped v (change_geometry w m f v s)))
unfolding apply_state
apply_state_steps w m f v s h = ground arith

-- An initialized window takes the states that are asked for, and is no longer snapped.
pub apply_state-states :
    (w : Wlroots) (m f : Bool) (v : ℕ) (s : Server)
    → (s.store v).initialized ≡ true
    → let o = (apply_state w m f v s).store v in
      (o.maximized ≡ m) × (o.fullscreen ≡ f) × (o.snapped ≡ unsnapped)
apply_state-states w m f v s h =
    let s1 = set_states m f unsnapped v (change_geometry w m f v s) in
    let s2 = announce_states m f v s1 in
    let e =
      ap (λ (r : Server). r.store v) (apply_state_steps w m f v s h)
      ∙ restack_view (s.store v).fullscreen f v s2
      ∙ ap (λ (st : ℕ → View). st v) (announced_store m f v s1)
      ∙ set_states_view m f unsnapped v (change_geometry w m f v s) in
    (
      ap (λ (o : View). o.maximized) e,
      ap (λ (o : View). o.fullscreen) e,
      ap (λ (o : View). o.snapped) e,
    )
