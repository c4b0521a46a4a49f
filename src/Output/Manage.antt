-- ===== src/Output/Manage.antt =====
-- Outputs that go, move, or are configured by another program: `on_destroy`, `on_layout_change`,
-- `on_power_set_mode` and the requests of output managers in src/output.cc.
use steppewm.Base.{
  ℕ, ℤ, pos, leb_ℤ, Bool, true, false, not, ◌&&◌, Option, none, some, List, [], ◌∷◌, ◌==◌,
  if◌then◌else◌, for_each, points_to,
}
use steppewm.Wlr.{
  Wlroots, Call, layer_tree, node_set_position, node_destroy, taskbar_delete,
  taskbar_update_geometry, taskbar_raise, output_commit, layer_surfaces_configure,
  broadcast_output_config, output_config_answer,
}
use steppewm.State.{Output, Server, emit, log}
use steppewm.Layer
use steppewm.Lock
use steppewm.Lock.{LockSurface}
use steppewm.Output.{ensure_taskbars}
use steppewm.Output.Configure.{on_trees, turn_on, turn_off}

-- A layer surface that goes with its output; it is unmapped first if it is mapped.
pub record LayerSurface : Type 0 where
  pub address : ℕ
  pub mapped : Bool

unfoldable pub without : ℕ → List Output → List Output
without out [] = []
without out (o ∷ os) = let rest = without out os in if o.wlr_output == out then rest else o ∷ rest

unfoldable pub without_taskbar : ℕ → List Output → List Output
without_taskbar out [] = []
without_taskbar out (o ∷ os) =
    (if o.wlr_output == out then record o { output_taskbar = false } else o)
    ∷ without_taskbar out os

unfoldable pub place_output : Wlroots → Output → List Call → List Call
place_output w o cs =
    let box = w.get_box cs (some o.wlr_output) in
    let cs1 = on_trees (λ i. node_set_position (layer_tree o.wlr_output i) box.x box.y) o cs in
    let cs2 = layer_surfaces_configure o.wlr_output ∷ cs1 in
    if leb_ℤ box.width (pos 0)
    then cs
    else if o.output_taskbar
    then taskbar_raise o.wlr_output ∷ taskbar_update_geometry o.wlr_output ∷ cs2
    else cs2

unfoldable pub set_dpms : Option ℕ → Bool → List Output → List Output
set_dpms out dark [] = []
set_dpms out dark (o ∷ os) =
    if points_to out o.wlr_output
    then record o { dpms_off = dark } ∷ os
    else o ∷ set_dpms out dark os

-- A head of a manager's configuration.
pub record Head : Type 0 where
  pub output : ℕ
  pub enabled : Bool
  pub x : ℤ
  pub y : ℤ

-- One head, on the output that it is about.
unfoldable pub apply_head : Head → List Output → List Call → List Output × List Call
apply_head h [] cs = ([], cs)
apply_head h (o ∷ os) cs =
    let r = if h.enabled then turn_on (some (h.x, h.y)) o cs else turn_off o cs in
    let (os', cs') = apply_head h os cs in
    if o.wlr_output == h.output then (r.output ∷ os, r.calls) else (o ∷ os', cs')

unfoldable pub apply_heads : List Head → List Output → List Call → List Output × List Call
apply_heads [] os cs = (os, cs)
apply_heads (h ∷ hs) os cs = let (os', cs') = apply_head h os cs in apply_heads hs os' cs'

-- `on_output_mgr_test`; a configuration of which no states can be built is refused.
unfoldable pub on_output_mgr_test : Bool → Bool → Server → Server
on_output_mgr_test built passes s = emit (output_config_answer (built && passes)) s

-- `on_output_mgr_apply`, likewise, for a commit that succeeds or not.
unfoldable pub on_output_mgr_apply : Bool → Bool → List Head → Server → Server
on_output_mgr_apply built committed hs s =
    let (os, cs) = apply_heads hs s.outputs s.calls in
    if built && committed
    then emit (output_config_answer true) (ensure_taskbars (record s { outputs = os; calls = cs }))
    else emit (output_config_answer false) s

-- `on_power_set_mode`.
unfoldable pub on_power_set_mode : ℕ → Bool → Server → Server
on_power_set_mode out on s =
    emit (output_commit out on none false none)
      (record s { outputs = set_dpms (some out) (not on) s.outputs })

module _ (w : Wlroots) where
  unfoldable pub close_layer : LayerSurface → Server → Server
  close_layer ls s =
      Layer.on_destroy ls.address (if ls.mapped then Layer.on_unmap w ls.address s else s)

  -- `on_destroy`, with the output's layer surfaces.
  unfoldable pub on_destroy : List LayerSurface → Output → Server → Server
  on_destroy surfaces o s =
      let s0 = record s { outputs = without_taskbar o.wlr_output s.outputs } in
      let s1 = if o.output_taskbar then emit (taskbar_delete o.wlr_output) s0 else s0 in
      let s2 = for_each close_layer surfaces s1 in
      let s3 = log (on_trees (λ i. node_destroy (layer_tree o.wlr_output i)) o) s2 in
      emit broadcast_output_config (record s3 { outputs = without o.wlr_output s3.outputs })

  -- `on_layout_change`.
  unfoldable pub on_layout_change : List LockSurface → Server → Server
  on_layout_change surfaces s =
      emit broadcast_output_config
        (Lock.update_geometry w surfaces (log (for_each (place_output w) s.outputs) s))
