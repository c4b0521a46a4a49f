-- ===== src/Layer/Create.antt =====
-- New layer surfaces: `layer_surface::on_new`, `on_commit` and `configure` of src/layer.cc.
use steppewm.Base.{
  ℕ, pos, leb_ℤ, ltb_ℤ, Bool, ◌||◌, Option, none, some, List, [], ◌∷◌, ◌==◌, if◌then◌else◌,
}
use steppewm.Wlr.{
  Wlroots, Call, layer_tree, node_raise_to_top, node_set_position, node_lower_to_bottom,
  node_place_above, layer_surface_destroy, layer_surface_create, layer_surface_configure,
}
use steppewm.State.{Output, Server, emit, log}
use steppewm.Output.{find_for_wlr_output}

-- `ZWLR_LAYER_SHELL_V1_LAYER_*`; TOP is 2 and OVERLAY is 3.
abbrev pub background_layer : ℕ
background_layer = 0

abbrev pub bottom_layer : ℕ
bottom_layer = 1

-- "assign an output if the client didn't request a specific one".
unfoldable pub requested_output : Option ℕ → List Output → Option ℕ
requested_output (some o) os = some o
requested_output none [] = none
requested_output none (o ∷ os) = some o.wlr_output

-- Where the tree of a layer goes in the stack.
unfoldable pub stack_tree : Output → ℕ → Call
stack_tree o layer =
    let tree = layer_tree o.wlr_output layer in
    let background = layer_tree o.wlr_output background_layer in
    if layer == background_layer
    then node_lower_to_bottom tree
    else if layer == bottom_layer
    then if o.layer_trees background_layer
      then node_place_above tree background
      else node_lower_to_bottom tree
    else node_raise_to_top tree

unfoldable pub with_tree : ℕ → Output → Output
with_tree layer o = record o { layer_trees = λ i. i == layer || o.layer_trees i }

-- The output with the address gets the layer's tree.
unfoldable pub add_tree : ℕ → ℕ → List Output → List Output
add_tree out layer [] = []
add_tree out layer (o ∷ os) =
    if o.wlr_output == out then with_tree layer o ∷ os else o ∷ add_tree out layer os

module _ (w : Wlroots) where
  -- "align the layer tree with the output's position".
  unfoldable pub align_tree : Output → ℕ → List Call → List Call
  align_tree o layer cs =
      let box = w.get_box cs (some o.wlr_output) in
      if ltb_ℤ (pos 0) box.width
      then node_set_position (layer_tree o.wlr_output layer) box.x box.y ∷ cs
      else cs

  -- "each output has one scene tree per layer".
  unfoldable pub create_tree : Output → ℕ → Server → Server
  create_tree o layer s =
      if o.layer_trees layer
      then s
      else log (λ cs. align_tree o layer (stack_tree o layer ∷ cs))
          (record s { outputs = add_tree o.wlr_output layer s.outputs })

  unfoldable pub create_surface : ℕ → ℕ → Option Output → Server → Server × Option ℕ
  create_surface ls layer none s = (emit (layer_surface_destroy ls) s, none)
  create_surface ls layer (some o) s =
      (emit (layer_surface_create ls o.wlr_output layer) (create_tree o layer s), some o.wlr_output)

  -- `on_new`, for a layer surface, the output that it asks for and its layer; the output that it is on.
  unfoldable pub on_new : ℕ → Option ℕ → ℕ → Server → Server × Option ℕ
  on_new ls output layer s =
      create_surface ls layer (find_for_wlr_output s.outputs (requested_output output s.outputs)) s

  -- `configure`.
  unfoldable pub configure : ℕ → ℕ → Server → Server
  configure ls out s =
      let box = w.get_box s.calls (some out) in
      if leb_ℤ box.width (pos 0) || leb_ℤ box.height (pos 0)
      then s
      else emit (layer_surface_configure ls box.width box.height) s

  -- `on_commit`.
  unfoldable pub on_commit : Bool → ℕ → ℕ → Server → Server
  on_commit initial_commit ls out s = if initial_commit then configure ls out s else s
