-- ===== src/Output/Configure.antt =====
-- Configuring outputs: `apply_config`, `reconfigure_all`, `on_new` of src/output.cc.
use Prim.Native.String.{String}
use steppewm.Base.{
  ℕ, ℤ, pos, pos_part, ltb_ℤ, Bool, true, false, not, ◌&&◌, ◌||◌, Option, none, some, List, [], ◌∷◌,
  if◌then◌else◌, is_some,
}
use steppewm.Wlr.{
  Call, layer_tree, node_set_enabled, taskbar_create, taskbar_delete, output_commit,
  output_layout_add, output_layout_remove, scene_output_create, output_init_render,
}
use steppewm.State.{Output, Server}
use steppewm.Output.{any_taskbar, create_taskbar, ensure_taskbars}
use steppewm.Output.Modes.{Mode, ModeConfig, pick_mode}
use steppewm.Settings.{Env, OutputConfig}
use steppewm.Settings.Outputs.{find_output}

-- What the backend tells of an output, and whether a commit succeeds: of the configured state, and of a
-- change of power.
pub record Backend : Type 0 where
  pub name : ℕ → String
  pub modes : ℕ → List Mode
  pub preferred_mode : ℕ → Option Mode
  pub commits : List Call → ℕ → Bool

-- The state that `apply_config` builds: the mode by its size and rate, the scale and the transform.
pub record OutputState (F : Type 0) : Type 0 where
  pub enabled : Bool
  pub mode : Option (ℤ × ℤ × ℤ)
  pub scale : Option F
  pub transform : Option ℕ

abbrev pub numbers_of : Option Mode → Option (ℤ × ℤ × ℤ)
numbers_of none = none
numbers_of (some m) = some (pos m.width, pos m.height, m.refresh)

-- The four layer trees of an output, those that exist.
unfoldable pub on_trees : (ℕ → Call) → Output → List Call → List Call
on_trees f o cs =
    let step = λ (i : ℕ) (ds : List Call). if o.layer_trees i then f i ∷ ds else ds in
    step 3 (step 2 (step 1 (step 0 cs)))

abbrev pub show_trees : Bool → Output → List Call → List Call
show_trees b o cs = on_trees (λ i. node_set_enabled (layer_tree o.wlr_output i) b) o cs

-- An output and the log.
pub record Applied : Type 0 where
  pub output : Output
  pub calls : List Call

-- What happens to an output that is turned off.
unfoldable pub turn_off : Output → List Call → Applied
turn_off o cs =
    let cs1 = if o.output_taskbar then taskbar_delete o.wlr_output ∷ cs else cs in
    record {
      output = record o { output_taskbar = false; scene_output = false };
      calls = output_layout_remove o.wlr_output ∷ show_trees false o cs1;
    }

-- An output that is on is put into the layout, and into the scene.
unfoldable pub turn_on : Option (ℤ × ℤ) → Output → List Call → Applied
turn_on place o cs =
    let cs1 = output_layout_add o.wlr_output place ∷ show_trees true o cs in
    record {
      output = record o { scene_output = true };
      calls = if o.scene_output then cs1 else scene_output_create o.wlr_output ∷ cs1;
    }

module _ {F : Type 0} (env : Env F) (b : Backend) (cfgs : List (OutputConfig F)) where
  abbrev pub is_enabled : Option (OutputConfig F) → Bool
  is_enabled none = true
  is_enabled (some oc) = oc.enabled

  -- "find mode if a resolution was supplied": a mode that fits, or else a custom one.
  unfoldable pub custom_or : Option Mode → OutputConfig F → Option (ℤ × ℤ × ℤ)
  custom_or none oc = some (oc.width, oc.height, oc.refresh_mhz)
  custom_or (some m) oc = numbers_of (some m)

  unfoldable pub wanted_mode : ℕ → Option (OutputConfig F) → Option (ℤ × ℤ × ℤ)
  wanted_mode out none = numbers_of (b.preferred_mode out)
  wanted_mode out (some oc) =
      let asked : ModeConfig = record {
        width = pos_part oc.width;
        height = pos_part oc.height;
        refresh_mhz = oc.refresh_mhz;
      } in
      if ltb_ℤ (pos 0) oc.width
      then custom_or (pick_mode asked (b.modes out)) oc
      else numbers_of (b.preferred_mode out)

  abbrev pub wanted_scale : Option (OutputConfig F) → Option F
  wanted_scale none = none
  wanted_scale (some oc) = if env.is_positive oc.scale then some oc.scale else none

  abbrev pub wanted_transform : Option (OutputConfig F) → Option ℕ
  wanted_transform none = none
  wanted_transform (some oc) = oc.transform

  unfoldable pub wanted_state : ℕ → Option (OutputConfig F) → OutputState F
  wanted_state out oc =
      if is_enabled oc
      then record {
        enabled = true;
        mode = wanted_mode out oc;
        scale = wanted_scale oc;
        transform = wanted_transform oc;
      }
      else record { enabled = false; mode = none; scale = none; transform = none }

  unfoldable pub commit_state : ℕ → OutputState F → List Call → List Call
  commit_state out st cs = output_commit out st.enabled st.mode (is_some st.scale) st.transform ∷ cs

  -- The configured state, and the preferred mode if it is refused.
  unfoldable pub commit_wanted : ℕ → Option (OutputConfig F) → List Call → List Call
  commit_wanted out oc cs =
      let cs1 = commit_state out (wanted_state out oc) cs in
      let fallback : OutputState F = record {
        enabled = true;
        mode = numbers_of (b.preferred_mode out);
        scale = none;
        transform = none;
      } in
      if not (b.commits cs1 out) && is_enabled oc then commit_state out fallback cs1 else cs1

  abbrev pub position_of : Option (OutputConfig F) → Option (ℤ × ℤ)
  position_of none = none
  position_of (some oc) = if oc.has_position then some (oc.x, oc.y) else none

  -- `apply_config`.
  unfoldable pub apply_config : Output → List Call → Applied
  apply_config o cs =
      let oc = find_output (b.name o.wlr_output) cfgs in
      let cs1 = commit_wanted o.wlr_output oc cs in
      if is_enabled oc then turn_on (position_of oc) o cs1 else turn_off o cs1

  unfoldable pub apply_all : List Output → List Call → List Output × List Call
  apply_all [] cs = ([], cs)
  apply_all (o ∷ os) cs =
      let r = apply_config o cs in let (os', cs') = apply_all os r.calls in (r.output ∷ os', cs')

  -- `reconfigure_all`.
  unfoldable pub reconfigure_all : Server → Server
  reconfigure_all s =
      let (os, cs) = apply_all s.outputs s.calls in
      ensure_taskbars (record s { outputs = os; calls = cs })

  -- A new output, before it is configured.
  abbrev pub fresh_output : ℕ → Output
  fresh_output out = record {
    wlr_output = out;
    scene_output = false;
    dpms_off = false;
    output_taskbar = false;
    layer_trees = λ i. false;
  }

  -- `on_new`: the output comes first in the list, with a taskbar if it is to have one.
  unfoldable pub on_new : ℕ → Server → Server
  on_new out s =
      let wants =
        is_enabled (find_output (b.name out) cfgs)
        && (s.cfg.taskbar_all_outputs || not (any_taskbar s.outputs)) in
      let cs = output_init_render out ∷ s.calls in
      let cs1 = if wants then create_taskbar s.views out (taskbar_create out ∷ cs) else cs in
      let r = apply_config (record (fresh_output out) { output_taskbar = wants }) cs1 in
      record s { outputs = r.output ∷ s.outputs; calls = r.calls }
