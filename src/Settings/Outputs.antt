-- ===== src/Settings/Outputs.antt =====
-- The configuration of outputs: `lua_output`, `parse_transform` and `find_output` of src/config.cc.
use Prim.Native.String.{String}
use text.Mathlib.Text.{◌==◌ as str_eq}
use steppewm.Base.{
  ℕ, ℤ, pos, leb, leb_ℤ, Bool, true, false, not, ◌&&◌, ◌||◌, Option, none, some, List, [], ◌∷◌,
  if◌then◌else◌, length, find, is_some,
}
use steppewm.Settings.{Env, OutputConfig, Settings}
use steppewm.Settings.Read.{wrap_int, or_old}
use steppewm.Settings.Calls.{Called, max_output_cfgs}

-- The fields of the table that `output` is called with; `position` is a table's first two elements as
-- integers, if they are numbers.
pub record OutputTable (F : Type 0) : Type 0 where
  pub mode : Option String
  pub position : Option (Option ℤ × Option ℤ)
  pub scale : Option F
  pub transform : Option String
  pub enabled : Option Bool

-- An output's entry after a step, and whether the step raised a Lua error.
pub record Entry (F : Type 0) : Type 0 where
  pub oc : OutputConfig F
  pub raised : Bool

-- `config::find_output`.
unfoldable pub find_output : {F : Type 0} → String → List (OutputConfig F) → Option (OutputConfig F)
find_output name os = find (λ o. str_eq o.name name) os

module _ {F : Type 0} (env : Env F) where
  -- `WL_OUTPUT_TRANSFORM_NORMAL` to `_FLIPPED_270` are 0 to 7.
  unfoldable pub parse_transform : String → Option ℕ
  parse_transform s =
      if env.same_ignoring_case s "normal" || str_eq s "0"
      then some 0
      else if str_eq s "90"
      then some 1
      else if str_eq s "180"
      then some 2
      else if str_eq s "270"
      then some 3
      else if env.same_ignoring_case s "flipped"
      then some 4
      else if env.same_ignoring_case s "flipped-90"
      then some 5
      else if env.same_ignoring_case s "flipped-180"
      then some 6
      else if env.same_ignoring_case s "flipped-270"
      then some 7
      else none

  -- A new slot: all fields zero, but for the name, the transform and `enabled`.
  unfoldable pub fresh : String → OutputConfig F
  fresh name = record {
    name = env.cut 63 name;
    width = pos 0;
    height = pos 0;
    refresh_mhz = pos 0;
    has_position = false;
    x = pos 0;
    y = pos 0;
    scale = env.hundredths 0;
    transform = none;
    enabled = true;
  }

  -- `sscanf` writes the numbers that it reads, also where the mode is then refused.
  unfoldable pub set_mode : Option ℤ × Option ℤ × Option F → OutputConfig F → Entry F
  set_mode (width, height, hz) o =
      let o1 = record o { width = or_old width o.width; height = or_old height o.height } in
      if not (is_some width && is_some height) || leb_ℤ o1.width (pos 0) || leb_ℤ o1.height (pos 0)
      then record { oc = o1; raised = true }
      else record {
        oc = record o1 { refresh_mhz = env.to_mhz (or_old hz (env.hundredths 0)) };
        raised = false;
      }

  unfoldable pub read_mode : Option String → OutputConfig F → Entry F
  read_mode none o = record { oc = o; raised = false }
  read_mode (some s) o = set_mode (env.scan_mode s) o

  unfoldable pub read_position : Option (Option ℤ × Option ℤ) → OutputConfig F → Entry F
  read_position none o = record { oc = o; raised = false }
  read_position (some (some x, some y)) o = record {
    oc = record o { x = wrap_int x; y = wrap_int y; has_position = true };
    raised = false;
  }
  read_position (some (x, y)) o = record { oc = o; raised = true }

  unfoldable pub read_scale : Option F → OutputConfig F → Entry F
  read_scale none o = record { oc = o; raised = false }
  read_scale (some f) o = record { oc = record o { scale = f }; raised = not (env.is_positive f) }

  unfoldable pub read_transform : Option String → OutputConfig F → Entry F
  read_transform none o = record { oc = o; raised = false }
  read_transform (some s) o =
      let t = parse_transform s in
      record { oc = record o { transform = t }; raised = not (is_some t) }

  -- The next step, unless an error was raised.
  unfoldable pub and_then : Entry F → (OutputConfig F → Entry F) → Entry F
  and_then e next = if e.raised then e else next e.oc

  unfoldable pub read_enabled : Option Bool → OutputConfig F → Entry F
  read_enabled b o = record { oc = record o { enabled = or_old b o.enabled }; raised = false }

  -- The fields of the table, read into one entry.
  unfoldable pub read_entry : OutputTable F → OutputConfig F → Entry F
  read_entry t o =
      and_then
        (and_then
          (and_then (and_then (read_mode t.mode o) (read_position t.position)) (read_scale t.scale))
          (read_transform t.transform))
        (read_enabled t.enabled)

  -- The first entry with the name is written; if there is none, a new one at the end.
  unfoldable pub put_output :
      String → (OutputConfig F → Entry F) → List (OutputConfig F) → List (OutputConfig F)
  put_output name f [] = (f (fresh name)).oc ∷ []
  put_output name f (o ∷ os) =
      let rest = put_output name f os in if str_eq o.name name then (f o).oc ∷ os else o ∷ rest

  -- The entry that is written.
  unfoldable pub entry_for : String → List (OutputConfig F) → OutputConfig F
  entry_for name os = or_old (find_output name os) (fresh name)

  -- `output(name, table)`.
  unfoldable pub lua_output : Option String → Option (OutputTable F) → Settings F → Called F
  lua_output (some name) (some t) c =
      let os = c.output_cfgs in
      if not (is_some (find_output name os)) && leb max_output_cfgs (length os)
      then record { cfg = c; raised = true }
      else record {
        cfg = record c { output_cfgs = put_output name (read_entry t) os };
        raised = (read_entry t (entry_for name os)).raised;
      }
  lua_output _ _ c = record { cfg = c; raised = true }
