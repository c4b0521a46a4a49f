-- ===== src/State.antt =====
-- The state that the handlers share: `class view` (src/view.h), `class output` (src/output.h), the
-- switcher (src/switcher.h), and of `class server` (src/server.h) the fields that the modelled code
-- reads. An object is known by its address, a natural number; `store` maps addresses to windows, and a
-- pointer that may be null is an `Option`. A position is an `int`; the cursor's, a `double` in the
-- source, is an integer count of 256ths of a layout pixel.
use Prim.Native.String.{String}
use steppewm.Base.{ℕ, ℤ, Bool, not, ◌&&◌, ◌||◌, Option, List, [], ◌∷◌, ◌==◌, if◌then◌else◌}
use steppewm.Wlr.{Box, Surface, Call, Node, node_set_position, scene_tree, xdg_tree}

pub data DecoMode : Type 0 where
  server client : DecoMode

-- `enum class snap_edge`; `unsnapped` is its NONE.
pub data SnapEdge : Type 0 where
  unsnapped left right top_left top_right bottom_left bottom_right : SnapEdge

pub data CursorMode : Type 0 where
  passthrough move resize : CursorMode

pub data TaskbarPos : Type 0 where
  bottom top : TaskbarPos

-- `class view`, with what wlroots keeps of its toplevel: `initialized`, `geometry` and the requested
-- states. `x`, `y` are the position of the window's scene node, `xdg_x`, `xdg_y` that of the content
-- inside it. `has_data` says that the toplevel's `data` still points to the window.
pub record View : Type 0 where
  pub decoration_mode : DecoMode
  pub pending_deco : Bool
  pub maximized : Bool
  pub fullscreen : Bool
  pub minimized : Bool
  pub urgent : Bool
  pub mapped : Bool
  pub pinned : Bool
  pub workspace : ℕ
  pub snapped : SnapEdge
  pub saved_geo : Box
  pub foreign_handle : Bool
  pub foreign_ext_handle : Bool
  pub initial_configure_idle : Bool
  pub initialized : Bool
  pub has_data : Bool
  pub geometry : Box
  pub x : ℤ
  pub y : ℤ
  pub xdg_x : ℤ
  pub xdg_y : ℤ

-- `class output`: whether it is in the scene, whether it has a taskbar, and which of its four layer
-- trees exist.
pub record Output : Type 0 where
  pub wlr_output : ℕ
  pub scene_output : Bool
  pub dpms_off : Bool
  pub output_taskbar : Bool
  pub layer_trees : ℕ → Bool

pub record Switcher : Type 0 where
  pub views : List ℕ
  pub selected : ℕ
  pub mods : ℕ

pub record Inhibitor : Type 0 where
  pub address : ℕ
  pub surface : Surface
  pub surface_mapped : Bool

-- `class config` (src/config.h): what the modelled handlers read. `pins` are the pinned apps' ids.
pub record Config : Type 0 where
  pub title_h : ℤ
  pub border_w : ℤ
  pub taskbar_h : ℤ
  pub taskbar_position : TaskbarPos
  pub taskbar_all_outputs : Bool
  pub taskbar_all_workspaces : Bool
  pub taskbar_button_w : ℤ
  pub taskbar_button_pad : ℤ
  pub pins : List String

-- The move/resize grab of `class server`.
pub record Grab : Type 0 where
  pub mode : CursorMode
  pub grabbed_view : Option ℕ
  pub grab_x : ℤ
  pub grab_y : ℤ
  pub geobox : Box
  pub resize_edges : ℕ
  pub restore_pending : Bool
  pub start_x : ℤ
  pub start_y : ℤ

-- `class server`. `views` is its window list, the most recently focused window first.
pub record Server : Type 0 where
  pub store : ℕ → View
  pub views : List ℕ
  pub outputs : List Output
  pub cascade_n : ℕ
  pub cascade_x : ℕ
  pub current_workspace : ℕ
  pub max_visible_workspace : ℕ
  pub focused_layer : Option ℕ
  pub sw : Option Switcher
  pub cursor_x : ℤ
  pub cursor_y : ℤ
  pub inhibitors : List Inhibitor
  pub idle_inhibit_manual : Bool
  pub cur_lock : Option ℕ
  pub lock_msg_tree : Bool
  pub locked : Bool
  pub grab : Grab
  pub titlebar_last_click_time : ℕ
  pub titlebar_last_click_view : Option ℕ
  pub hovered_deco_node : Option Node
  pub hovered_deco_view : Option ℕ
  pub osd_overlay : Bool
  pub cfg : Config
  pub calls : List Call

-- `num_workspaces` (src/config.h).
abbrev pub num_workspaces : ℕ
num_workspaces = 9

abbrev pub emit : Call → Server → Server
emit c s = record s { calls = c ∷ s.calls }

-- `if (b) call();`
abbrev pub emit_if : Bool → Call → Server → Server
emit_if b c s = record s { calls = if b then c ∷ s.calls else s.calls }

-- Runs a loop that only makes calls.
abbrev pub log : (List Call → List Call) → Server → Server
log f s = record s { calls = f s.calls }

-- Assigns to the fields of one window.
abbrev pub update : ℕ → (View → View) → (ℕ → View) → ℕ → View
update v f st w = if w == v then f (st w) else st w

abbrev pub modify : ℕ → (View → View) → Server → Server
modify v f s = record s { store = update v f s.store }

-- `wlr_scene_node_set_position` on a window's nodes; the source reads the position back.
abbrev pub move_window : ℕ → ℤ → ℤ → Server → Server
move_window v x y s =
    emit (node_set_position (scene_tree v) x y) (modify v (λ o. record o { x = x; y = y }) s)

abbrev pub move_content : ℕ → ℤ → ℤ → Server → Server
move_content v x y s =
    emit (node_set_position (xdg_tree v) x y) (modify v (λ o. record o { xdg_x = x; xdg_y = y }) s)

-- The window is shown: not minimized, and pinned or on the current workspace.
abbrev pub is_shown : View → ℕ → Bool
is_shown v current = not v.minimized && (v.pinned || v.workspace == current)

-- `taskbar::refresh_taskbars` (src/taskbar.cc): every taskbar is drawn again.
abbrev pub refresh_outputs : List Output → List Call → List Call
refresh_outputs [] cs = cs
refresh_outputs (o ∷ os) cs =
    refresh_outputs os (if o.output_taskbar then Call.taskbar_refresh o.wlr_output ∷ cs else cs)

abbrev pub refresh_taskbars : Server → Server
refresh_taskbars s = log (refresh_outputs s.outputs) s
