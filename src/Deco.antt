-- ===== src/Deco.antt =====
-- Clicks on a window's decoration: `view::deco_handle_button` (src/deco.cc). The node that was hit is
-- one of the decoration's own, or another one. Times are milliseconds in a `uint32_t`.
pub mod Clicks
pub mod Modes
pub mod Parts
use Prim.Native.Nat.{bit_or}
use steppewm.Base.{
  ℕ, ◌+◌, ◌-◌, ◌%◌, ◌^◌, ltb, Bool, true, false, ◌&&◌, Option, none, some, if◌then◌else◌, ◌==◌,
  points_to,
}
use steppewm.Wlr.{Wlroots, toplevel_send_close}
use steppewm.State.{Server, DecoMode, CursorMode, emit}
use steppewm.Snap.{edge_top, edge_bottom, edge_left, edge_right}
use steppewm.View.{minimize, focus_next}
use steppewm.Window.{toggle_maximize}
use steppewm.Grab.{cursor_begin_interactive}

-- `class deco` (src/view.h); `elsewhere` is any node that is not the window's decoration.
pub data DecoNode : Type 0 where
  titlebar close_button maximize_button minimize_button : DecoNode
  border_left border_right border_bottom border_top : DecoNode
  corner_tl corner_tr corner_bl corner_br : DecoNode
  elsewhere : DecoNode

-- BTN_LEFT of linux/input-event-codes.h.
abbrev pub btn_left : ℕ
btn_left = 0x110

-- `time_msec - s->titlebar_last_click_time`, on 32 bits.
abbrev pub elapsed : ℕ → ℕ → ℕ
elapsed now last = (now + 2 ^ 32 - last) % 2 ^ 32

-- The edges that a border or a corner drags.
unfoldable pub dragged_edges : DecoNode → Option ℕ
dragged_edges corner_tl = some (bit_or edge_top edge_left)
dragged_edges corner_tr = some (bit_or edge_top edge_right)
dragged_edges corner_bl = some (bit_or edge_bottom edge_left)
dragged_edges corner_br = some (bit_or edge_bottom edge_right)
dragged_edges border_left = some edge_left
dragged_edges border_right = some edge_right
dragged_edges border_top = some edge_top
dragged_edges border_bottom = some edge_bottom
dragged_edges _ = none

module _ (w : Wlroots) where
  -- "if it was a double click".
  unfoldable pub is_double_click : Bool → ℕ → ℕ → Server → Bool
  is_double_click left time v s =
      left
      && points_to s.titlebar_last_click_view v
      && ltb (elapsed time s.titlebar_last_click_time) 400

  unfoldable pub click_titlebar : Bool → ℕ → ℕ → Server → Server
  click_titlebar left time v s =
      if is_double_click left time v s
      then record (toggle_maximize w v s) {
        titlebar_last_click_time = 0;
        titlebar_last_click_view = none;
      }
      else cursor_begin_interactive CursorMode.move 0 v (
          if left
          then record s { titlebar_last_click_time = time; titlebar_last_click_view = some v }
          else s)

  unfoldable pub click_edge : Option ℕ → ℕ → Server → Server × Bool
  click_edge none v s = (s, false)
  click_edge (some edges) v s = (cursor_begin_interactive CursorMode.resize edges v s, true)

  -- The ladder of nodes; the result says whether the click was one of the decoration's.
  unfoldable pub click_node : DecoNode → Bool → ℕ → ℕ → Server → Server × Bool
  click_node close_button left time v s = (if left then emit (toplevel_send_close v) s else s, true)
  click_node maximize_button left time v s = (if left then toggle_maximize w v s else s, true)
  click_node minimize_button left time v s =
      (if left then focus_next w (some v) (minimize true v s) else s, true)
  click_node titlebar left time v s = (click_titlebar left time v s, true)
  click_node node left time v s = click_edge (dragged_edges node) v s

  unfoldable pub click_decoration : DecoMode → DecoNode → Bool → ℕ → ℕ → Server → Server × Bool
  click_decoration DecoMode.server node left time v s = click_node node left time v s
  click_decoration DecoMode.client node left time v s = (s, false)

  -- `view::deco_handle_button`.
  unfoldable pub deco_handle_button : DecoNode → ℕ → ℕ → ℕ → Server → Server × Bool
  deco_handle_button node button time v s =
      click_decoration (s.store v).decoration_mode node (button == btn_left) time v s
