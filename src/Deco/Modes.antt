-- ===== src/Deco/Modes.antt =====
-- The decoration that a client asks for: `view::deco_new`, `deco_request_mode` and `deco_handle_destroy` of src/deco.cc.
use steppewm.Base.{ℕ, Bool, true, false, not, Option, none, some, ◌==◌, if◌then◌else◌}
use steppewm.Wlr.{decoration_set_mode_server}
use steppewm.State.{Server, modify, emit}

-- The server with `view::decoration` of each window.
pub record Decorated : Type 0 where
  pub srv : Server
  pub decoration : ℕ → Option ℕ

abbrev pub mark_pending : Bool → ℕ → Server → Server
mark_pending pending v s = modify v (λ o. record o { pending_deco = pending }) s

-- `deco_request_mode`: the mode is put off until the window can be configured.
unfoldable pub deco_request_mode : ℕ → Server → Server
deco_request_mode v s =
    if not (s.store v).initialized
    then mark_pending true v s
    else emit (decoration_set_mode_server v) s

unfoldable pub with_decoration : ℕ → Option ℕ → Bool → Decorated → Decorated
with_decoration v d pending k = record {
  srv = mark_pending pending v k.srv;
  decoration = λ u. if u == v then d else k.decoration u;
}

-- `deco_new`, with the decoration's address.
unfoldable pub deco_new : ℕ → ℕ → Decorated → Decorated
deco_new v d k = if (k.srv.store v).has_data then with_decoration v (some d) true k else k

-- `deco_handle_destroy`.
unfoldable pub deco_handle_destroy : ℕ → Decorated → Decorated
deco_handle_destroy v k = with_decoration v none false k
