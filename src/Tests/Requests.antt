-- ===== src/Tests/Requests.antt =====
-- The theorems on activation requests, on the small desktop: window 1 has the keyboard, window 3 is on the
-- other workspace.
use steppewm.Base.{false, some, refl, not, ◌||◌}
use steppewm.Wlr.{other}
use steppewm.State.{Server}
use steppewm.Lifecycle.Requests.{
  above, view_of, from_surface, token_valid, is_view_focused, handle_activation_request,
}
use steppewm.Lifecycle.Activation.{IsMarked, handle_activation_request-refused}
use steppewm.Tests.{wlr, root, bad_token, desk}

abbrev calm : Server
calm = record desk { store = λ v. record (desk.store v) { urgent = false } }

handle_activation_request-refused_example :
    IsMarked 3
      ((calm.store 3).urgent || not (is_view_focused wlr root 3 calm))
      calm
      (handle_activation_request wlr root (some (other 70)) bad_token calm)
unfolding from_surface above view_of token_valid
handle_activation_request-refused_example =
    handle_activation_request-refused wlr root (some (other 70)) bad_token 3 calm refl refl refl
