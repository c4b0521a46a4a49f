-- ===== src/Lock/Stacking.antt =====
-- Which scene node is on top of a locked session: src/lock.cc and `view::apply_state` of src/view.cc.
use steppewm.Base.{ℕ, Bool, true, false, Option, none, some, List, [], ◌∷◌, ◌≡◌, arith}
use steppewm.Wlr.{
  Call, Node, node_raise_to_top, node_place_above, taskbar_raise, taskbar_create,
  osd_show_workspace, osd_show_text, tray_menu_hover, osd_tree, tray_menu_tree, scene_tree,
  lock_tree, node_set_enabled, Wlroots,
}
use steppewm.State.{Server, unsnapped}
use steppewm.Switcher.{cancel}
use steppewm.Window.{
  change_geometry, announce_states, set_states, restack, apply_state, handle_request_fullscreen,
}
use steppewm.Lock.{
  broken_msg_hide, configure_surfaces, cover_layout, update_geometry, take_over, begin_lock,
  on_new_lock,
}

-- What came to the top of the scene: a node, or the taskbar of an output, whose tree is the taskbar's own.
pub data Raised : Type 0 where
  node : Node → Raised
  bar : ℕ → Raised

-- What the last call that moves a node upwards moved: a node is raised, or placed above another one; a
-- taskbar is raised, or created with a new tree on top; the overlay's text is shown, which raises its tree
-- (osd.cc); or the tray's menu is drawn again (tray.cc). The tree of a new window is not in the log.
abbrev pub last_raised : List Call → Option Raised
last_raised [] = none
last_raised (node_raise_to_top n ∷ cs) = some (node n)
last_raised (node_place_above n below ∷ cs) = some (node n)
last_raised (taskbar_raise o ∷ cs) = some (bar o)
last_raised (taskbar_create o ∷ cs) = some (bar o)
last_raised (osd_show_workspace i ∷ cs) = some (node osd_tree)
last_raised (osd_show_text t ∷ cs) = some (node osd_tree)
last_raised (tray_menu_hover ∷ cs) = some (node tray_menu_tree)
last_raised (_ ∷ cs) = last_raised cs

-- What the last call that shows or hides the lock's tree made of it.
abbrev pub lock_shown : List Call → Bool
lock_shown [] = false
lock_shown (node_set_enabled lock_tree b ∷ cs) = b
lock_shown (_ ∷ cs) = lock_shown cs

restack-raises :
    (was : Bool) (v : ℕ) (s : Server)
    → last_raised (restack was true v s).calls ≡ some (node (scene_tree v))
unfolding restack
restack-raises was v s = ground arith

take_over-fields :
    (w : Wlroots) (l : ℕ) (s : Server)
    → ((take_over w l s).locked ≡ true) × ((take_over w l s).lock_msg_tree ≡ false)
unfolding take_over broken_msg_hide cancel
take_over-fields w l s = ground arith

module _ (w : Wlroots) where
  -- A locker that starts while none is running gets the session locked and its tree shown, and the tree
  -- is raised to the top of the scene after everything else that the log has there: nodes, taskbars, the
  -- overlay and the tray's menu.
  pub on_new_lock-covers :
      (l : ℕ) (s : Server)
      → s.cur_lock ≡ none
      → let r = on_new_lock w l s in
        (r.locked ≡ true)
        × (lock_shown r.calls ≡ true)
        × (last_raised r.calls ≡ some (node lock_tree))
  unfolding on_new_lock begin_lock update_geometry cover_layout configure_surfaces
  on_new_lock-covers l s h = ground (arith, take_over-fields w l s)

  -- A client's request to make an initialized window fullscreen raises that window above every other
  -- node, the tree of the session lock included: the state of the lock is not asked.
  handle_request_fullscreen-raises :
      (v : ℕ) (s : Server)
      → (s.store v).initialized ≡ true
      → last_raised (handle_request_fullscreen w true v s).calls ≡ some (node (scene_tree v))
  unfolding handle_request_fullscreen apply_state
  handle_request_fullscreen-raises v s h =
      let s1 = change_geometry w (s.store v).maximized true v s in
      let s2 =
        announce_states (s.store v).maximized true v
          (set_states (s.store v).maximized true unsnapped v s1) in
      ground (arith, restack-raises (s.store v).fullscreen v s2)
