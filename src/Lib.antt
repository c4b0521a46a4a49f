-- ===== src/Lib.antt =====
-- A model of the window management of steppewm, a Wayland compositor on wlroots, and the theorems that
-- its handlers do what they are for.
--
-- The program is one `server` object (src/server.h) and handlers that wlroots calls one after the other
-- in a single thread: a window maps or goes, a client asks for a state, a key or a button is pressed, a
-- locker starts. Each handler is a function on the record `Server` here, whole, with its guards; a
-- handler that calls another one is the composition of the two. Only the volume has a thread of its own:
-- there the steps of the two threads are a relation on states.
--
--   Base       the library's names passed on, Boolean tests, lists of addresses, integers.
--   Wlr        what the code sees of wlroots: boxes, surfaces, scene nodes, and the calls made to it.
--   State      src/server.h, src/view.h, src/output.h: the records `Server`, `View` and `Output`, and the
--              few writes that all parts share.
--   Idle       `idle_inhibitor::visible` and `update` of src/input.cc.
--   Switcher   src/switcher.cc, the Alt-Tab overlay, its panel and its rows.
--   Output     src/output.cc: the usable area, which output has a taskbar, the choice of a mode, and the
--              configuration of outputs that come, go or move.
--   Snap       the snap zones of `view::snap_to` (src/view.cc) and `detect_snap` (src/input.cc).
--   View       src/view.cc: visibility, minimizing, urgency, stacking, `focus` and `focus_next`.
--   Window     src/view.cc: `snap_to`, `apply_state` and the requests that lead to them.
--   Workspace  src/view.cc: `workspace_switch` and `move_to_workspace`.
--   Placement  src/view.cc: `place`, the cascade of new windows.
--   Lifecycle  src/view.cc: map, unmap, commit, destroy, minimize and activation requests, new windows, icons.
--   Layer      src/layer.cc: layer surfaces, new ones and the keyboard of them.
--   Popup      src/view.cc: the popups of windows, and where they may stand.
--   Lock       src/lock.cc: the session lock and its surfaces.
--   Grab       src/input.cc: moving and resizing with the pointer.
--   Deco       src/deco.cc: `deco_handle_button`, where the parts of a decoration stand, and the mode that
--              a client asks for.
--   Scene      `view::at` of src/view.cc and `view::deco_at` of src/deco.cc: what is under a point.
--   Pointer    src/input.cc: presses, the wheel, the pointer's motion and its constraints.
--   Dispatch   src/input.cc: the actions of key and switch bindings.
--   Keyboard   src/input.cc: key events, modifiers and the layout's name.
--   Devices    src/input.cc, src/tablet.cc: devices that come and go, and their settings.
--   Tablet     src/tablet.cc: the events of a tablet's tool and of its pad.
--   Taskbar    src/taskbar.cc: which windows and launchers the bar shows, where everything on it stands, what
--              stands at a point, and what the indicators read.
--   Tray       src/tray.cc: the items of the tray, the menu of an item, and their icons.
--   Volume     src/volume.cc: what PulseAudio's thread reports and the main thread shows, step by step.
--   Settings   src/config.cc: the defaults, the Lua file with its calls and globals, the theme's file, the
--              commands to start, and `reload`; `resolve_name` and `get_dims` of src/theme.cc.
--   Osd        src/osd.cc: when the on-screen display shows, and where.
--   Start      src/main.cc: the environment, the display for X, the command line.
--   Tests      a small desktop, on which each theorem is applied.
--
-- wlroots is not part of the repository. Its state is a function of the log of the calls made so far
-- (`calls`, the newest first), and the record `Wlroots` holds the functions that the code reads back:
-- the focused surfaces, the output at a point, an output's box. `IsSeat` and `IsLayout` state what is
-- documented of the keyboard focus and of the output layout; they are hypotheses where they are used.
--
-- A window is known by its address, a natural number, and `store` maps addresses to windows; a list of
-- windows is a list of addresses. An `int` is an unbounded integer, since an overflow of it is undefined;
-- the 32-bit times wrap around. The cursor's `double` coordinates are counts of 256ths of a pixel, the
-- resolution of a `wl_fixed_t`, with exact arithmetic, and the sizes of fonts are exact fractions of a pixel; a cast to `int` truncates. Every loop runs
-- over a list, a fixed number of times, or up a chain of parents, but for one, which is given fuel.
--
-- The configuration stands beside the server: `Config` of State holds the few settings that the window
-- handlers read, `Settings` the whole of `class config`. Lua, libc and xkbcommon are the functions of `Env`;
-- what a Lua file does is the list of its calls, whether it then fails, and its globals. The texts of a bar
-- or of a menu are known by their widths.
--
-- D-Bus is known by what it answers, the record `Bus`; an asynchronous reply is a call of the function that
-- receives it, at any later time. The search for an icon reads the file system through `Files`, which does
-- not change during a run. The loop over XDG_DATA_DIRS runs on fuel, as many rounds as the text has bytes,
-- which is enough since each round takes a byte at least.
--
-- Not modelled: drawing (src/paint.cc, most of src/theme.cc, and the buffers of src/taskbar.cc, src/deco.cc,
-- src/switcher.cc, src/osd.cc and src/tray.cc), of which a call of the log remains; what the indicators of the
-- bar read on other systems than Linux; the set-up of the D-Bus service and of the connection to PulseAudio;
-- the set-up of wlroots in src/main.cc. The scene node at a point is found by wlroots: Scene goes on from it,
-- and Pointer and Tablet take what is found as an argument. Frames and gamma tables are passed on to wlroots.
pub mod Base
pub mod Wlr
pub mod State
pub mod Idle
pub mod Switcher
pub mod Output
pub mod Snap
pub mod View
pub mod Window
pub mod Workspace
pub mod Placement
pub mod Lifecycle
pub mod Layer
pub mod Lock
pub mod Grab
pub mod Deco
pub mod Dispatch
pub mod Tests
pub mod Devices
pub mod Keyboard
pub mod Osd
pub mod Pointer
pub mod Popup
pub mod Scene
pub mod Settings
pub mod Start
pub mod Tablet
pub mod Taskbar
pub mod Tray
pub mod Volume
