-- ===== src/Lifecycle/Icons.antt =====
-- The icons of windows: `view::handle_set_icon`, and what `view::handle_destroy` does with the icon (src/view.cc). An
-- icon of the protocol counts the references to it; those that the compositor holds are counted here.
use steppewm.Base.{
  ℕ, zero, suc, ◌+◌, ◌-◌, ◌<◌, ◌≤◌, Option, none, some, List, [], ◌∷◌, ◌≡◌, refl, ap, arith, ◌==◌,
  if◌then◌else◌, Bool-cases, inl, inr,
}
use steppewm.State.{Server, refresh_taskbars}

-- `view::icon` of each window, with the number of references to each icon.
pub record Icons : Type 0 where
  pub srv : Server
  pub icon : ℕ → Option ℕ
  pub refs : ℕ → ℕ

-- How often an icon is the given one.
abbrev pub holds : Option ℕ → ℕ → ℕ
holds none i = 0
holds (some j) i = if j == i then 1 else 0

-- `wlr_xdg_toplevel_icon_v1_ref` and `unref`, of an icon that may be null.
abbrev pub ref_icon : Option ℕ → (ℕ → ℕ) → ℕ → ℕ
ref_icon o refs i = refs i + holds o i

abbrev pub unref_icon : Option ℕ → (ℕ → ℕ) → ℕ → ℕ
unref_icon o refs i = refs i - holds o i

abbrev pub change_at : ℕ → Option ℕ → (ℕ → Option ℕ) → ℕ → Option ℕ
change_at v o icon u = if u == v then o else icon u

-- `view::handle_set_icon`, for a window with the icon that it asks for.
unfoldable pub handle_set_icon : ℕ → Option ℕ → Icons → Icons
handle_set_icon v new k =
    let changed : Icons = record {
      srv = refresh_taskbars k.srv;
      icon = change_at v new k.icon;
      refs = ref_icon new (unref_icon (k.icon v) k.refs);
    } in
    if (k.srv.store v).has_data then changed else k

-- The part of `view::handle_destroy` that lets go of the icon.
unfoldable pub release_icon : ℕ → Icons → Icons
release_icon v k = record k { icon = change_at v none k.icon; refs = unref_icon (k.icon v) k.refs }

-- What happens to icons.
pub data IconEvent : Type 0 where
  icon_set : ℕ → Option ℕ → IconEvent
  window_destroyed : ℕ → IconEvent

abbrev pub handle_icon : IconEvent → Icons → Icons
handle_icon (icon_set v new) k = handle_set_icon v new k
handle_icon (window_destroyed v) k = release_icon v k

abbrev pub run_icons : List IconEvent → Icons → Icons
run_icons [] k = k
run_icons (e ∷ es) k = run_icons es (handle_icon e k)

-- How many of the windows at the first `n` addresses show an icon.
unfoldable pub users : (ℕ → Option ℕ) → ℕ → ℕ → ℕ
users icon i zero = 0
users icon i (suc n) = users icon i n + holds (icon n) i

-- Each icon has as many references as windows show it.
abbrev pub IsCounted : ℕ → Icons → Type 0
IsCounted n k = (i : ℕ) → k.refs i ≡ users k.icon i n

-- The events are about windows at the first `n` addresses.
abbrev pub IsAbout : ℕ → List IconEvent → Type 0
IsAbout n [] = Unit
IsAbout n (icon_set v new ∷ es) = (v < n) × IsAbout n es
IsAbout n (window_destroyed v ∷ es) = (v < n) × IsAbout n es

users-above :
    (icon : ℕ → Option ℕ) (v : ℕ) (o : Option ℕ) (i n : ℕ)
    → n ≤ v
    → users (change_at v o icon) i n ≡ users icon i n
unfolding users
users-above icon v o i zero h = refl
users-above icon v o i (suc n) h = ground (arith, users-above icon v o i n)

users-change_at :
    (icon : ℕ → Option ℕ) (v : ℕ) (o : Option ℕ) (i n : ℕ)
    → v < n
    → users (change_at v o icon) i n + holds (icon v) i ≡ users icon i n + holds o i
unfolding users
users-change_at icon v o i zero h = absurd (omega arith)
users-change_at icon v o i (suc n) h = elim (Bool-cases (n == v)) [
  | inl e ↦
      let q : n ≡ v = ground arith in
      let above : n ≤ v = omega arith in
      rw e (omega (arith, users-above icon v o i n above, ap (λ u. holds (icon u) i) q))
  | inr e ↦ rw e (omega (arith, users-change_at icon v o i n (ground arith)))
]

holds-users : (icon : ℕ → Option ℕ) (v i n : ℕ) → v < n → holds (icon v) i ≤ users icon i n
unfolding users
holds-users icon v i zero h = absurd (omega arith)
holds-users icon v i (suc n) h = elim (Bool-cases (n == v)) [
  | inl e ↦ let q : n ≡ v = ground arith in omega (arith, ap (λ u. holds (icon u) i) q)
  | inr e ↦ omega (arith, holds-users icon v i n (ground arith))
]

handle_icon-IsCounted :
    (v n : ℕ) (new : Option ℕ) (k : Icons)
    → v < n
    → IsCounted n k
    → (i : ℕ) → ref_icon new (unref_icon (k.icon v) k.refs) i ≡ users (change_at v new k.icon) i n
handle_icon-IsCounted v n new k h c i =
    omega (arith, c i, users-change_at k.icon v new i n h, holds-users k.icon v i n h)

event-IsCounted :
    (n : ℕ) (e : IconEvent) (k : Icons)
    → IsAbout n (e ∷ [])
    → IsCounted n k
    → IsCounted n (handle_icon e k)
unfolding handle_set_icon release_icon
event-IsCounted n (icon_set v new) k (h, t) c = elim (Bool-cases (k.srv.store v).has_data) [
  | inl e ↦ rw e (handle_icon-IsCounted v n new k h c)
  | inr e ↦ rw e c
]
event-IsCounted n (window_destroyed v) k (h, t) c =
    λ i. omega (arith, handle_icon-IsCounted v n none k h c i)

-- After any sequence of icons that clients set and of windows that are destroyed, the compositor still holds as
-- many references to each icon as there are windows that show it, so that none is lost or released
-- twice, if that held before it.
pub run_icons-IsCounted :
    (n : ℕ) (es : List IconEvent) (k : Icons)
    → IsAbout n es
    → IsCounted n k
    → IsCounted n (run_icons es k)
run_icons-IsCounted n [] k about c = c
run_icons-IsCounted n (icon_set v new ∷ es) k (h, about) c =
    run_icons-IsCounted n es _ about (event-IsCounted n (icon_set v new) k (h, tt) c)
run_icons-IsCounted n (window_destroyed v ∷ es) k (h, about) c =
    run_icons-IsCounted n es _ about (event-IsCounted n (window_destroyed v) k (h, tt) c)
