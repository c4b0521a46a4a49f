-- ===== src/Start/Displays.antt =====
-- The display that X programs are sent to: `find_free_x_display` and `start_xwayland` of src/main.cc.
use steppewm.Base.{
  ℕ, zero, suc, ◌+◌, ◌<◌, ◌≤◌, true, false, Option, none, some, [], ◌∷◌, ◌++◌, ◌≡◌, refl, arith,
  Bytes, codes, print_to, Bool, not, ◌&&◌, Bool-cases, ◌⊎◌, inl, inr, subst, same_refl,
}
use steppewm.Start.{
  System, Process, set_env, x_socket, x_lock, is_free, free_from, find_free_x_display,
  serve_display, start_xwayland, execute,
}

here_or_later : (n k : ℕ) → n ≤ k → (n ≡ k) ⊎ (suc n ≤ k)
here_or_later n k low = ground arith

-- A display has a socket or a lock file.
abbrev pub IsTaken : (ℕ → Bytes) → System → ℕ → Type 0
IsTaken to_string sys k =
    (sys.exists (x_socket to_string k) ≡ true) ⊎ (sys.exists (x_lock to_string k) ≡ true)

free_lem : (a b : Bool) → (not a && not b) ≡ true → (a ≡ false) × (b ≡ false)
free_lem true b h = ground arith
free_lem false true h = ground arith
free_lem false false h = (refl, refl)

taken_lem : (a b : Bool) → (not a && not b) ≡ false → (a ≡ true) ⊎ (b ≡ true)
taken_lem true b h = inl refl
taken_lem false true h = inr refl
taken_lem false false h = ground arith

-- The displays below a number are all in use.
abbrev pub IsTakenBelow : (ℕ → Bytes) → System → ℕ → Type 0
IsTakenBelow to_string sys d = (k : ℕ) → k < d → IsTaken to_string sys k

module _ (to_string : ℕ → Bytes) (sys : System) where
  -- What a search over the displays from `n` on, `rounds` of them, may answer.
  abbrev pub IsLeastFree : ℕ → ℕ → Option ℕ → Type 0
  IsLeastFree n rounds none = (k : ℕ) → n ≤ k → k < n + rounds → is_free to_string sys k ≡ false
  IsLeastFree n rounds (some d) =
      (n ≤ d)
      × (d < n + rounds)
      × (is_free to_string sys d ≡ true)
      × ((k : ℕ) → n ≤ k → k < d → is_free to_string sys k ≡ false)

  IsLeastFree-suc :
      (n rounds : ℕ) (r : Option ℕ)
      → is_free to_string sys n ≡ false
      → IsLeastFree (suc n) rounds r
      → IsLeastFree n (suc rounds) r
  IsLeastFree-suc n rounds none taken h = λ k low high. elim (here_or_later n k low) [
    | inl e ↦ subst (λ i. is_free to_string sys i ≡ false) e taken
    | inr later ↦ h k later (omega arith)
  ]
  IsLeastFree-suc n rounds (some d) taken (a, b, c, least) = (
    omega arith,
    omega arith,
    c,
    λ k low high. elim (here_or_later n k low) [
      | inl e ↦ subst (λ i. is_free to_string sys i ≡ false) e taken
      | inr later ↦ least k later high
    ],
  )

  free_from-IsLeastFree : (rounds n : ℕ) → IsLeastFree n rounds (free_from to_string sys rounds n)
  unfolding free_from
  free_from-IsLeastFree zero n = λ k low high. absurd (omega arith)
  free_from-IsLeastFree (suc rounds) n = elim (Bool-cases (is_free to_string sys n)) [
    | inl e ↦ rw (e, free_from) (omega arith, omega arith, e, λ k low high. absurd (omega arith))
    | inr e ↦
        rw (e, free_from)
          (IsLeastFree-suc n rounds (free_from to_string sys rounds (suc n)) e
            (free_from-IsLeastFree rounds (suc n)))
  ]

  -- Display `d` is the first one that is free, and `r` is the process `p` once X programs are sent to it.
  pub record IsServed (d : ℕ) (p r : Process) : Type 0 where
    pub below : d < 32
    pub no_socket : sys.exists (x_socket to_string d) ≡ false
    pub no_lock : sys.exists (x_lock to_string d) ≡ false
    pub least : IsTakenBelow to_string sys d
    pub named : r.environment (codes "DISPLAY") ≡ some (print_to 15 (codes ":" ++ to_string d))
    pub started :
        r.effects
        ≡ execute (codes "xwayland-satellite" ∷ print_to 15 (codes ":" ++ to_string d) ∷ [])
          ∷ p.effects

  serve_display_lem :
      (o : Option ℕ) (p : Process)
      → IsLeastFree 0 32 o
      → let r = serve_display to_string sys o p in
        ((d : ℕ) × IsServed d p r) ⊎ (IsTakenBelow to_string sys 32 × (r ≡ p))
  unfolding serve_display set_env
  serve_display_lem none p taken =
      inr ((λ k high. taken_lem _ _ (taken k (omega arith) high)), refl)
  serve_display_lem (some d) p (low, high, free, least) = inl (
    d,
    record {
      below = high;
      no_socket = (free_lem _ _ free).0;
      no_lock = (free_lem _ _ free).1;
      least = λ k h. taken_lem _ _ (least k (omega arith) h);
      named = rw (same_refl (codes "DISPLAY")) refl;
      started = refl;
    },
  )

  -- X programs are sent to the first of the 32 displays that has neither a socket nor a lock file: `DISPLAY` names it,
  -- and xwayland-satellite is started for it. If all of them are in use nothing is started and the
  -- environment stays as it is.
  pub start_xwayland-display :
      (p : Process)
      → let r = start_xwayland to_string sys p in
        ((d : ℕ) × IsServed d p r) ⊎ (IsTakenBelow to_string sys 32 × (r ≡ p))
  unfolding start_xwayland find_free_x_display
  start_xwayland-display p =
      serve_display_lem (free_from to_string sys 32 0) p (free_from-IsLeastFree 32 0)
