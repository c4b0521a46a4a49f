-- ===== src/Settings/Startup.antt =====
-- Which commands `config::run_execs` starts (src/config.cc).
use Prim.Native.String.{String}
use text.Mathlib.Text.{◌==◌ as str_eq}
use text.Mathlib.TextEquality.{eq_iff}
use steppewm.Base.{
  ℕ, ◌+◌, ◌≤◌, ltb, true, not, ◌&&◌, ◌||◌, List, [], ◌∷◌, ◌++◌, if◌then◌else◌, ◌≡◌, refl, ap, arith,
  length, Bool-cases, inl, inr,
}
use steppewm.Settings.{Settings}
use steppewm.Settings.Calls.{max_execs}
use steppewm.Settings.Limits.{length-append}
use steppewm.Settings.Load.{is_among, start_execs, run_execs}

-- How often a command is in a list.
abbrev pub count : String → List String → ℕ
count x [] = 0
count x (c ∷ cs) = (if str_eq x c then 1 else 0) + count x cs

is_among-append :
    (x c : String) (cs : List String) → is_among x (cs ++ (c ∷ [])) ≡ (is_among x cs || str_eq x c)
is_among-append x c [] = ground arith
is_among-append x c (d ∷ ds) = ground (arith, is_among-append x c ds)

is_among_same :
    (x c : String) (cs : List String) → str_eq x c ≡ true → is_among x cs ≡ is_among c cs
is_among_same x c cs h = ap (λ s. is_among s cs) ((eq_iff x c).0 h)

-- With room for the commands: what is started, and what is remembered.
start_execs-count :
    (x : String) (cmds ran : List String)
    → length ran + length cmds ≤ max_execs
    → count x (start_execs cmds ran).1 ≡ (if is_among x cmds && not (is_among x ran) then 1 else 0)
unfolding start_execs
start_execs-count x [] ran room = refl
start_execs-count x (c ∷ cs) ran room = elim (Bool-cases (is_among c ran)) [
  | inl e ↦ rw e (ground (arith, start_execs-count x cs ran (omega arith), is_among_same x c ran))
  | inr e ↦
      let fits : ltb (length ran) max_execs ≡ true = ground arith in
      let rest = start_execs-count x cs (ran ++ (c ∷ [])) (omega (arith, length-append ran c)) in
      rw (e, fits) (ground (arith, rest, is_among-append x c ran, is_among_same x c ran))
]

start_execs-is_among :
    (x : String) (cmds ran : List String)
    → length ran + length cmds ≤ max_execs
    → is_among x (start_execs cmds ran).0 ≡ (is_among x ran || is_among x cmds)
unfolding start_execs
start_execs-is_among x [] ran room = ground arith
start_execs-is_among x (c ∷ cs) ran room = elim (Bool-cases (is_among c ran)) [
  | inl e ↦
      rw e (ground (arith, start_execs-is_among x cs ran (omega arith), is_among_same x c ran))
  | inr e ↦
      let fits : ltb (length ran) max_execs ≡ true = ground arith in
      let rest = start_execs-is_among x cs (ran ++ (c ∷ [])) (omega (arith, length-append ran c)) in
      rw (e, fits) (ground (arith, rest, is_among-append x c ran, is_among_same x c ran))
]

-- Where every command is remembered, nothing is started.
start_execs-none :
    (cmds ran : List String)
    → ((x : String) → is_among x cmds ≡ true → is_among x ran ≡ true)
    → (start_execs cmds ran).1 ≡ []
unfolding start_execs
start_execs-none [] ran known = refl
start_execs-none (c ∷ cs) ran known =
    let first : is_among c ran ≡ true = known c (ground (arith, eq_iff c c)) in
    rw first (start_execs-none cs ran (λ x h. known x (ground arith)))

-- While the list of remembered commands has room for those of the configuration: a command of the
-- configuration that was not run before is started exactly once, any other never; and running the
-- commands again starts nothing.
pub run_execs_once :
    {F : Type 0} (x : String) (c : Settings F)
    → length c.ran_execs + length c.execs ≤ max_execs
    → (count x (run_execs c).spawned
        ≡ (if is_among x c.execs && not (is_among x c.ran_execs) then 1 else 0))
      × ((run_execs (run_execs c).cfg).spawned ≡ [])
unfolding run_execs
run_execs_once x c room = (
  start_execs-count x c.execs c.ran_execs room,
  start_execs-none c.execs (start_execs c.execs c.ran_execs).0
      (λ y h. ground (arith, start_execs-is_among y c.execs c.ran_execs room)),
)
