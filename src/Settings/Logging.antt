-- ===== src/Settings/Logging.antt =====
-- `OnChangeLoggingLevel` of src/AuthServer/GlobalAuth.cpp: the menu command that walks the levels of the
-- log up and down.
use game_login.Base.{
  ℕ, zero, suc, ◌+◌, ◌-◌, ◌≡◌, refl, Bool, true, false, ltb, ◌==◌, if◌then◌else◌, Bool-cases, inl,
  inr,
}

-- `sCurrState`, `sIncr` with `true` for 1 and `false` for -1, and what the log lets through.
pub record Logging : Type 0 where
  pub curr_state : ℕ
  pub up : Bool
  pub verbose : Bool
  pub debug : Bool

-- The entry of `stateList`.
pub set_level : ℕ → Bool → Logging
set_level level up = record {
  curr_state = level;
  up = up;
  verbose = ltb 0 level;
  debug = ltb 1 level;
}

pub on_change_logging_level : Logging → Logging
on_change_logging_level l =
    if l.up
    then (if (l.curr_state + 1) == 3
        then set_level (3 - 2) false
        else set_level (l.curr_state + 1) true)
    else (if l.curr_state == 0 then set_level 1 true else set_level (l.curr_state - 1) false)

-- The state when the program starts; what the log lets through comes from the settings.
pub at_start : Bool → Bool → Logging
at_start verbose debug = record { curr_state = 0; up = true; verbose = verbose; debug = debug }

pub presses : ℕ → Logging → Logging
presses zero l = l
presses (suc n) l = on_change_logging_level (presses n l)

-- The turns of the walk: the level 0, then 1 on the way up, then 2, then 1 on the way down.
pub data Turn : Type 0 where
  off : Turn
  rising : Turn
  full : Turn
  falling : Turn

abbrev pub level : Turn → ℕ
level off = 0
level rising = 1
level full = 2
level falling = 1

pub turn : ℕ → Turn
turn zero = off
turn (suc n) = elim (turn n) [ off ↦ rising | rising ↦ full | full ↦ falling | falling ↦ off ]

abbrev IsTurn : Turn → Logging → Type 0
IsTurn off l = l.curr_state ≡ 0
IsTurn rising l = (l.curr_state ≡ 1) × (l.up ≡ true)
IsTurn full l = (l.curr_state ≡ 2) × (l.up ≡ true)
IsTurn falling l = (l.curr_state ≡ 1) × (l.up ≡ false)

abbrev pub Shows : ℕ → Logging → Type 0
Shows v l = (l.curr_state ≡ v) × (l.verbose ≡ ltb 0 v) × (l.debug ≡ ltb 1 v)

change_turn :
    (t : Turn) (l : Logging)
    → IsTurn t l
    → let next = elim t as (λ _. Turn) [
      | off ↦ rising
      | rising ↦ full
      | full ↦ falling
      | falling ↦ off
    ] in
      IsTurn next (on_change_logging_level l) × Shows (level next) (on_change_logging_level l)
unfolding on_change_logging_level set_level
change_turn off l h = elim (Bool-cases l.up) [
  | inl e ↦ rw (e, h) ((refl, refl), (refl, refl, refl))
  | inr e ↦ rw (e, h) ((refl, refl), (refl, refl, refl))
]
change_turn rising l h = rw (h.0, h.1) ((refl, refl), (refl, refl, refl))
change_turn full l h = rw (h.0, h.1) ((refl, refl), (refl, refl, refl))
change_turn falling l h = rw (h.0, h.1) (refl, (refl, refl, refl))

turns : (verbose debug : Bool) (n : ℕ) → IsTurn (turn n) (presses n (at_start verbose debug))
unfolding presses turn at_start
turns verbose debug zero = refl
turns verbose debug (suc n) =
    (change_turn (turn n) (presses n (at_start verbose debug)) (turns verbose debug n)).0

-- Each use of the command takes the log to the next of the levels 0, 1, 2, 1, 0, … in turn, whatever the
-- settings let through at the start: verbose messages from level 1 on, and debug messages at level 2.
pub presses_lem :
    (verbose debug : Bool) (n : ℕ)
    → Shows (level (turn (suc n))) (presses (suc n) (at_start verbose debug))
unfolding presses turn
presses_lem verbose debug n =
    (change_turn (turn n) (presses n (at_start verbose debug)) (turns verbose debug n)).1
