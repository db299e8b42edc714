-- ===== src/Examples/Clocks.antt =====
-- The timer queue at concrete times.
use game_login.Base.{
  ℕ, ◌+◌, ◌-◌, ◌^◌, ◌≤◌, ◌<◌, ◌≡◌, Bool-cases, inl, inr, List, [], ◌∷◌, some, arith, ◌==◌,
  if◌then◌else◌,
}
use game_login.Timers.{Job, new_job, Registration}
use game_login.Timers.Order.{tick_of, IsReady, Registers, insert_entry, insert_all}
use game_login.Timers.Due.{due, pending, registered, Later}
use game_login.Timers.History.{
  Event, registers, round, run, first_entry, AllTimely, all_called, all_after, run-new_job,
}

-- Shortly before the ticks wrap object 7 registers for after that; its callback registers it again.
abbrev again : ℕ → List Registration
again object =
    if object == 7 then record { object = 7; now = 2 ^ 32 + 5; milisec = 30 } ∷ [] else []

abbrev events : List Event
events =
    registers (record { object = 7; now = 2 ^ 32 - 10; milisec = 12 })
    ∷ round (2 ^ 32 - 3) again
    ∷ round (2 ^ 32 + 4) again
    ∷ []

again-Later :
    (lo now object : ℕ)
    → lo ≤ 2 ^ 32 + 35
    → 2 ^ 32 + 35 < lo + 2 ^ 31
    → now < 2 ^ 32 + 35
    → Registers lo (again object) × Later now (again object)
again-Later lo now object a b c = elim (Bool-cases (object == 7)) [
  | inl e ↦ rw e (((omega arith, omega arith), tt), (omega arith, tt))
  | inr e ↦ rw e (tt, tt)
]

timely : AllTimely events (first_entry (2 ^ 32 - 20) 1 ∷ [])
unfolding insert_entry insert_all due pending registered
timely = (
  (2 ^ 32 - 20, omega arith, omega arith),
  (
    (
      2 ^ 32 - 20,
      omega arith,
      omega arith,
      λ o. (again-Later (2 ^ 32 - 20) (2 ^ 32 - 3) o (omega arith) (omega arith) (omega arith)).0,
      λ o. (again-Later (2 ^ 32 - 20) (2 ^ 32 - 3) o (omega arith) (omega arith) (omega arith)).1,
      λ e. cc,
    ),
    (
      (
        2 ^ 32 - 20,
        omega arith,
        omega arith,
        λ o. (again-Later (2 ^ 32 - 20) (2 ^ 32 + 4) o (omega arith) (omega arith) (omega arith)).0,
        λ o. (again-Later (2 ^ 32 - 20) (2 ^ 32 + 4) o (omega arith) (omega arith) (omega arith)).1,
        λ e. cc,
      ),
      tt,
    ),
  ),
)

run-new_job_example :
    let first = first_entry (2 ^ 32 - 20) 1 ∷ [] in
    (last : Job) × (run events (new_job (tick_of (2 ^ 32 - 20)) 1)
      ≡ some (all_called events first, last))
    × IsReady (all_after events first) last
run-new_job_example = run-new_job (2 ^ 32 - 20) 1 events timely
