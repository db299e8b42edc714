-- ===== src/Timers/History.antt =====
-- Any history of registrations and rounds.
use game_login.Base.{ℕ, ◌+◌, ◌≡◌, ◌≢◌, refl, ap, List, [], ◌∷◌, ◌++◌, Option, none, some, arith}
use game_login.Timers.{Job, new_job, top_tick_expire, push_timer, Registration, run_timer}
use game_login.Timers.Order.{
  Entry, tick_of, Within, insert_entry, AllWithin, entry_of, Registers, IsReady, push_timer-IsReady,
}
use game_login.Timers.Due.{due, pending, objects, Later, registered}
use game_login.Timers.Firing.{run_timer-FiresOn}

-- A call of `PushTimer`, or a round of `RunTimer` at a time, with what the callbacks of the round register.
pub data Event : Type 0 where
  registers : Registration → Event
  round : ℕ → (ℕ → List Registration) → Event

-- The objects called, and the job after; `none` stands for `top` of an empty queue.
pub act : Event → Job → Option (List ℕ × Job)
act (registers r) job = some ([], (push_timer r.now r.object r.milisec job).job)
act (round now on_timer) job = run_timer on_timer (tick_of now) job

pub run : List Event → Job → Option (List ℕ × Job)
run [] job = some ([], job)
run (ev ∷ evs) job = elim (act ev job) [
  | none ↦ none
  | some (called, after) ↦ elim (run evs after) [
    | none ↦ none
    | some (more, last) ↦ some (called ++ more, last)
  ]
]

-- What a timer is for: a round calls the timers whose time has come, in the order of their times, and
-- then those are there that were not due and those that the callbacks have registered.
abbrev pub called_by : Event → List Entry → List ℕ
called_by (registers r) es = []
called_by (round now on_timer) es = objects (due now es)

abbrev pub entries_after : Event → List Entry → List Entry
entries_after (registers r) es = insert_entry (entry_of r) es
entries_after (round now on_timer) es = registered on_timer (due now es) (pending now es)

-- All times lie within half the range of a tick; callbacks register for later than the round; and some
-- timer is left.
abbrev pub IsTimely : Event → List Entry → Type 0
IsTimely (registers r) es = (lo : ℕ) × Within lo (r.milisec + r.now) × AllWithin lo es
IsTimely (round now on_timer) es =
    (lo : ℕ) × Within lo now
    × AllWithin lo es
    × ((object : ℕ) → Registers lo (on_timer object))
    × ((object : ℕ) → Later now (on_timer object))
    × (registered on_timer (due now es) (pending now es) ≢ [])

abbrev pub all_called : List Event → List Entry → List ℕ
all_called [] es = []
all_called (ev ∷ evs) es = called_by ev es ++ all_called evs (entries_after ev es)

abbrev pub all_after : List Event → List Entry → List Entry
all_after [] es = es
all_after (ev ∷ evs) es = all_after evs (entries_after ev es)

abbrev pub AllTimely : List Event → List Entry → Type 0
AllTimely [] es = Unit
AllTimely (ev ∷ evs) es = IsTimely ev es × AllTimely evs (entries_after ev es)

act-IsReady :
    (ev : Event) (es : List Entry) (job : Job)
    → IsReady es job
    → IsTimely ev es
    → (after : Job) × (act ev job ≡ some (called_by ev es, after))
      × IsReady (entries_after ev es) after
unfolding act
act-IsReady (registers r) es job v (lo, h, hs) = (_, refl, push_timer-IsReady lo r es job h hs v)
act-IsReady (round now on_timer) es job v (lo, here, within, soon, later, leaves) =
    let (after, fired, ready, none_left) =
      run_timer-FiresOn on_timer lo now here soon later es job v within leaves in
    (after, fired, ready)

run-IsReady :
    (evs : List Event) (es : List Entry) (job : Job)
    → IsReady es job
    → AllTimely evs es
    → (last : Job) × (run evs job ≡ some (all_called evs es, last))
      × IsReady (all_after evs es) last
unfolding run
run-IsReady [] es job v h = (job, refl, v)
run-IsReady (ev ∷ evs) es job v (h, hs) =
    let (after, acted, ready) = act-IsReady ev es job v h in
    let (last, more, end) = run-IsReady evs (entries_after ev es) after ready hs in
    (last, rw (acted, run) (rw (more, run) refl), end)

-- The timer of `CIOTopTimer`.
abbrev pub first_entry : ℕ → ℕ → Entry
first_entry now top_timer = record { at = top_tick_expire + now; object = top_timer }

new_job-IsReady :
    (now top_timer : ℕ) → IsReady (first_entry now top_timer ∷ []) (new_job (tick_of now) top_timer)
unfolding new_job
new_job-IsReady now top_timer = record {
  queue = ap (λ (t : ℕ). record { tick = t; object = top_timer } ∷ []) (omega arith);
  sorted = (omega arith, tt);
  top = omega arith;
  running = refl;
}

-- On a new job, after any calls of `PushTimer` and rounds of `RunTimer`, with ticks that wrap at 2^32,
-- while at each step the times of the timers and of the step lie within 2^31 milliseconds, callbacks
-- register only for times after their round, and some timer is left: the objects called are those whose
-- times have come, in the order of the times and none twice; the queue has the other timers in their
-- order; and `m_topTick` is the tick of the first of them.
pub run-new_job :
    (now top_timer : ℕ) (evs : List Event)
    → let first = first_entry now top_timer ∷ [] in
      AllTimely evs first
      → (last : Job) × (run evs (new_job (tick_of now) top_timer)
          ≡ some (all_called evs first, last))
        × IsReady (all_after evs first) last
run-new_job now top_timer evs h = run-IsReady evs _ _ (new_job-IsReady now top_timer) h
