-- ===== src/Timers.antt =====
-- The timer queue of `CJob`, src/AuthServer/Job.cpp and Job.h. Ticks are the milliseconds of
-- `GetTickCount`, 32 bits that wrap. `std::priority_queue` is a list in its order; of timers that are
-- equal under it the one pushed first comes first, which the standard leaves open.
pub mod Order
pub mod Due
pub mod Firing
pub mod History
use game_login.Base.{
  ℕ, zero, suc, ◌+◌, ◌-◌, ◌%◌, ◌^◌, Bool, true, false, not, ◌&&◌, List, [], ◌∷◌, ◌++◌, Option, none,
  some, ltb, if◌then◌else◌, length,
}

-- `CIOTimer`; an object is its address.
pub record Timer : Type 0 where
  pub tick : ℕ
  pub object : ℕ

-- `(LONG)(a - b) > 0`.
pub is_after : ℕ → ℕ → Bool
is_after a b = let d = (a + 2 ^ 32 - b) % 2 ^ 32 in ltb 0 d && ltb d (2 ^ 31)

-- The members of `CJob` that the timers use.
pub record Job : Type 0 where
  pub queue : List Timer
  pub top_tick : ℕ
  pub terminating : Bool

-- `TOP_TICK_EXPIRE`, a day.
abbrev pub top_tick_expire : ℕ
top_tick_expire = 86400000

-- `CJob::CJob` at the tick `now`, with its `CIOTopTimer`.
pub new_job : ℕ → ℕ → Job
new_job now top_timer =
    let tick = (top_tick_expire + now) % 2 ^ 32 in
    record {
      queue = record { tick = tick; object = top_timer } ∷ [];
      top_tick = tick;
      terminating = false;
    }

-- `m_timerQueue.push`.
pub push : Timer → List Timer → List Timer
push t [] = t ∷ []
push t (x ∷ xs) = if is_after x.tick t.tick then t ∷ x ∷ xs else x ∷ push t xs

-- What a call of `PushTimer` does: the job, whether the timer is registered, and whether the waiting
-- thread is to be woken, if `setEvent` asks for it.
pub record Pushed : Type 0 where
  pub job : Job
  pub registered : Bool
  pub wake : Bool

-- `PushTimer`, called at the time `now`, of which `GetTickCount` gives the lowest 32 bits.
pub push_timer : ℕ → ℕ → ℕ → Job → Pushed
push_timer now object milisec job =
    let tick = (milisec + now) % 2 ^ 32 in
    let queue = push (record { tick = tick; object = object }) job.queue in
    if job.terminating
    then record { job = job; registered = false; wake = false }
    else if is_after job.top_tick tick
    then record {
      job = record job { queue = queue; top_tick = tick };
      registered = true;
      wake = true;
    }
    else record { job = record job { queue = queue }; registered = true; wake = false }

-- A `RegisterTimer` that `OnTimerCallback` of an object makes: for which object, when, and with what wait.
pub record Registration : Type 0 where
  pub object : ℕ
  pub now : ℕ
  pub milisec : ℕ

pub register_all : List Registration → Job → Job
register_all [] job = job
register_all (r ∷ rs) job = register_all rs (push_timer r.now r.object r.milisec job).job

-- The objects called, in their order, and the job after. `none` stands for `top` of an empty queue, and
-- for more rounds than there is fuel.
abbrev pub Fired : Type 0
Fired = Option (List ℕ × Job)

abbrev pub and_then : ℕ → Fired → Fired
and_then object none = none
and_then object (some (objects, job)) = some (object ∷ objects, job)

-- Behind a callback: the timer now on top ends the loop, or `more` comes of the next round.
pub look_at_top : ℕ → ℕ → Fired → Job → List Timer → Fired
look_at_top tick object more job [] = none
look_at_top tick object more job (top ∷ _) =
    if is_after top.tick tick
    then some (object ∷ [], record job { top_tick = top.tick })
    else and_then object more

module _ (on_timer : ℕ → List Registration) where
  -- `pop`, and the callback of the object that was on top.
  pub call_back : Timer → List Timer → Job → Job
  call_back top rest job = register_all (on_timer top.object) (record job { queue = rest })

  -- The loop of `RunTimer` under the lock, at `tick`.
  pub fire : ℕ → ℕ → List Timer → Job → Fired
  fire zero tick queue job = none
  fire (suc fuel) tick [] job = none
  fire (suc fuel) tick (top ∷ rest) job =
      let after = call_back top rest job in
      let more = fire fuel tick after.queue after in
      look_at_top tick top.object more after after.queue

  -- One round of `RunTimer` up to the wait. `on_timer` is what the callbacks register; a round takes a
  -- timer off that was there before, so there are no more rounds than timers.
  pub run_timer : ℕ → Job → Fired
  run_timer tick job =
      if is_after job.top_tick tick
      then some ([], job)
      else fire (length job.queue) tick job.queue job
