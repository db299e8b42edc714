-- ===== src/Timers/Order.antt =====
-- The order of the ticks is that of the times, while all lie within half the range of a tick.
use game_login.Base.{
  ℕ, ◌+◌, ◌%◌, ◌^◌, ◌≤◌, ◌<◌, ◌≡◌, refl, ap, ◌∙◌, false, List, [], ◌∷◌, arith, ltb, if◌then◌else◌,
  All, Bool-cases, inl, inr,
}
use game_login.Timers.{Timer, is_after, Job, push, push_timer, Registration, register_all}

-- A timer with its time, a number of milliseconds that does not wrap.
pub record Entry : Type 0 where
  pub at : ℕ
  pub object : ℕ

abbrev pub tick_of : ℕ → ℕ
tick_of time = time % 2 ^ 32

abbrev pub timer_of : Entry → Timer
timer_of e = record { tick = tick_of e.at; object = e.object }

abbrev pub timers_of : List Entry → List Timer
timers_of [] = []
timers_of (e ∷ es) = timer_of e ∷ timers_of es

-- The times from `lo` on for half the range of a tick.
abbrev pub Within : ℕ → ℕ → Type 0
Within lo time = (lo ≤ time) × (time < lo + 2 ^ 31)

pub is_after-ltb :
    (lo a b : ℕ) → Within lo a → Within lo b → is_after (tick_of a) (tick_of b) ≡ ltb b a
unfolding is_after
is_after-ltb lo a b ha hb = ground arith

unfoldable pub insert_entry : Entry → List Entry → List Entry
insert_entry e [] = e ∷ []
insert_entry e (x ∷ xs) = if ltb e.at x.at then e ∷ x ∷ xs else x ∷ insert_entry e xs

abbrev pub AllWithin : ℕ → List Entry → Type 0
AllWithin lo es = All (λ (e : Entry). Within lo e.at) es

pub push-timers_of :
    (lo : ℕ) (e : Entry) (es : List Entry)
    → Within lo e.at
    → AllWithin lo es
    → push (timer_of e) (timers_of es) ≡ timers_of (insert_entry e es)
unfolding push insert_entry
push-timers_of lo e [] h hs = refl
push-timers_of lo e (x ∷ xs) h hs =
    rw (is_after-ltb lo x.at e.at hs.0 h) (elim (Bool-cases (ltb e.at x.at)) [
      | inl l ↦ rw l refl
      | inr l ↦ rw l (ap (λ t. timer_of x ∷ t) (push-timers_of lo e xs h hs.1))
    ])

-- The entry that a registration stands for.
abbrev pub entry_of : Registration → Entry
entry_of r = record { at = r.milisec + r.now; object = r.object }

unfoldable pub insert_all : List Registration → List Entry → List Entry
insert_all [] es = es
insert_all (r ∷ rs) es = insert_all rs (insert_entry (entry_of r) es)

abbrev pub Registers : ℕ → List Registration → Type 0
Registers lo rs = All (λ (r : Registration). Within lo (r.milisec + r.now)) rs

pub insert_entry-AllWithin :
    (lo : ℕ) (e : Entry) (es : List Entry)
    → Within lo e.at
    → AllWithin lo es
    → AllWithin lo (insert_entry e es)
unfolding insert_entry
insert_entry-AllWithin lo e [] h hs = (h, tt)
insert_entry-AllWithin lo e (x ∷ xs) h hs = elim (Bool-cases (ltb e.at x.at)) [
  | inl l ↦ rw l (h, hs)
  | inr l ↦ rw l (hs.0, insert_entry-AllWithin lo e xs h hs.1)
]

-- No timer is before the one on top of it.
abbrev pub From : ℕ → List Entry → Type 0
From lo [] = Unit
From lo (e ∷ es) = (lo ≤ e.at) × From e.at es

pub insert_entry-From :
    (lo : ℕ) (e : Entry) (es : List Entry) → lo ≤ e.at → From lo es → From lo (insert_entry e es)
unfolding insert_entry
insert_entry-From lo e [] h s = (h, tt)
insert_entry-From lo e (x ∷ xs) h s = elim (Bool-cases (ltb e.at x.at)) [
  | inl l ↦ rw l (h, (ground arith, s.1))
  | inr l ↦ rw l (s.0, insert_entry-From x.at e xs (ground arith) s.1)
]

pub insert_all-From :
    (rs : List Registration) (es : List Entry) → From 0 es → From 0 (insert_all rs es)
unfolding insert_all
insert_all-From [] es s = s
insert_all-From (r ∷ rs) es s =
    insert_all-From rs (insert_entry (entry_of r) es)
      (insert_entry-From 0 (entry_of r) es (omega arith) s)

-- The job keeps the timers of the entries, and waits for the first of them.
abbrev pub TopOf : ℕ → List Entry → Type 0
TopOf top [] = ⊥
TopOf top (e ∷ es) = top ≡ tick_of e.at

pub record IsReady (es : List Entry) (job : Job) : Type 0 where
  pub queue : job.queue ≡ timers_of es
  pub sorted : From 0 es
  pub top : TopOf job.top_tick es
  pub running : job.terminating ≡ false

pub insert_all-AllWithin :
    (lo : ℕ) (rs : List Registration) (es : List Entry)
    → Registers lo rs
    → AllWithin lo es
    → AllWithin lo (insert_all rs es)
unfolding insert_all
insert_all-AllWithin lo [] es h hs = hs
insert_all-AllWithin lo (r ∷ rs) es h hs =
    insert_all-AllWithin lo rs (insert_entry (entry_of r) es) h.1
      (insert_entry-AllWithin lo (entry_of r) es h.0 hs)

-- The queue after calls of `PushTimer`, and that no one has begun to terminate the program.
pub push_timer-queue :
    (r : Registration) (job : Job)
    → job.terminating ≡ false
    → let after = (push_timer r.now r.object r.milisec job).job in
      (after.queue ≡ push (timer_of (entry_of r)) job.queue) × (after.terminating ≡ false)
unfolding push_timer
push_timer-queue r job running =
    rw running (elim (Bool-cases (is_after job.top_tick (tick_of (r.milisec + r.now)))) [
      | inl e ↦ rw e (refl, refl)
      | inr e ↦ rw e (refl, refl)
    ])

pub register_all-queue :
    (lo : ℕ) (rs : List Registration) (es : List Entry) (job : Job)
    → Registers lo rs
    → AllWithin lo es
    → job.queue ≡ timers_of es
    → job.terminating ≡ false
    → ((register_all rs job).queue ≡ timers_of (insert_all rs es))
      × ((register_all rs job).terminating ≡ false)
unfolding register_all insert_all
register_all-queue lo [] es job h hs q t = (q, t)
register_all-queue lo (r ∷ rs) es job h hs q t =
    let (pushed, running) = push_timer-queue r job t in
    register_all-queue lo rs (insert_entry (entry_of r) es) _ h.1
      (insert_entry-AllWithin lo (entry_of r) es h.0 hs)
      (pushed ∙ rw q (push-timers_of lo (entry_of r) es h.0 hs)) running

push_timer-TopOf :
    (lo : ℕ) (r : Registration) (es : List Entry) (job : Job)
    → Within lo (r.milisec + r.now)
    → AllWithin lo es
    → TopOf job.top_tick es
    → job.terminating ≡ false
    → TopOf (push_timer r.now r.object r.milisec job).job.top_tick (insert_entry (entry_of r) es)
unfolding push_timer insert_entry
push_timer-TopOf lo r [] job h hs top running = absurd top
push_timer-TopOf lo r (e ∷ es) job h hs top running =
    let time = r.milisec + r.now in
    let later = is_after-ltb lo e.at time hs.0 h in
    elim (Bool-cases (ltb time e.at)) [
      | inl l ↦ rw l (ground (arith, later, top, running))
      | inr l ↦ rw l (ground (arith, later, top, running))
    ]

-- `PushTimer` on its own keeps the job ready.
pub push_timer-IsReady :
    (lo : ℕ) (r : Registration) (es : List Entry) (job : Job)
    → Within lo (r.milisec + r.now)
    → AllWithin lo es
    → IsReady es job
    → IsReady (insert_entry (entry_of r) es) (push_timer r.now r.object r.milisec job).job
push_timer-IsReady lo r es job h hs v =
    let (pushed, running) = push_timer-queue r job v.running in
    record {
      queue = pushed ∙ rw (v.queue) (push-timers_of lo (entry_of r) es h hs);
      sorted = insert_entry-From 0 (entry_of r) es (omega arith) v.sorted;
      top = push_timer-TopOf lo r es job h hs v.top v.running;
      running = running;
    }
