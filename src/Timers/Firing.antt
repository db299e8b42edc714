-- ===== src/Timers/Firing.antt =====
-- A round of `RunTimer`: its loop calls the timers that are due.
use game_login.Base.{
  ℕ, zero, suc, ◌≤◌, ◌≡◌, ◌≢◌, refl, sym, ap, ap₂, subst, ◌∙◌, true, false, List, [], ◌∷◌, some,
  arith, ltb, leb, length, Bool-cases, inl, inr,
}
use game_login.Timers.{is_after, Job, Registration, Fired, call_back, fire, run_timer, look_at_top}
use game_login.Timers.Order.{
  Entry, tick_of, timer_of, timers_of, Within, is_after-ltb, AllWithin, insert_all, Registers, From,
  insert_all-From, IsReady, insert_all-AllWithin, register_all-queue,
}
use game_login.Timers.Due.{due, pending, objects, Later, due-insert_all, none_due, registered}

-- A round of `RunTimer` at the time `now`, when all times lie within half the range of a tick.
module _ (on_timer : ℕ → List Registration) (lo now : ℕ) (here : Within lo now)
    (soon : (object : ℕ) → Registers lo (on_timer object))
    (later : (object : ℕ) → Later now (on_timer object)) where
  -- The objects of `ds` are called, and the job is ready for the entries after, none of them due.
  abbrev FiresOn : List Entry → List Entry → Fired → Type 0
  FiresOn ds ps r =
      let next = registered on_timer ds ps in
      (job : Job) × (r ≡ some (objects ds, job)) × IsReady next job × (due now next ≡ [])

  abbrev Fires : List Entry → Fired → Type 0
  Fires es = FiresOn (due now es) (pending now es)

  abbrev Leaves : List Entry → Type 0
  Leaves es = registered on_timer (due now es) (pending now es) ≢ []

  -- What comes of the loop behind the callback of `object`, when the entries are then `q`.
  look-FiresOn :
      (object : ℕ) (more : Fired) (q : List Entry) (after : Job)
      → after.queue ≡ timers_of q
      → after.terminating ≡ false
      → From 0 q
      → AllWithin lo q
      → Leaves q
      → ((x : Entry) (xs : List Entry) → q ≡ x ∷ xs → leb x.at now ≡ true → Fires q more)
      → (job : Job) × (look_at_top (tick_of now) object more after (timers_of q)
          ≡ some (object ∷ objects (due now q), job))
        × IsReady (registered on_timer (due now q) (pending now q)) job
        × (due now (registered on_timer (due now q) (pending now q)) ≡ [])
  look-FiresOn object more [] after queue going sorted within leaves rec =
      absurd (leaves (unfold due pending registered in refl))
  look-FiresOn object more (x ∷ xs) after queue going sorted within leaves rec =
      let test = is_after-ltb lo x.at now within.0 here in
      elim (Bool-cases (ltb now x.at)) [
        | inl l ↦
            let (d, p) = none_due now x.at (x ∷ xs) (ground arith) (omega arith, sorted.1) in
            stopped d p (unfold look_at_top in rw test (rw l refl))
        | inr l ↦
            let (job, fired, ready, none_left) = rec x xs refl (ground arith) in
            (job, unfold look_at_top in rw test (rw l (rw fired refl)), ready, none_left)
      ]
    where
      top_of : Job
      top_of = record after { top_tick = tick_of x.at }

      stopped :
          due now (x ∷ xs) ≡ []
          → pending now (x ∷ xs) ≡ x ∷ xs
          → look_at_top (tick_of now) object more after (timers_of (x ∷ xs))
            ≡ some (object ∷ [], top_of)
          → (job : Job) × (look_at_top (tick_of now) object more after (timers_of (x ∷ xs))
              ≡ some (object ∷ objects (due now (x ∷ xs)), job))
            × IsReady (registered on_timer (due now (x ∷ xs)) (pending now (x ∷ xs))) job
            × (due now (registered on_timer (due now (x ∷ xs)) (pending now (x ∷ xs))) ≡ [])
      stopped d p s =
          let all : registered on_timer (due now (x ∷ xs)) (pending now (x ∷ xs)) ≡ x ∷ xs =
            ap₂ (registered on_timer) d p ∙ unfold registered in refl in
          (
            top_of,
            s ∙ ap (λ ds. some (object ∷ objects ds, top_of)) (sym d),
            subst (λ es. IsReady es top_of) (sym all)
                (record { queue = queue; sorted = sorted; top = refl; running = going }),
            ap (due now) all ∙ d,
          )

  due_first :
      (e : Entry) (es : List Entry)
      → leb e.at now ≡ true
      → (due now (e ∷ es) ≡ e ∷ due now es) × (pending now (e ∷ es) ≡ pending now es)
  unfolding due pending
  due_first e es h = (rw h refl, rw h refl)

  From-zero : (low : ℕ) (es : List Entry) → From low es → From 0 es
  From-zero low [] s = tt
  From-zero low (e ∷ es) s = (omega arith, s.1)

  fire_round :
      (fuel : ℕ) (e : Entry) (es : List Entry) (job : Job)
      → let after = call_back on_timer (timer_of e) (timers_of es) job in
        let more = fire on_timer fuel (tick_of now) after.queue after in
        fire on_timer (suc fuel) (tick_of now) (timers_of (e ∷ es)) job
        ≡ look_at_top (tick_of now) e.object more after after.queue
  unfolding fire
  fire_round fuel e es job = refl

  -- What the callback of the timer on top leaves.
  called :
      (e : Entry) (es : List Entry) (job : Job)
      → AllWithin lo (e ∷ es)
      → job.terminating ≡ false
      → let after = call_back on_timer (timer_of e) (timers_of es) job in
        (after.queue ≡ timers_of (insert_all (on_timer e.object) es)) × (after.terminating ≡ false)
  unfolding call_back
  called e es job within running =
      register_all-queue lo (on_timer e.object) es (record job { queue = timers_of es })
        (soon e.object) within.1 refl running

  registered_first :
      (e : Entry) (es : List Entry)
      → leb e.at now ≡ true
      → let q = insert_all (on_timer e.object) es in
        registered on_timer (due now (e ∷ es)) (pending now (e ∷ es))
        ≡ registered on_timer (due now q) (pending now q)
  registered_first e es first =
      let (same, rest) = due-insert_all now (on_timer e.object) es (later e.object) in
      let (d, p) = due_first e es first in
      ap₂ (registered on_timer) d p
      ∙ unfold registered in ap₂ (registered on_timer) (sym same) (sym rest)

  fire-Fires :
      (fuel : ℕ) (e : Entry) (es : List Entry) (job : Job)
      → length (due now (e ∷ es)) ≤ fuel
      → leb e.at now ≡ true
      → From 0 (e ∷ es)
      → AllWithin lo (e ∷ es)
      → job.terminating ≡ false
      → Leaves (e ∷ es)
      → Fires (e ∷ es) (fire on_timer fuel (tick_of now) (timers_of (e ∷ es)) job)
  fire-Fires zero e es job few first sorted within running leaves =
      absurd (omega (arith, few, ap length (due_first e es first).0))
  fire-Fires (suc fuel) e es job few first sorted within running leaves =
      let after = call_back on_timer (timer_of e) (timers_of es) job in
      let q = insert_all (on_timer e.object) es in
      let (queue, going) = called e es job within running in
      let (same, rest) = due-insert_all now (on_timer e.object) es (later e.object) in
      let (d, p) = due_first e es first in
      let ends = registered_first e es first in
      let (last, fired, ready, none_left) =
        look-FiresOn e.object (fire on_timer fuel (tick_of now) after.queue after) q after queue
          going sorted_q within_q (λ x. leaves (ends ∙ x))
          (λ x xs at_q h.
            subst (λ qs. Fires q (fire on_timer fuel (tick_of now) qs after)) (sym queue)
              (subst (λ es. Fires es (fire on_timer fuel (tick_of now) (timers_of es) after))
                (sym at_q)
                (fire-Fires fuel x xs after
                  (omega
                    (arith, few, ap length d, ap length same, ap (λ l. length (due now l)) at_q))
                  h (subst (From 0) at_q sorted_q) (subst (AllWithin lo) at_q within_q) going
                  (subst Leaves at_q (λ x. leaves (ends ∙ x)))))) in
      (
        last,
        fire_round fuel e es job
            ∙ ap (look_at_top (tick_of now) e.object _ after) queue
            ∙ fired
            ∙ ap (λ ds. some (ds, last)) (ap (λ l. e.object ∷ objects l) same ∙ ap objects (sym d)),
        subst (λ es. IsReady es last) (sym ends) ready,
        ap (due now) ends ∙ none_left,
      )
    where
      sorted_q : From 0 (insert_all (on_timer e.object) es)
      sorted_q = insert_all-From (on_timer e.object) es (From-zero e.at es sorted.1)

      within_q : AllWithin lo (insert_all (on_timer e.object) es)
      within_q = insert_all-AllWithin lo (on_timer e.object) es (soon e.object) within.1

  due_few : (es : List Entry) → length (due now es) ≤ length (timers_of es)
  unfolding due
  due_few [] = omega arith
  due_few (e ∷ es) = ground (arith, due_few es)

  round_runs :
      (job : Job)
      → is_after job.top_tick (tick_of now) ≡ false
      → run_timer on_timer (tick_of now) job
        ≡ fire on_timer (length job.queue) (tick_of now) job.queue job
  unfolding run_timer
  round_runs job e = rw e refl

  -- A whole round, also one with nothing to do.
  pub run_timer-FiresOn :
      (es : List Entry) (job : Job)
      → IsReady es job
      → AllWithin lo es
      → registered on_timer (due now es) (pending now es) ≢ []
      → let next = registered on_timer (due now es) (pending now es) in
        (after : Job) × (run_timer on_timer (tick_of now) job ≡ some (objects (due now es), after))
        × IsReady next after
        × (due now next ≡ [])
  run_timer-FiresOn [] job v within leaves = absurd v.top
  run_timer-FiresOn (e ∷ es) job v within leaves =
      let test =
        ap (λ t. is_after t (tick_of now)) v.top ∙ is_after-ltb lo e.at now within.0 here in
      elim (Bool-cases (ltb now e.at)) [
        | inl l ↦
            let (d, p) = none_due now e.at (e ∷ es) (ground arith) (omega arith, v.sorted.1) in
            let all : registered on_timer (due now (e ∷ es)) (pending now (e ∷ es)) ≡ e ∷ es =
              ap₂ (registered on_timer) d p ∙ unfold registered in refl in
            (
              job,
              unfold run_timer in rw (test ∙ l) (ap (λ ds. some (objects ds, job)) (sym d)),
              subst (λ es. IsReady es job) (sym all) v,
              ap (due now) all ∙ d,
            )
        | inr l ↦
            let (last, fired, ready, none_left) =
              fire-Fires (length (timers_of (e ∷ es))) e es job (due_few (e ∷ es)) (ground arith)
                v.sorted within v.running leaves in
            (
              last,
              round_runs job (test ∙ l)
                  ∙ ap (λ qs. fire on_timer (length qs) (tick_of now) qs job) v.queue
                  ∙ fired,
              ready,
              none_left,
            )
      ]
