-- ===== src/Locks/Spin/Exclusion.antt =====
-- One thread at a time between `Enter` and `Leave`, and a lock that is free can be taken.
use game_login.Base.{
  ℕ, zero, suc, ◌+◌, ◌≤◌, ◌≡◌, ◌≢◌, refl, ap, subst, ◌∙◌, Bool, List, [], ◌∷◌, Option, none, some,
  ◌==◌, arith, if◌then◌else◌, get_elem?, set, replicate, total, total-set, total-ge, Bool-cases,
  inl, inr, ◌⊎◌,
}
use mathlib.Core.Option as Opt
use game_login.Locks.Spin.{
  LockType, critical_section, system_spin_lock, custom_spin_lock, Stage, outside, spinning,
  yielding, sleeping, inside, Spin, new_spin, Attempt, enter, try_enter, exchange, go_custom,
  go_critical, go, placed, moves, step, Reachable, start, move,
}

abbrev holder : Stage → ℕ
holder inside = 1
holder _ = 0

abbrev taken_by : LockType → ℕ → Bool → ℕ
taken_by custom_spin_lock custom_lock critical = custom_lock
taken_by _ custom_lock critical = if critical then 1 else 0

abbrev held : LockType → Spin → ℕ
held type l = taken_by type l.custom_lock l.critical

-- The lock is held by the threads inside, which are one at most.
record IsHeld (type : LockType) (l : Spin) : Type 0 where
  counted : total holder l.threads ≡ held type l
  one : held type l ≤ 1

total-replicate : (n : ℕ) → total holder (replicate n outside) ≡ 0
total-replicate zero = refl
total-replicate (suc n) = omega (arith, total-replicate n)

new_spin-IsHeld : (type : LockType) (n : ℕ) → IsHeld type (new_spin n)
unfolding new_spin
new_spin-IsHeld critical_section n = record { counted = total-replicate n; one = omega arith }
new_spin-IsHeld system_spin_lock n = record { counted = total-replicate n; one = omega arith }
new_spin-IsHeld custom_spin_lock n = record { counted = total-replicate n; one = omega arith }

-- What a step of a thread at a stage does to the lock and to the thread.
abbrev Passes : LockType → Stage → Spin → Option (Stage × Spin) → Type 0
Passes type stage l none = Unit
Passes type stage l (some (next, after)) =
    (after.threads ≡ l.threads)
    × (held type after + holder stage ≡ held type l + holder next)
    × (held type after ≤ 1)

exchange-Passes :
    (stage otherwise : Stage) (l : Spin)
    → holder stage ≡ 0
    → holder otherwise ≡ 0
    → l.custom_lock ≤ 1
    → Passes custom_spin_lock stage l (some (exchange otherwise l))
unfolding exchange
exchange-Passes stage otherwise l out still one = elim (Bool-cases (l.custom_lock == 0)) [
  | inl free ↦ rw free (refl, ground arith, omega arith)
  | inr taken ↦ rw taken (refl, ground arith, omega arith)
]

go_critical-Passes :
    (call : Attempt) (stage : Stage) (l : Spin)
    → holder stage ≤ held critical_section l
    → Passes critical_section stage l (go_critical call stage l)
unfolding go_critical
go_critical-Passes enter outside l h = elim (Bool-cases l.critical) [
  | inl taken ↦ rw taken tt
  | inr free ↦ rw free (refl, ground arith, omega arith)
]
go_critical-Passes try_enter outside l h = (refl, refl, ground arith)
go_critical-Passes call (spinning n) l h = tt
go_critical-Passes call (yielding n) l h = tt
go_critical-Passes call sleeping l h = tt
go_critical-Passes call inside l h = (refl, ground arith, omega arith)

go-Passes :
    (type : LockType) (call : Attempt) (stage : Stage) (l : Spin)
    → IsHeld type l
    → holder stage ≤ held type l
    → Passes type stage l (go type call stage l)
unfolding go go_custom go_critical
go-Passes custom_spin_lock enter outside l v h = exchange-Passes outside _ l refl refl v.one
go-Passes custom_spin_lock try_enter outside l v h = exchange-Passes outside _ l refl refl v.one
go-Passes custom_spin_lock call (spinning zero) l v h = (refl, refl, v.one)
go-Passes custom_spin_lock call (spinning (suc n)) l v h =
    exchange-Passes (spinning (suc n)) _ l refl refl v.one
go-Passes custom_spin_lock call (yielding zero) l v h = (refl, refl, v.one)
go-Passes custom_spin_lock call (yielding (suc n)) l v h =
    exchange-Passes (yielding (suc n)) _ l refl refl v.one
go-Passes custom_spin_lock call sleeping l v h = exchange-Passes sleeping _ l refl refl v.one
go-Passes custom_spin_lock call inside l v h = (refl, omega (arith, h, v.one), omega arith)
go-Passes critical_section call stage l v h = go_critical-Passes call stage l h
go-Passes system_spin_lock call stage l v h = go_critical-Passes call stage l h

placed-IsHeld :
    {type : LockType} (i : ℕ) (stage : Stage) (l after : Spin) (r : Option (Stage × Spin))
    → IsHeld type l
    → get_elem? l.threads i ≡ some stage
    → Passes type stage l r
    → placed i l r ≡ some after
    → IsHeld type after
placed-IsHeld i stage l after none v at p e = cc
placed-IsHeld {type} i stage l after (some (next, a)) v at (same, change, one) e =
    subst (IsHeld type) (Opt.some-injective _ after e) (record {
      counted = omega (arith, total-set holder l.threads i stage next at, change, v.counted);
      one = one;
    })

moves-IsHeld :
    {type : LockType} (call : Attempt) (i : ℕ) (l after : Spin) (at : Option Stage)
    → IsHeld type l
    → get_elem? l.threads i ≡ at
    → moves type call i l at ≡ some after
    → IsHeld type after
moves-IsHeld call i l after none v at e = cc
moves-IsHeld {type} call i l after (some stage) v at e =
    placed-IsHeld i stage l after (go type call stage l) v at
      (go-Passes type call stage l v
        (omega (arith, total-ge holder l.threads i stage at, v.counted)))
      e

Reachable-IsHeld : {type : LockType} {n : ℕ} {l : Spin} → Reachable type n l → IsHeld type l
Reachable-IsHeld {type} {n} start = new_spin-IsHeld type n
Reachable-IsHeld (move {l} {after} call i r e) =
    moves-IsHeld call i l after (get_elem? l.threads i) (Reachable-IsHeld r) refl e

-- Two threads inside are two of the count.
two_inside :
    (ts : List Stage) (i j : ℕ)
    → get_elem? ts i ≡ some inside
    → get_elem? ts j ≡ some inside
    → i ≢ j
    → 2 ≤ total holder ts
two_inside [] i j at to other = cc
two_inside (t ∷ ts) zero zero at to other = absurd (other refl)
two_inside (t ∷ ts) zero (suc j) at to other =
    omega (arith, ap holder (Opt.some-injective t inside at), total-ge holder ts j inside to)
two_inside (t ∷ ts) (suc i) zero at to other =
    omega (arith, ap holder (Opt.some-injective t inside to), total-ge holder ts i inside at)
two_inside (t ∷ ts) (suc i) (suc j) at to other =
    omega (arith, two_inside ts i j at to (λ e. other (ap suc e)))

exclusive :
    {type : LockType} {l : Spin} (i j : ℕ)
    → IsHeld type l
    → get_elem? l.threads i ≡ some inside
    → get_elem? l.threads j ≡ some inside
    → i ≡ j
exclusive {type} {l} i j v at to = elim (Bool-cases (i == j)) [
  | inl e ↦ ground arith
  | inr other ↦
      absurd (omega (arith, v.counted, v.one, two_inside l.threads i j at to (λ e. ground arith)))
]

none_inside : (ts : List Stage) → ((j : ℕ) → get_elem? ts j ≢ some inside) → total holder ts ≡ 0
none_inside [] none_of = refl
none_inside (t ∷ ts) none_of =
    omega (arith, still t (none_of 0), none_inside ts (λ j. none_of (suc j)))
  where
    still : (t : Stage) → some t ≢ some inside → holder t ≡ 0
    still outside h = refl
    still (spinning n) h = refl
    still (yielding n) h = refl
    still sleeping h = refl
    still inside h = absurd (h refl)

get-set :
    (ts : List Stage) (i : ℕ) (s t : Stage)
    → get_elem? ts i ≡ some s
    → get_elem? (set ts i t) i ≡ some t
get-set [] i s t e = cc
get-set (x ∷ ts) zero s t e = refl
get-set (x ∷ ts) (suc i) s t e = get-set ts i s t e

-- A step of the thread takes it inside.
abbrev pub Enters : ℕ → Spin → Type 0
Enters i l =
    (after : Spin) × (step custom_spin_lock enter i l ≡ some after)
    × (get_elem? after.threads i ≡ some inside)

exchange_free :
    (otherwise : Stage) (l : Spin)
    → l.custom_lock ≡ 0
    → exchange otherwise l ≡ (inside, record l { custom_lock = 1 })
unfolding exchange
exchange_free otherwise l free =
    ap (λ (c : ℕ). ((if c == 0 then inside else otherwise), record l { custom_lock = 1 })) free

step_lem :
    (i : ℕ) (stage : Stage) (l : Spin) (r : Stage × Spin)
    → get_elem? l.threads i ≡ some stage
    → go_custom enter stage l ≡ r
    → step custom_spin_lock enter i l ≡ placed i l (some r)
unfolding go
step_lem i stage l r at e =
    ap (moves custom_spin_lock enter i l) at ∙ ap (λ (r : Stage × Spin). placed i l (some r)) e

exchange-Enters :
    (i : ℕ) (stage otherwise : Stage) (l : Spin)
    → get_elem? l.threads i ≡ some stage
    → l.custom_lock ≡ 0
    → go_custom enter stage l ≡ exchange otherwise l
    → Enters i l
exchange-Enters i stage otherwise l at free e = (
  record l { custom_lock = 1; threads = set l.threads i inside },
  step_lem i stage l (inside, record l { custom_lock = 1 }) at (e ∙ exchange_free otherwise l free),
  get-set l.threads i stage inside at,
)

-- The first two loops of `Wait` end with a step that does not try.
turns-Enters :
    (i : ℕ) (stage next otherwise : Stage) (l : Spin)
    → get_elem? l.threads i ≡ some stage
    → l.custom_lock ≡ 0
    → go_custom enter stage l ≡ (next, l)
    → go_custom enter next (record l { threads = set l.threads i next })
      ≡ exchange otherwise (record l { threads = set l.threads i next })
    → (mid : Spin) × (step custom_spin_lock enter i l ≡ some mid) × Enters i mid
turns-Enters i stage next otherwise l at free e f = (
  record l { threads = set l.threads i next },
  step_lem i stage l (next, l) at e,
  exchange-Enters i next otherwise (record l { threads = set l.threads i next })
      (get-set l.threads i stage next at) free f,
)

enters :
    (i : ℕ) (stage : Stage) (l : Spin)
    → get_elem? l.threads i ≡ some stage
    → l.custom_lock ≡ 0
    → stage ≢ inside
    → Enters i l ⊎ ((mid : Spin) × (step custom_spin_lock enter i l ≡ some mid) × Enters i mid)
unfolding go_custom
enters i outside l at free out = inl (exchange-Enters i outside _ l at free refl)
enters i (spinning (suc n)) l at free out =
    inl (exchange-Enters i (spinning (suc n)) _ l at free refl)
enters i (yielding (suc n)) l at free out =
    inl (exchange-Enters i (yielding (suc n)) _ l at free refl)
enters i sleeping l at free out = inl (exchange-Enters i sleeping _ l at free refl)
enters i (spinning zero) l at free out =
    inr (turns-Enters i (spinning zero) _ _ l at free refl refl)
enters i (yielding zero) l at free out =
    inr (turns-Enters i (yielding zero) _ _ l at free refl refl)
enters i inside l at free out = absurd (out refl)

-- With each type of lock, however the threads that use it interleave, no two are between `Enter`, or a
-- `TryEnter` that returned true, and `Leave`.
pub Reachable-inside :
    {type : LockType} {n : ℕ} {l : Spin} (i j : ℕ)
    → Reachable type n l
    → i ≢ j
    → get_elem? l.threads i ≡ some inside
    → get_elem? l.threads j ≢ some inside
Reachable-inside i j r other at to = other (exclusive i j (Reachable-IsHeld r) at to)

-- However the threads that use a custom spin lock have interleaved, while none is between `Enter` or a
-- `TryEnter` that returned true, and `Leave`, each thread that is in `Enter`, whichever loop of `Wait` it
-- is in, or that calls it next, is through it after its next step, or after the next two.
pub Reachable-Enters :
    {n : ℕ} {l : Spin} (i : ℕ) (stage : Stage)
    → Reachable custom_spin_lock n l
    → ((j : ℕ) → get_elem? l.threads j ≢ some inside)
    → get_elem? l.threads i ≡ some stage
    → Enters i l ⊎ ((mid : Spin) × (step custom_spin_lock enter i l ≡ some mid) × Enters i mid)
Reachable-Enters {n} {l} i stage r none_of at =
    enters i stage l at (omega (arith, (Reachable-IsHeld r).counted, none_inside l.threads none_of))
      (λ e. none_of i (at ∙ ap some e))
