-- ===== src/Locks/ReadWrite/Progress.antt =====
-- The lock cannot come to a standstill.
use game_login.Base.{
  ℕ, suc, ◌+◌, ◌-◌, ◌≤◌, ◌<◌, ◌≡◌, refl, ap, ◌∙◌, true, false, List, [], ◌∷◌, ltb, arith, get_elem?,
  set, some, inl, inr, Bool-cases, ◌≢◌,
}
use game_login.Locks.ReadWrite.{
  Phase, idle, entered, waiting, counted, reading, leaving, releasing, left, writing, Lock, read,
  advance, finish, act, step, Reachable,
}
use game_login.Locks.ReadWrite.Exclusion.{Reachable-IsLock}
use game_login.Locks.ReadWrite.Phases.{reads, writes, waits, releases, quiet, count, count-le}

-- A thread whose phase has a mark that is counted.
marked :
    (mark : Phase → ℕ) (ps : List Phase)
    → 0 < count mark ps
    → (i : ℕ) × (p : Phase) × (get_elem? ps i ≡ some p) × (0 < mark p)
unfolding count
marked mark [] h = absurd (omega arith)
marked mark (p ∷ ps) h = elim (Bool-cases (ltb 0 (mark p))) [
  | inl e ↦ (0, p, refl, ground (arith, e))
  | inr e ↦ let rest = marked mark ps (ground (arith, e, h)) in (suc rest.0, rest.1, rest.2, rest.3)
]

-- A thread that can go on with what it has begun.
abbrev pub CanMove : Lock → Type 0
CanMove l =
    (i : ℕ) × (p : Phase) × (after : Lock) × (get_elem? l.threads i ≡ some p)
    × (p ≢ idle)
    × (step read i l ≡ some after)

go_on :
    (l : Lock) (i : ℕ) (p q : Phase) (after : Lock)
    → get_elem? l.threads i ≡ some p
    → p ≢ idle
    → advance read p l ≡ some (q, after)
    → CanMove l
go_on l i p q after e busy f = (
  i,
  p,
  record after { threads = set l.threads i q },
  e,
  busy,
  unfold step act finish in ap (act read i l) e ∙ ap (finish i l) f,
)

-- A thread that waits for neither the semaphore nor `mutex`.
step_on :
    (l : Lock) (i : ℕ) (p : Phase)
    → get_elem? l.threads i ≡ some p
    → p ≢ idle
    → (0 < waits p → 0 < l.data_lock)
    → (0 < reads p → l.mutex ≡ false)
    → CanMove l
unfolding advance
step_on l i idle e busy w m = absurd (busy refl)
step_on l i entered e busy w m = go_on l i entered _ _ e busy refl
step_on l i waiting e busy w m =
    let free = w (omega arith) in
    go_on l i waiting counted (record l { data_lock = l.data_lock - 1 }) e busy
      (ground (arith, free))
step_on l i counted e busy w m = go_on l i counted _ _ e busy refl
step_on l i reading e busy w m =
    go_on l i reading leaving (record l { mutex = true }) e busy (rw (m (omega arith)) refl)
step_on l i leaving e busy w m = go_on l i leaving _ _ e busy refl
step_on l i releasing e busy w m = go_on l i releasing _ _ e busy refl
step_on l i left e busy w m = go_on l i left _ _ e busy refl
step_on l i writing e busy w m = go_on l i writing _ _ e busy refl

one_mark : (p : Phase) → quiet p + releases p + writes p + waits p + reads p ≤ 1
one_mark idle = omega arith
one_mark entered = omega arith
one_mark waiting = omega arith
one_mark counted = omega arith
one_mark reading = omega arith
one_mark leaving = omega arith
one_mark releasing = omega arith
one_mark left = omega arith
one_mark writing = omega arith

not_idle : (mark : Phase → ℕ) (p : Phase) → mark idle ≡ 0 → 0 < mark p → p ≢ idle
not_idle mark p e h f = absurd (omega (arith, e, h, ap mark f))

-- A thread that is past its waits, or waits for a semaphore that is free.
unblocked : (l : Lock) → 0 < count (λ p. quiet p + releases p + writes p) l.threads → CanMove l
unblocked l h =
    let t = marked (λ p. quiet p + releases p + writes p) l.threads h in
    let one = one_mark t.1 in
    step_on l t.0 t.1 t.2 (not_idle (λ p. quiet p + releases p + writes p) t.1 refl t.3)
      (λ k. absurd (omega (arith, one, t.3, k))) (λ k. absurd (omega (arith, one, t.3, k)))

count-add :
    (f g h : Phase → ℕ) (ps : List Phase)
    → count (λ p. f p + g p + h p) ps ≡ count f ps + count g ps + count h ps
unfolding count
count-add f g h [] = omega arith
count-add f g h (p ∷ ps) = omega (arith, count-add f g h ps)

wait_over : (l : Lock) → 0 < count waits l.threads → 0 < l.data_lock → CanMove l
wait_over l h free =
    let t = marked waits l.threads h in
    let one = one_mark t.1 in
    step_on l t.0 t.1 t.2 (not_idle waits t.1 refl t.3) (λ k. free)
      (λ k. absurd (omega (arith, one, t.3, k)))

-- In every state that threads can bring a new lock to, if a thread has begun a lock or holds it, then some
-- such thread is not blocked: the threads never all wait for one another.
pub Reachable-CanMove :
    (n : ℕ) (l : Lock) (i : ℕ) (p : Phase)
    → Reachable n l
    → get_elem? l.threads i ≡ some p
    → p ≢ idle
    → CanMove l
Reachable-CanMove n l i p r e busy =
    let v = Reachable-IsLock n l r in
    let sum = count-add quiet releases writes l.threads in
    elim (Bool-cases (ltb 0 (count (λ p. quiet p + releases p + writes p) l.threads))) [
      | inl f ↦ unblocked l (ground (arith, f))
      | inr f ↦ elim (Bool-cases l.mutex) [
        | inl m ↦
            wait_over l (ground (arith, f, m, sum, v.holds)) (ground (arith, f, m, sum, v.holds))
        | inr m ↦
            step_on l i p e busy
              (λ k. absurd (ground (arith, m, k, v.holds, count-le waits l.threads i p e))) (λ k. m)
      ]
    ]
