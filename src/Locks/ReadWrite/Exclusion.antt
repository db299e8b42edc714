-- ===== src/Locks/ReadWrite/Exclusion.antt =====
-- Readers and writers keep out of each other's way.
use game_login.Base.{
  ℕ, zero, suc, ◌+◌, ◌-◌, ◌≤◌, ◌<◌, ◌≡◌, refl, sym, subst, Bool, true, false, ◌==◌, arith,
  get_elem?, set, replicate, Option, none, some, inl, inr, Bool-cases, ◌⊎◌,
}
use game_login.Locks.ReadWrite.{
  Phase, idle, entered, waiting, counted, reading, leaving, releasing, left, writing, Lock, initial,
  release, Choice, read, write, advance, finish, act, step, Reachable, start, move,
}
use game_login.Locks.ReadWrite.Phases.{
  reader, waits, releases, quiet, writes, reads, count, count-set, count-le, readers-le,
}

abbrev pub bit : Bool → ℕ
bit true = 1
bit false = 0

-- The semaphore is free, or with one writer or with a reader that takes or gives it back, or it is with
-- the readers as a whole; and at most one thread is inside `mutex`.
abbrev pub Holds :
    (data_lock : ℕ) (mutex : Bool) (readers waiters releasers quiets writers : ℕ) → Type 0
Holds d m r wt rl q w =
    (wt + rl + q ≡ bit m)
    × (((r ≡ wt) × (d + w + rl ≡ 1)) ⊎ ((wt ≡ 0) × (0 < r) × (d + w + rl ≡ 0)))

pub record IsLock (l : Lock) : Type 0 where
  pub counts : l.reader_count ≡ count reader l.threads
  pub holds :
      Holds l.data_lock l.mutex
        (count reader l.threads)
        (count waits l.threads)
        (count releases l.threads)
        (count quiet l.threads)
        (count writes l.threads)

count-replicate : (mark : Phase → ℕ) (n : ℕ) → mark idle ≡ 0 → count mark (replicate n idle) ≡ 0
unfolding count
count-replicate mark zero e = refl
count-replicate mark (suc n) e = omega (arith, e, count-replicate mark n e)

initial-IsLock : (n : ℕ) → IsLock (initial n)
unfolding initial
initial-IsLock n =
    let zero_of = λ (mark : Phase → ℕ) (e : mark idle ≡ 0). count-replicate mark n e in
    record {
      counts = sym (zero_of reader refl);
      holds = ground (
        arith,
        zero_of reader refl,
        zero_of waits refl,
        zero_of releases refl,
        zero_of quiet refl,
        zero_of writes refl,
      );
    }

-- What a thread's move comes to, if it is not blocked.
abbrev Kept : ℕ → Lock → Option (Phase × Lock) → Type 0
Kept i l none = Unit
Kept i l (some (q, after)) = IsLock (record after { threads = set l.threads i q })

module _ (i : ℕ) (l : Lock) (v : IsLock l) where
  -- The counts after the thread's move from `p` to `q`, and its own part in those before.
  moved :
      (mark : Phase → ℕ) (p q : Phase)
      → get_elem? l.threads i ≡ some p
      → (count mark (set l.threads i q) + mark p ≡ count mark l.threads + mark q)
        × (mark p ≤ count mark l.threads)
  moved mark p q e = (count-set mark l.threads i p q e, count-le mark l.threads i p e)

  -- A move is sound if it is on the numbers that the threads sum to.
  move-IsLock :
      (p q : Phase) (after : Lock)
      → get_elem? l.threads i ≡ some p
      → after.reader_count + reader p ≡ l.reader_count + reader q
      → ((r wt rl qu w : ℕ)
          → r + reader p ≡ count reader l.threads + reader q
          → wt + waits p ≡ count waits l.threads + waits q
          → rl + releases p ≡ count releases l.threads + releases q
          → qu + quiet p ≡ count quiet l.threads + quiet q
          → w + writes p ≡ count writes l.threads + writes q
          → (reader p ≤ count reader l.threads)
            × (waits p ≤ count waits l.threads)
            × (releases p ≤ count releases l.threads)
            × (quiet p ≤ count quiet l.threads)
            × (writes p ≤ count writes l.threads)
          → Holds after.data_lock after.mutex r wt rl qu w)
      → IsLock (record after { threads = set l.threads i q })
  move-IsLock p q after e n k =
      let c = λ (mark : Phase → ℕ). moved mark p q e in
      record {
        counts = omega (arith, v.counts, (c reader).0, n);
        holds =
            k _ _ _ _ _ (c reader).0 (c waits).0 (c releases).0 (c quiet).0 (c writes).0
              ((c reader).1, (c waits).1, (c releases).1, (c quiet).1, (c writes).1);
      }

  advance-IsLock :
      (choice : Choice) (p : Phase) → get_elem? l.threads i ≡ some p → Kept i l (advance choice p l)
  unfolding advance release
  advance-IsLock read idle e = elim (Bool-cases l.mutex) [
    | inl f ↦ rw (f) tt
    | inr f ↦ rw (f) (
        move-IsLock idle entered (record l { mutex = true }) e (omega arith)
          (λ r wt rl qu w r_ wt_ rl_ qu_ w_ own. ground (arith, v.holds, v.counts, f)))
  ]
  advance-IsLock write idle e = elim (Bool-cases (l.data_lock == 0)) [
    | inl f ↦ rw (f) tt
    | inr f ↦ rw (f) (
        move-IsLock idle writing (record l { data_lock = l.data_lock - 1 }) e (omega arith)
          (λ r wt rl qu w r_ wt_ rl_ qu_ w_ own. ground (arith, v.holds, v.counts, f)))
  ]
  advance-IsLock choice entered e = elim (Bool-cases ((l.reader_count + 1) == 1)) [
    | inl f ↦ rw (f) (
        move-IsLock entered waiting (record l { reader_count = l.reader_count + 1 }) e (omega arith)
          (λ r wt rl qu w r_ wt_ rl_ qu_ w_ own. ground (arith, v.holds, v.counts, f)))
    | inr f ↦ rw (f) (
        move-IsLock entered counted (record l { reader_count = l.reader_count + 1 }) e (omega arith)
          (λ r wt rl qu w r_ wt_ rl_ qu_ w_ own. ground (arith, v.holds, v.counts, f)))
  ]
  advance-IsLock choice waiting e = elim (Bool-cases (l.data_lock == 0)) [
    | inl f ↦ rw (f) tt
    | inr f ↦ rw (f) (
        move-IsLock waiting counted (record l { data_lock = l.data_lock - 1 }) e (omega arith)
          (λ r wt rl qu w r_ wt_ rl_ qu_ w_ own. ground (arith, v.holds, v.counts, f)))
  ]
  advance-IsLock choice counted e =
      move-IsLock counted reading (record l { mutex = false }) e (omega arith)
        (λ r wt rl qu w r_ wt_ rl_ qu_ w_ own. ground (arith, v.holds, v.counts))
  advance-IsLock choice reading e = elim (Bool-cases l.mutex) [
    | inl f ↦ rw (f) tt
    | inr f ↦ rw (f) (
        move-IsLock reading leaving (record l { mutex = true }) e (omega arith)
          (λ r wt rl qu w r_ wt_ rl_ qu_ w_ own. ground (arith, v.holds, v.counts, f)))
  ]
  advance-IsLock choice leaving e =
      let some_reader = (moved reader leaving left e).1 in
      elim (Bool-cases ((l.reader_count - 1) == 0)) [
        | inl f ↦ rw (f) (
            move-IsLock leaving releasing (record l { reader_count = l.reader_count - 1 }) e
              (omega (arith, some_reader, v.counts))
              (λ r wt rl qu w r_ wt_ rl_ qu_ w_ own. ground (arith, v.holds, v.counts, f)))
        | inr f ↦ rw (f) (
            move-IsLock leaving left (record l { reader_count = l.reader_count - 1 }) e
              (omega (arith, some_reader, v.counts))
              (λ r wt rl qu w r_ wt_ rl_ qu_ w_ own. ground (arith, v.holds, v.counts, f)))
      ]
  advance-IsLock choice releasing e =
      move-IsLock releasing left (record l { data_lock = release l.data_lock }) e (omega arith)
        (λ r wt rl qu w r_ wt_ rl_ qu_ w_ own. ground (arith, v.holds, v.counts))
  advance-IsLock choice left e =
      move-IsLock left idle (record l { mutex = false }) e (omega arith)
        (λ r wt rl qu w r_ wt_ rl_ qu_ w_ own. ground (arith, v.holds, v.counts))
  advance-IsLock choice writing e =
      move-IsLock writing idle (record l { data_lock = release l.data_lock }) e (omega arith)
        (λ r wt rl qu w r_ wt_ rl_ qu_ w_ own. ground (arith, v.holds, v.counts))

abbrev After : Option Lock → Type 0
After none = Unit
After (some l) = IsLock l

finish-IsLock : (i : ℕ) (l : Lock) (o : Option (Phase × Lock)) → Kept i l o → After (finish i l o)
unfolding finish
finish-IsLock i l none k = tt
finish-IsLock i l (some (q, after)) k = k

act-IsLock :
    (choice : Choice) (i : ℕ) (l : Lock) (o : Option Phase)
    → IsLock l
    → get_elem? l.threads i ≡ o
    → After (act choice i l o)
unfolding act
act-IsLock choice i l none v e = tt
act-IsLock choice i l (some p) v e =
    finish-IsLock i l (advance choice p l) (advance-IsLock i l v choice p e)

step-IsLock : (choice : Choice) (i : ℕ) (l : Lock) → IsLock l → After (step choice i l)
unfolding step
step-IsLock choice i l v = act-IsLock choice i l (get_elem? l.threads i) v refl

pub Reachable-IsLock : (n : ℕ) (l : Lock) → Reachable n l → IsLock l
Reachable-IsLock n l start = initial-IsLock n
Reachable-IsLock n l (move choice i r e) =
    subst After e (step-IsLock choice i _ (Reachable-IsLock n _ r))

-- In every state that threads can bring a new lock to, in whatever order their steps come, at most one
-- thread holds the lock for writing, and there are not both a thread that holds it for writing and one
-- that holds it for reading.
pub Reachable-writes :
    (n : ℕ) (l : Lock)
    → Reachable n l
    → (count writes l.threads ≤ 1) × ((count writes l.threads ≡ 0) ⊎ (count reads l.threads ≡ 0))
Reachable-writes n l r =
    let v = Reachable-IsLock n l r in
    (ground (arith, v.holds), ground (arith, v.holds, readers-le l.threads))
