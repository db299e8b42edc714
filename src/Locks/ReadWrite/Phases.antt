-- ===== src/Locks/ReadWrite/Phases.antt =====
-- Marks of the phases of src/AuthServer/Lock.cpp, `CRWLock`, and how many threads have them.
use game_login.Base.{ℕ, zero, suc, ◌+◌, ◌≤◌, ◌≡◌, List, [], ◌∷◌, arith, get_elem?, set, some}
use game_login.Locks.ReadWrite.{
  Phase, idle, entered, waiting, counted, reading, leaving, releasing, left, writing,
}

-- Marks of a phase: included in `readerCount`; at the wait for the semaphore; at its release; at
-- another place inside `mutex`.
abbrev pub reader : Phase → ℕ
reader idle = 0
reader entered = 0
reader waiting = 1
reader counted = 1
reader reading = 1
reader leaving = 1
reader releasing = 0
reader left = 0
reader writing = 0

abbrev pub waits : Phase → ℕ
waits waiting = 1
waits _ = 0

abbrev pub releases : Phase → ℕ
releases releasing = 1
releases _ = 0

abbrev pub quiet : Phase → ℕ
quiet entered = 1
quiet counted = 1
quiet leaving = 1
quiet left = 1
quiet _ = 0

abbrev pub writes : Phase → ℕ
writes writing = 1
writes _ = 0

-- The number of threads between `ReadLock` and `ReadUnlock`.
abbrev pub reads : Phase → ℕ
reads reading = 1
reads _ = 0

unfoldable pub count : (Phase → ℕ) → List Phase → ℕ
count mark [] = 0
count mark (p ∷ ps) = mark p + count mark ps

pub count-set :
    (mark : Phase → ℕ) (ps : List Phase) (i : ℕ) (p q : Phase)
    → get_elem? ps i ≡ some p
    → count mark (set ps i q) + mark p ≡ count mark ps + mark q
unfolding count
count-set mark [] i p q e = cc
count-set mark (r ∷ ps) zero p q e = ground arith
count-set mark (r ∷ ps) (suc i) p q e = omega (arith, count-set mark ps i p q e)

pub count-le :
    (mark : Phase → ℕ) (ps : List Phase) (i : ℕ) (p : Phase)
    → get_elem? ps i ≡ some p
    → mark p ≤ count mark ps
unfolding count
count-le mark [] i p e = cc
count-le mark (r ∷ ps) zero p e = ground arith
count-le mark (r ∷ ps) (suc i) p e = omega (arith, count-le mark ps i p e)

some_reader : (p : Phase) → reads p + waits p ≤ reader p
some_reader idle = omega arith
some_reader entered = omega arith
some_reader waiting = omega arith
some_reader counted = omega arith
some_reader reading = omega arith
some_reader leaving = omega arith
some_reader releasing = omega arith
some_reader left = omega arith
some_reader writing = omega arith

pub readers-le : (ps : List Phase) → count reads ps + count waits ps ≤ count reader ps
unfolding count
readers-le [] = omega arith
readers-le (p ∷ ps) = omega (arith, some_reader p, readers-le ps)
