-- ===== src/Locks/ReadWrite.antt =====
-- `CRWLock` of src/AuthServer/Lock.cpp: the threads' steps through its methods, in any order. The
-- semaphore and the critical section are the system's: a wait is a step that can be taken when the count
-- is above zero, and `EnterCriticalSection` one when no thread is inside.
pub mod Phases
pub mod Exclusion
pub mod Progress
use game_login.Base.{
  ℕ, zero, suc, ◌+◌, ◌-◌, ◌≡◌, ◌<◌, Bool, true, false, List, [], ◌∷◌, Option, none, some, ◌==◌, ltb,
  if◌then◌else◌, get_elem?, set, replicate,
}

-- Where a thread is. The phases from `entered` to `left` are inside the critical section `mutex`.
pub data Phase : Type 0 where
  idle : Phase
  -- `ReadLock`: at `++readerCount`, at the wait for `dataLock`, and at `LeaveCriticalSection`.
  entered : Phase
  waiting : Phase
  counted : Phase
  -- Between `ReadLock` and `ReadUnlock`.
  reading : Phase
  -- `ReadUnlock`: at `--readerCount`, at `ReleaseSemaphore`, and at `LeaveCriticalSection`.
  leaving : Phase
  releasing : Phase
  left : Phase
  -- Between `WriteLock`, or a `WriteTryLock` that returned true, and `WriteUnlock`.
  writing : Phase

pub record Lock : Type 0 where
  pub reader_count : ℕ
  pub data_lock : ℕ
  pub mutex : Bool
  pub threads : List Phase

-- `CRWLock::CRWLock`, with `n` threads that will use the lock.
unfoldable pub initial : ℕ → Lock
initial n = record { reader_count = 0; data_lock = 1; mutex = false; threads = replicate n idle }

-- `ReleaseSemaphore` by 1 of a semaphore whose greatest count is 1.
pub release : ℕ → ℕ
release data_lock = if ltb data_lock 1 then data_lock + 1 else data_lock

-- What a thread does next: read-lock or write-lock when it is idle, and go on otherwise.
pub data Choice : Type 0 where
  read : Choice
  write : Choice

-- The next step of a thread in a phase: the phase after it and the lock, or `none` while it is blocked.
unfoldable pub advance : Choice → Phase → Lock → Option (Phase × Lock)
advance read idle l = if l.mutex then none else some (entered, record l { mutex = true })
advance write idle l =
    if l.data_lock == 0 then none else some (writing, record l { data_lock = l.data_lock - 1 })
advance _ entered l = some (
  (if (l.reader_count + 1) == 1 then waiting else counted),
  record l { reader_count = l.reader_count + 1 },
)
advance _ waiting l =
    if l.data_lock == 0 then none else some (counted, record l { data_lock = l.data_lock - 1 })
advance _ counted l = some (reading, record l { mutex = false })
advance _ reading l = if l.mutex then none else some (leaving, record l { mutex = true })
advance _ leaving l = some (
  (if (l.reader_count - 1) == 0 then releasing else left),
  record l { reader_count = l.reader_count - 1 },
)
advance _ releasing l = some (left, record l { data_lock = release l.data_lock })
advance _ left l = some (idle, record l { mutex = false })
advance _ writing l = some (idle, record l { data_lock = release l.data_lock })

-- The thread with index `i`, in the phase given, takes a step.
unfoldable pub finish : ℕ → Lock → Option (Phase × Lock) → Option Lock
finish i l none = none
finish i l (some (next, after)) = some (record after { threads = set l.threads i next })

unfoldable pub act : Choice → ℕ → Lock → Option Phase → Option Lock
act choice i l none = none
act choice i l (some phase) = finish i l (advance choice phase l)

unfoldable pub step : Choice → ℕ → Lock → Option Lock
step choice i l = act choice i l (get_elem? l.threads i)

-- The states that `n` threads, idle at first, can come to.
pub data Reachable (n : ℕ) : Lock → Type 0 where
  start : Reachable n (initial n)
  move :
      {l after : Lock} (choice : Choice) (i : ℕ)
      → Reachable n l
      → step choice i l ≡ some after
      → Reachable n after
