-- ===== src/Locks/Spin.antt =====
-- `CLock` of src/AuthServer/Lock.cpp: the threads' steps through its methods, in any order. An exchange
-- and the calls for `m_critical` are steps of the system; a thread that is inside only leaves.
pub mod Exclusion
use game_login.Base.{
  ℕ, zero, suc, ◌≡◌, Bool, true, false, List, [], ◌∷◌, Option, none, some, ◌==◌, if◌then◌else◌,
  get_elem?, set, replicate,
}

pub data LockType : Type 0 where
  critical_section : LockType
  system_spin_lock : LockType
  custom_spin_lock : LockType

-- Where a thread is: between two uses, in the three loops of `Wait` with the `count` left in the first
-- two, and between `Enter` and `Leave`.
pub data Stage : Type 0 where
  outside : Stage
  spinning : ℕ → Stage
  yielding : ℕ → Stage
  sleeping : Stage
  inside : Stage

pub record Spin : Type 0 where
  pub custom_lock : ℕ
  -- Whether a thread is in `m_critical`.
  pub critical : Bool
  pub threads : List Stage

-- `CLock::CLock`, with `n` threads that will use the lock.
unfoldable pub new_spin : ℕ → Spin
new_spin n = record { custom_lock = 0; critical = false; threads = replicate n outside }

-- What a thread that is outside calls.
pub data Attempt : Type 0 where
  enter : Attempt
  try_enter : Attempt

abbrev pub wait_count : ℕ
wait_count = 4000

-- `InterlockedExchange(&m_customLock, 1)`: the thread is inside if it was 0.
unfoldable pub exchange : Stage → Spin → Stage × Spin
exchange otherwise l =
    ((if l.custom_lock == 0 then inside else otherwise), record l { custom_lock = 1 })

-- The next step of a thread, with `eCustomSpinLock`.
unfoldable pub go_custom : Attempt → Stage → Spin → Stage × Spin
go_custom enter outside l = exchange (spinning wait_count) l
go_custom try_enter outside l = exchange outside l
go_custom _ (spinning (suc count)) l = exchange (spinning count) l
go_custom _ (spinning zero) l = (yielding wait_count, l)
go_custom _ (yielding (suc count)) l = exchange (yielding count) l
go_custom _ (yielding zero) l = (sleeping, l)
go_custom _ sleeping l = exchange sleeping l
go_custom _ inside l = (outside, record l { custom_lock = 0 })

-- With the other types, where no thread comes to `Wait`; `none` while it is blocked.
unfoldable pub go_critical : Attempt → Stage → Spin → Option (Stage × Spin)
go_critical enter outside l =
    if l.critical then none else some (inside, record l { critical = true })
go_critical try_enter outside l = some (outside, l)
go_critical _ inside l = some (outside, record l { critical = false })
go_critical _ (spinning _) l = none
go_critical _ (yielding _) l = none
go_critical _ sleeping l = none

unfoldable pub go : LockType → Attempt → Stage → Spin → Option (Stage × Spin)
go custom_spin_lock call stage l = some (go_custom call stage l)
go critical_section call stage l = go_critical call stage l
go system_spin_lock call stage l = go_critical call stage l

-- The thread with index `i`, at the stage given, takes a step.
abbrev pub placed : ℕ → Spin → Option (Stage × Spin) → Option Spin
placed i l none = none
placed i l (some (next, after)) = some (record after { threads = set l.threads i next })

abbrev pub moves : LockType → Attempt → ℕ → Spin → Option Stage → Option Spin
moves type call i l none = none
moves type call i l (some stage) = placed i l (go type call stage l)

abbrev pub step : LockType → Attempt → ℕ → Spin → Option Spin
step type call i l = moves type call i l (get_elem? l.threads i)

-- The states that `n` threads, outside at first, can come to.
pub data Reachable (type : LockType) (n : ℕ) : Spin → Type 0 where
  start : Reachable type n (new_spin n)
  move :
      {l after : Spin} (call : Attempt) (i : ℕ)
      → Reachable type n l
      → step type call i l ≡ some after
      → Reachable type n after
