-- ===== src/Examples/Threads.antt =====
-- Sockets, locks and settings at concrete inputs.
use game_login.Base.{
  ◌++◌, ◌⊎◌, suc, ◌%◌, ◌^◌, ◌≤◌, ◌≡◌, refl, Bool, true, false, not, ◌&&◌, ◌||◌, leb, ◌==◌, List, [],
  ◌∷◌, ◌++◌, some, arith, length, All,
}
use game_login.Wire.Framing.Segments.{flatten}
use game_login.Sockets.Writes.{empty_writer}
use game_login.Sockets.Writes.Calls.{waiting, IsBuffer}
use game_login.Sockets.Writes.Flight.{Flies, fly, on_ground, fly-on_ground}
use game_login.Sockets.Writes.Order.{
  Event, buffer_event, bytes_event, done_event, run, written, run-written,
}
use game_login.Locks.ReadWrite.{
  Lock, idle, writing, initial, write, step, act, finish, advance, Reachable, start, move,
}
use game_login.Locks.ReadWrite.Phases.{count, reads, writes}
use game_login.Locks.ReadWrite.Exclusion.{Reachable-writes}
use game_login.Locks.ReadWrite.Progress.{CanMove, Reachable-CanMove}
use game_login.Settings.Reactivation.{
  SystemTime, load_period, is_reactivation_active, is_valid_date_time,
}
use game_login.Settings.Reactivation.Period.{stamp, is_reactivation_active-load_period}
use game_login.Settings.Logging.{at_start, presses, level, turn, Shows, presses_lem}

abbrev events : List Event
events =
    buffer_event (1 ∷ 2 ∷ []) ∷ bytes_event (3 ∷ []) ∷ buffer_event (4 ∷ []) ∷ done_event 2 ∷ []

run-written_example :
    let r = run events empty_writer in
    (flatten r.started ++ waiting r.writer.queue ≡ written events)
    × All IsBuffer r.started
    × (r.writer.pending ≡ length (flatten r.writer.queue) % 2 ^ 32)
run-written_example = run-written events (omega arith)

-- The first of two threads has the lock for writing.
abbrev writer_first : Lock
writer_first = record {
  reader_count = 0;
  data_lock = 0;
  mutex = false;
  threads = writing ∷ idle ∷ [];
}

reached : Reachable 2 writer_first
unfolding step act finish advance initial
reached = move write 0 start refl

Reachable-writes_example :
    (count writes (writing ∷ idle ∷ []) ≤ 1)
    × ((count writes (writing ∷ idle ∷ []) ≡ 0) ⊎ (count reads (writing ∷ idle ∷ []) ≡ 0))
Reachable-writes_example = Reachable-writes 2 writer_first reached

Reachable-CanMove_example : CanMove writer_first
Reachable-CanMove_example = Reachable-CanMove 2 writer_first 0 writing reached refl (λ e. cc)

abbrev march : SystemTime
march = record { year = 2004; month = 3; day = 1; hour = 0; minute = 0 }

abbrev april : SystemTime
april = record { year = 2004; month = 4; day = 1; hour = 12; minute = 30 }

is_reactivation_active-load_period_example :
    is_reactivation_active 0 (load_period (some april) (some march)) march ≡ (
      not (0 == 0)
      || ((leb (stamp april) (stamp march) && leb (stamp march) (stamp march))
          || (leb (stamp march) (stamp march) && leb (stamp march) (stamp april))))
is_reactivation_active-load_period_example =
    is_reactivation_active-load_period 0 april march march (omega arith) (omega arith) (omega arith)
      (unfold is_valid_date_time in refl) (unfold is_valid_date_time in refl)

presses_lem_example : Shows (level (turn (suc 4))) (presses (suc 4) (at_start false true))
presses_lem_example = presses_lem false true 4

-- The second send is reported with one byte of its three, and then nothing is sent.
abbrev sends : List (Event × Bool)
sends =
    (buffer_event (1 ∷ 2 ∷ []), true)
    ∷ (buffer_event (3 ∷ 4 ∷ 5 ∷ []), true)
    ∷ (done_event 2, true)
    ∷ (done_event 1, true)
    ∷ (bytes_event (6 ∷ []), true)
    ∷ []

fly-on_ground_example : let f = fly sends on_ground in Flies f.failed f
fly-on_ground_example = fly-on_ground sends
