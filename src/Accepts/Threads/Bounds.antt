-- ===== src/Accepts/Threads/Bounds.antt =====
-- What the counts of the server say while threads take clients and close sockets at the same time.
use game_login.Base.{
  ℕ, zero, suc, ◌+◌, ◌≤◌, ◌<◌, ◌≡◌, refl, ◌∙◌, List, [], ◌∷◌, Option, none, some, arith, length,
  total,
}
use game_login.Base.{get_elem?, set, total-set, total-ge, length-set}
use game_login.Base.OrderedMap.{lookup}
use game_login.Ip.Access.Counts.{connections}
use game_login.Ip.Access.History.{no_connections-IsAccess}
use game_login.Accepts.{new_server}
use game_login.Accepts.Limits.{of_address}
use game_login.Accepts.Threads.{
  Phase, waits, checked, allowed, made, closing, uncounted, erased, Order, Hall, tick, move,
  advance, run,
}
use game_login.Accepts.Threads.Shares.{counts, passed, holds, Counted, IsFresh, tick-Counted}

-- A thread that puts a socket into the table has a fresh handle.
abbrev pub IsStep : Option Phase → Hall → Type 0
IsStep none hall = Unit
IsStep (some p) hall = IsFresh p hall

abbrev pub AllFresh : ℕ → ℕ → List (ℕ × Order) → Hall × List Phase → Type 0
AllFresh socket_limit ip_limit [] h = Unit
AllFresh socket_limit ip_limit (m ∷ ms) h =
    IsStep (get_elem? h.1 m.0) h.0
    × AllFresh socket_limit ip_limit ms (advance socket_limit ip_limit m h)

passed_one : (p : Phase) → passed p ≤ 1
passed_one waits = omega arith
passed_one (checked s ip) = omega arith
passed_one (allowed s ip) = omega arith
passed_one (made s ip) = omega arith
passed_one (closing s ip) = omega arith
passed_one (uncounted s ip) = omega arith
passed_one (erased s ip) = omega arith

passed_le : (threads : List Phase) → total passed threads ≤ length threads
passed_le [] = omega arith
passed_le (p ∷ ps) = omega (arith, passed_one p, passed_le ps)

module _ (socket_limit ip_limit : ℕ) (on : 0 < ip_limit) (n : ℕ) where
  abbrev Sums : Hall → List Phase → Type 0
  Sums hall threads =
      Counted socket_limit ip_limit n hall (total counts threads) (total passed threads)
        (λ j. total (holds j) threads)

  advance-Counted :
      (i : ℕ) (o : Order) (hall : Hall) (threads : List Phase)
      → length threads ≡ n
      → Sums hall threads
      → IsStep (get_elem? threads i) hall
      → let r = advance socket_limit ip_limit (i, o) (hall, threads) in
        (length r.1 ≡ n) × Sums r.0 r.1
  unfolding advance
  advance-Counted i o hall threads size v fresh = move-Counted (get_elem? threads i) refl fresh
    where
      move-Counted :
          (q : Option Phase)
          → get_elem? threads i ≡ q
          → IsStep q hall
          → let r = move socket_limit ip_limit i o q (hall, threads) in
            (length r.1 ≡ n) × Sums r.0 r.1
      move-Counted none e step = unfold move in (size, v)
      move-Counted (some p) e step =
          let next = (tick socket_limit ip_limit o p hall).1 in
          unfold move in
          (
            length-set threads i next ∙ size,
            tick-Counted socket_limit ip_limit on n o p hall (total counts threads)
                (total passed threads) (total counts (set threads i next))
                (total passed (set threads i next)) (λ j. total (holds j) threads)
                (λ j. total (holds j) (set threads i next)) v step (total-ge counts threads i p e)
                (λ j. total-ge (holds j) threads i p e)
                (omega (arith, size, length-set threads i next, passed_le (set threads i next)))
                (total-set counts threads i p next e) (total-set passed threads i p next e)
                (λ j. total-set (holds j) threads i p next e),
          )

  run-Counted :
      (ms : List (ℕ × Order)) (hall : Hall) (threads : List Phase)
      → length threads ≡ n
      → Sums hall threads
      → AllFresh socket_limit ip_limit ms (hall, threads)
      → let r = run socket_limit ip_limit ms (hall, threads) in Sums r.0 r.1
  unfolding run
  run-Counted [] hall threads size v fresh = v
  run-Counted ((i, o) ∷ ms) hall threads size v (fresh, later) =
      let (size1, v1) = advance-Counted i o hall threads size v fresh in
      let r = advance socket_limit ip_limit (i, o) (hall, threads) in
      run-Counted ms r.0 r.1 size1 v1 later

start-Counted :
    (socket_limit ip_limit n : ℕ)
    → 0 < n
    → Counted socket_limit ip_limit n
        (record { server = new_server; open_sockets = [] })
        0
        0
        (λ j. 0)
unfolding new_server of_address connections lookup
start-Counted socket_limit ip_limit n some_thread = record {
  sound = no_connections-IsAccess;
  sockets = refl;
  addresses = λ ip. refl;
  most = omega arith;
  few = λ ip. omega arith;
}

-- Threads with nothing under way.
abbrev pub all_waiting : ℕ → List Phase
all_waiting zero = []
all_waiting (suc n) = waits ∷ all_waiting n

total-all_waiting : (w : Phase → ℕ) (n : ℕ) → w waits ≡ 0 → total w (all_waiting n) ≡ 0
total-all_waiting w zero e = refl
total-all_waiting w (suc n) e = omega (arith, e, total-all_waiting w n e)

length-all_waiting : (n : ℕ) → length (all_waiting n) ≡ n
length-all_waiting zero = refl
length-all_waiting (suc n) = omega (arith, length-all_waiting n)

abbrev pub opening : Hall
opening = record { server = new_server; open_sockets = [] }

-- On a new server with a limit for each address, with `n` threads that take clients, on handles that
-- no open socket has when the table gets them, and close sockets, in any order of their single
-- steps: `m_SocketCount` is the number of the open sockets and of those that a thread has counted
-- and not yet put into the table, or is closing and has not yet taken off; `IPaccessLimit` has for
-- each address its open sockets and those that threads have let in or are closing, and never more
-- than its limit; and `m_SocketCount` and the clients past the test of the limit that are not yet
-- counted are together less than `config.SocketLimit + n`: a thread alone keeps the limit, and each
-- further one may go over it by one.
pub run-Bounded :
    (socket_limit ip_limit n : ℕ)
    → 0 < ip_limit
    → 0 < n
    → (ms : List (ℕ × Order)) → AllFresh socket_limit ip_limit ms (opening, all_waiting n)
    → let (hall, threads) = run socket_limit ip_limit ms (opening, all_waiting n) in
      let server = hall.server in
      (server.socket_count ≡ length hall.open_sockets + total counts threads)
      × ((ip : ℕ)
          → connections server.access ip
            ≡ of_address ip hall.open_sockets + total (holds ip) threads)
      × ((ip : ℕ) → connections server.access ip ≤ ip_limit)
      × (server.socket_count + total passed threads < socket_limit + n)
run-Bounded socket_limit ip_limit n on some_thread ms fresh =
    let start = start-Counted socket_limit ip_limit n some_thread in
    let v =
      run-Counted socket_limit ip_limit on n ms opening (all_waiting n) (length-all_waiting n)
        (record {
          sound = start.sound;
          sockets = omega (arith, start.sockets, total-all_waiting counts n refl);
          addresses = λ j. omega (arith, start.addresses j, total-all_waiting (holds j) n refl);
          most = omega (arith, start.most, total-all_waiting passed n refl);
          few = start.few;
        })
        fresh in
    (v.sockets, v.addresses, v.few, v.most)
