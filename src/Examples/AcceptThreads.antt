-- ===== src/Examples/AcceptThreads.antt =====
-- Two threads that take clients at the same time.
use game_login.Base.{ℕ, ◌+◌, ◌<◌, ◌≤◌, ◌≡◌, refl, List, [], ◌∷◌, length, total, arith}
use game_login.Base.OrderedMap.{lookup, insert, erase, adjust}
use game_login.Ip.Access.{set_access, lock_value, replace}
use game_login.Ip.Access.Counts.{connections}
use game_login.Accepts.{new_server}
use game_login.Accepts.Limits.{of_address}
use game_login.Accepts.Threads.{
  Order, take_client, close, on_close_step, tick, move, advance, take_handle, run,
}
use game_login.Accepts.Threads.Shares.{counts, passed, holds}
use game_login.Accepts.Threads.Bounds.{all_waiting, opening, run-Bounded, AllFresh}

-- Both read the count before one of them adds to it.
abbrev moves : List (ℕ × Order)
moves =
    (0, take_client 5 9)
    ∷ (1, take_client 6 9)
    ∷ (0, close 0)
    ∷ (0, close 0)
    ∷ (0, close 0)
    ∷ (1, close 0)
    ∷ (1, close 0)
    ∷ (0, close 5)
    ∷ []

fresh : AllFresh 1 2 moves (opening, all_waiting 2)
unfolding advance move tick on_close_step take_handle new_server lookup insert erase adjust
    set_access lock_value replace
fresh = (tt, (tt, (tt, (tt, (refl, (tt, (tt, (tt, tt))))))))

-- A limit of one client, and the two are counted.
over_limit : (run 1 2 moves (opening, all_waiting 2)).0.server.socket_count ≡ 2
unfolding run advance move tick on_close_step take_handle new_server lookup insert erase adjust
    set_access lock_value replace
over_limit = refl

run-Bounded_example :
    let (hall, threads) = run 1 2 moves (opening, all_waiting 2) in
    let server = hall.server in
    (server.socket_count ≡ length hall.open_sockets + total counts threads)
    × ((ip : ℕ)
        → connections server.access ip ≡ of_address ip hall.open_sockets + total (holds ip) threads)
    × ((ip : ℕ) → connections server.access ip ≤ 2)
    × (server.socket_count + total passed threads < 1 + 2)
run-Bounded_example = run-Bounded 1 2 2 (omega arith) (omega arith) moves fresh
