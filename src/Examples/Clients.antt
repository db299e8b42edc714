-- ===== src/Examples/Clients.antt =====
-- Clients that come and go.
use game_login.Base.{◌≡◌, refl, List, [], ◌∷◌, arith}
use game_login.Base.OrderedMap.{lookup, insert, erase}
use game_login.Accepts.{new_server}
use game_login.Accepts.Limits.{Agrees, of_address}
use game_login.Accepts.History.{
  Event, connect, close, run, promise_all, AllFresh, IsLimited, run-new_server,
}

-- With at most two sockets of an address the third is refused, until one of them closes.
abbrev events : List Event
events = connect 5 9 ∷ connect 6 9 ∷ connect 7 9 ∷ close 5 ∷ connect 5 9 ∷ []

fresh : AllFresh 100 2 events []
unfolding lookup insert erase of_address
fresh = (refl, (refl, (refl, (tt, (refl, tt)))))

run-new_server_example :
    let r = run 100 2 events new_server in
    let p = promise_all 100 2 events [] in Agrees r.0 p.0 × (r.1 ≡ p.1) × IsLimited 100 2 p.0
run-new_server_example = run-new_server 100 2 (omega arith) events fresh
