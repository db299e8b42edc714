-- ===== src/Examples/Lifetimes.antt =====
-- A socket's life at concrete steps.
use game_login.Base.{◌≡◌, ◌≢◌, ◌↔◌, refl, true, false, [], ◌∷◌}
use game_login.Sockets.Lifetime.{
  release_ref, unlink, World, Choice, begin, go, timer, step, initialized, IsWhole, Reachable,
  start, move, fault,
}
use game_login.Sockets.Lifetime.Safety.{IsFinished, Reachable-IsFinished}

-- The timer of an idle socket has found it, and closes it, while its first receive is under way.
abbrev closing : World
closing = record {
  socket = record {
    refs = 3;
    deleted = false;
    open_ = false;
    listed = true;
    reads = 1;
    writes = 0;
    packets = 0;
  };
  threads =
      record { held = 2; calls = unlink ∷ release_ref ∷ release_ref ∷ [] }
      ∷ record { held = 0; calls = [] }
      ∷ [];
}

reached : Reachable closing
unfolding step initialized
reached =
    move (go 0)
      (move (begin (timer true))
        (move (go 0) (move (go 0) (move (go 0) (start true) tt refl) tt refl) tt refl) tt refl)
      tt refl

Reachable-IsFinished_example :
    ((c : Choice) → IsWhole c → step c closing ≢ fault)
    × ((closing.socket.deleted ≡ true) ↔ IsFinished closing)
Reachable-IsFinished_example = Reachable-IsFinished reached
