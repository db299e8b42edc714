-- ===== src/Accepts/Threads.antt =====
-- The threads of `CIOServerEx` (src/AuthServer/IOServer.cpp) that take clients and close sockets at the
-- same time: `CreateSocket` reads `m_SocketCount` in one step, asks `IPaccessLimit` under the lock of the
-- address in the next, counts in the constructor of `CSocketServerEx` with `InterlockedIncrement`, and
-- inserts under `sockSect`; `OnClose`, which the thread runs that took the handle out of the object, has
-- three such steps. Between two steps of a thread any others may run.
pub mod Shares
pub mod Bounds
use game_login.Base.{
  ℕ, ◌+◌, ◌-◌, Bool, true, false, List, [], ◌∷◌, Option, none, some, leb, if◌then◌else◌,
}
use game_login.Base.{get_elem?, set}
use game_login.Base.OrderedMap.{lookup, insert, erase}
use game_login.Ip.Access.{set_access, del_access}
use game_login.Accepts.{Server}

-- How far a thread is with the socket of a handle, and its address.
pub data Phase : Type 0 where
  waits : Phase
  -- `CreateSocket`: past the test of the limit; past `SetAccessIP`; with the object made.
  checked : ℕ → ℕ → Phase
  allowed : ℕ → ℕ → Phase
  made : ℕ → ℕ → Phase
  -- `CloseSocket`: with the handle; with the count taken down; with the table's entry erased.
  closing : ℕ → ℕ → Phase
  uncounted : ℕ → ℕ → Phase
  erased : ℕ → ℕ → Phase

-- What a thread that waits does next: it takes a client, or closes the socket of a handle.
pub data Order : Type 0 where
  take_client : ℕ → ℕ → Order
  close : ℕ → Order

-- The shared state, and the objects whose `m_hSocket` is still a handle.
pub record Hall : Type 0 where
  pub server : Server
  pub open_sockets : List (ℕ × ℕ)

-- `InterlockedExchange` on `m_hSocket`: one thread alone finds the handle in it.
unfoldable pub take_handle : ℕ → Option ℕ → Hall → Hall × Phase
take_handle s none hall = (hall, waits)
take_handle s (some ip) hall =
    (record hall { open_sockets = erase s hall.open_sockets }, closing s ip)

module _ (socket_limit ip_limit : ℕ) where
  -- `OnClose` of an object whose handle the thread has.
  unfoldable pub on_close_step : Phase → Hall → Hall × Phase
  on_close_step (closing s ip) hall = (
    record hall { server = record hall.server { socket_count = hall.server.socket_count - 1 } },
    uncounted s ip,
  )
  on_close_step (uncounted s ip) hall = (
    record hall { server = record hall.server { socketmap = erase s hall.server.socketmap } },
    erased s ip,
  )
  on_close_step (erased s ip) hall = (
    record hall {
      server = record hall.server { access = (del_access ip_limit ip hall.server.access).0 };
    },
    waits,
  )
  on_close_step p hall = (hall, p)

  -- A step of a thread: `CreateSocket` up to its `insert`, or of a close.
  unfoldable pub tick : Order → Phase → Hall → Hall × Phase
  tick (take_client s ip) waits hall =
      if leb socket_limit hall.server.socket_count then (hall, waits) else (hall, checked s ip)
  tick (close s) waits hall = take_handle s (lookup s hall.open_sockets) hall
  tick o (checked s ip) hall =
      let (access, below) = set_access ip_limit ip hall.server.access in
      (
        record hall { server = record hall.server { access = access } },
        if below then allowed s ip else waits,
      )
  tick o (allowed s ip) hall = (
    record hall { server = record hall.server { socket_count = hall.server.socket_count + 1 } },
    made s ip,
  )
  tick o (made s ip) hall = (
    record {
      server = record hall.server { socketmap = insert s ip hall.server.socketmap };
      open_sockets = insert s ip hall.open_sockets;
    },
    waits,
  )
  tick o (closing s ip) hall = on_close_step (closing s ip) hall
  tick o (uncounted s ip) hall = on_close_step (uncounted s ip) hall
  tick o (erased s ip) hall = on_close_step (erased s ip) hall

  -- A step of the thread with the number, if there is one.
  unfoldable pub move : ℕ → Order → Option Phase → Hall × List Phase → Hall × List Phase
  move i o none (hall, threads) = (hall, threads)
  move i o (some p) (hall, threads) =
      let (after, next) = tick o p hall in (after, set threads i next)

  unfoldable pub advance : ℕ × Order → Hall × List Phase → Hall × List Phase
  advance (i, o) (hall, threads) = move i o (get_elem? threads i) (hall, threads)

  unfoldable pub run : List (ℕ × Order) → Hall × List Phase → Hall × List Phase
  run [] h = h
  run (m ∷ ms) h = run ms (advance m h)
