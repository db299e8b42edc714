-- ===== src/Sockets/Lifetime.antt =====
-- The references to a client's socket, a `CSocketServerEx`: `CIOObject` of src/AuthServer/IOObject.cpp,
-- `CIOSocket` of IOSocket.cpp, SocketServerEx.cpp, PacketServerEx.cpp, and the table of `CIOServerEx` of
-- IOServer.cpp. `PostObject` is taken to succeed: its answer is ignored by the source. Threads run the methods, and their calls that touch the object interleave in any order.
pub mod Calls
pub mod Steps
pub mod Safety
use game_login.Base.{
  ℕ, zero, suc, ◌+◌, ◌-◌, ◌≡◌, Bool, true, false, ◌&&◌, List, [], ◌∷◌, ◌++◌, Option, none, some,
  ◌==◌, if◌then◌else◌, get_elem?, set,
}

-- A call of a method that touches the object.
pub data Op : Type 0 where
  -- `AddRef`, and `ReleaseRef`, which deletes the object with its last reference.
  add_ref : Op
  release_ref : Op
  -- `WSARecv`, `WSASend` and `PostObject`, when they succeed: what completes later has the reference.
  receive : Op
  send : Op
  post : Op
  -- `CloseSocket`, and in it `RemoveSocket`.
  close : Op
  unlink : Op

pub record Socket : Type 0 where
  pub refs : ℕ
  pub deleted : Bool
  -- `m_hSocket` is not `INVALID_SOCKET`; the object is in `socketmap`.
  pub open_ : Bool
  pub listed : Bool
  -- Receives and sends under way, and packets that are posted and not taken up.
  pub reads : ℕ
  pub writes : ℕ
  pub packets : ℕ

-- A thread has references of its own, and calls to make.
pub record Thread : Type 0 where
  pub held : ℕ
  pub calls : List Op

-- How `OnRead` ends: with a `Read`, in which `WSARecv` succeeds or fails, or by closing the socket.
pub data Ending : Type 0 where
  reads_on : Bool → Ending
  closes : Ending

-- `CIOSocket::Read`.
pub read : Bool → List Op
read true = add_ref ∷ receive ∷ []
read false = add_ref ∷ close ∷ release_ref ∷ []

-- `OnRead`: it posts as many packets as it cuts out of the buffer.
pub on_read : ℕ → Ending → List Op
on_read zero (reads_on started) = read started
on_read zero closes = close ∷ []
on_read (suc packets) ending = add_ref ∷ post ∷ on_read packets ending

-- `Write` of a buffer, and what `OnWriteCallback` does for the next one: `none` when no send is started.
pub start_send : Option Bool → List Op
start_send none = []
start_send (some true) = add_ref ∷ send ∷ []
start_send (some false) = add_ref ∷ release_ref ∷ []

pub write_all : List (Option Bool) → List Op
write_all [] = []
write_all (w ∷ ws) = start_send w ++ write_all ws

-- `OnWriteCallback`; the first argument is whether the bytes sent are those of the first buffer.
pub on_write_callback : Bool → Option Bool → List Op
on_write_callback true next = start_send next
on_write_callback false next = release_ref ∷ []

-- What a thread is given to do.
pub data Job : Type 0 where
  -- `OnIOCallback` for a receive and for a send; the first argument is `bSuccess`.
  received : Bool → ℕ → Ending → Job
  sent : Bool → Bool → Option Bool → Job
  -- `CPacketServerEx::OnIOCallback`: the handler writes, and returns whether to close.
  handled : List (Option Bool) → Bool → Job
  -- `SocketExTimerCallback`, and whether `OnTimerCallback` finds the socket idle; and `SendSocketEx`.
  timer : Bool → Job
  send_socket : Option Bool → Job

pub calls_of : Job → List Op
calls_of (received false packets ending) = close ∷ release_ref ∷ []
calls_of (received true packets ending) = on_read packets ending ++ (release_ref ∷ [])
calls_of (sent false whole next) = close ∷ release_ref ∷ []
calls_of (sent true whole next) = on_write_callback whole next ++ (release_ref ∷ [])
calls_of (handled writes false) = write_all writes ++ (release_ref ∷ [])
calls_of (handled writes true) = write_all writes ++ (close ∷ release_ref ∷ [])
calls_of (timer false) = release_ref ∷ []
calls_of (timer true) = close ∷ release_ref ∷ []
calls_of (send_socket w) = start_send w ++ (release_ref ∷ [])

pub record World : Type 0 where
  pub socket : Socket
  pub threads : List Thread

-- A step is not possible now, touches a deleted object, or leads on.
pub data Outcome : Type 0 where
  blocked : Outcome
  fault : Outcome
  next : World → Outcome

-- Where the job comes from: a completion takes its reference along, and `FindSocket` takes one.
pub take_up : Job → Socket → Option Socket
take_up (received _ _ _) s = if s.reads == 0 then none else some (record s { reads = s.reads - 1 })
take_up (sent _ _ _) s = if s.writes == 0 then none else some (record s { writes = s.writes - 1 })
take_up (handled _ _) s =
    if s.packets == 0 then none else some (record s { packets = s.packets - 1 })
take_up (timer _) s = if s.listed then some (record s { refs = s.refs + 1 }) else none
take_up (send_socket _) s = if s.listed then some (record s { refs = s.refs + 1 }) else none

-- `ReleaseRef`.
pub drop_ref : Socket → Socket
drop_ref s = record s { refs = s.refs - 1; deleted = (s.refs - 1) == 0 }

-- A call of a thread with `held` references and `rest` to do. `post` is a `PostObject` that succeeds.
pub perform : Op → ℕ → List Op → Socket → Socket × Thread
perform add_ref held rest s =
    (record s { refs = s.refs + 1 }, record { held = held + 1; calls = rest })
perform release_ref held rest s = (drop_ref s, record { held = held - 1; calls = rest })
perform receive held rest s =
    (record s { reads = s.reads + 1 }, record { held = held - 1; calls = rest })
perform send held rest s =
    (record s { writes = s.writes + 1 }, record { held = held - 1; calls = rest })
perform post held rest s =
    (record s { packets = s.packets + 1 }, record { held = held - 1; calls = rest })
perform close held rest s =
    if s.open_
    then (
      record s { open_ = false },
      record { held = held + 1; calls = unlink ∷ release_ref ∷ rest },
    )
    else (s, record { held = held; calls = rest })
perform unlink held rest s = (record s { listed = false }, record { held = held; calls = rest })

-- The thread with index `i` makes its next call.
go_on : ℕ → List Op → ℕ → World → Outcome
go_on i [] held w = blocked
go_on i (op ∷ rest) held w =
    let (s, t) = perform op held rest w.socket in
    if w.socket.deleted then fault else next (record { socket = s; threads = set w.threads i t })

run_thread : ℕ → Option Thread → World → Outcome
run_thread i none w = blocked
run_thread i (some t) w = go_on i t.calls t.held w

begin_job : Job → Option Socket → World → Outcome
begin_job job none w = blocked
begin_job job (some s) w =
    if w.socket.deleted
    then fault
    else next
        (record { socket = s; threads = record { held = 1; calls = calls_of job } ∷ w.threads })

pub data Choice : Type 0 where
  begin : Job → Choice
  go : ℕ → Choice

unfoldable pub step : Choice → World → Outcome
unfolding take_up begin_job run_thread go_on perform drop_ref calls_of on_read read
step (begin job) w = begin_job job (take_up job w.socket) w
step (go i) w = run_thread i (get_elem? w.threads i) w

-- After `CreateSocket`, in `Initialize` behind its `AddRef`, when the completion port takes the socket
-- (if it does not, `Initialize` returns without a `ReleaseRef`). `OnCreate` reads into an empty buffer.
-- Before that the accepting thread is alone: a timer first goes off after `SocketTimeOut`.
unfoldable pub initialized : Bool → World
initialized started = record {
  socket = record {
    refs = 2;
    deleted = false;
    open_ = true;
    listed = true;
    reads = 0;
    writes = 0;
    packets = 0;
  };
  threads = record { held = 1; calls = on_read 0 (reads_on started) ++ (release_ref ∷ []) } ∷ [];
}

-- What the system documents: a send of a stream that succeeds has sent all its bytes.
abbrev pub IsWhole : Choice → Type 0
IsWhole (begin (sent true whole _)) = whole ≡ true
IsWhole _ = Unit

-- The states that the threads can bring a new socket to.
pub data Reachable : World → Type 0 where
  start : (started : Bool) → Reachable (initialized started)
  move :
      {w after : World} (c : Choice)
      → Reachable w
      → IsWhole c
      → step c w ≡ next after
      → Reachable after
