-- ===== src/Reconnects.antt =====
-- The connections to the log, the IP and the wanted server, and how they are made again: the timer
-- routines and `OnClose` of src/AuthServer/LogSocket.cpp, IPSessionDB.cpp and WantedSocket.cpp, and the start in
-- GlobalAuth.cpp. The three are the same code but for the constructor of the log socket. A timer of the system goes off once; one
-- that is deleted does not go off. The references to the sockets are left out.
pub mod History
use game_login.Base.{
  ℕ, ◌+◌, ◌≡◌, Bool, true, false, not, List, [], ◌∷◌, Option, none, some, ◌==◌, if◌then◌else◌,
}

pub data Server : Type 0 where
  log : Server
  ip : Server
  wanted : Server

pub record Link : Type 0 where
  -- `LogDReconnect` and `config.UseLogD`, and the like.
  pub reconnect : Bool
  pub use_ : Bool
  -- Whether the socket of `pLogSocket` has a handle.
  pub open_ : Bool
  -- The timers that have not gone off, `g_hLogDTimer`, and the number of the next timer.
  pub pending : List ℕ
  pub timer : Option ℕ
  pub next_timer : ℕ

-- A try to connect: `socket` fails, `connect` does, or the completion port does not take the socket.
pub data Attempt : Type 0 where
  no_socket : Attempt
  refused : Attempt
  not_taken : Attempt
  connected : Attempt

-- `OnClose`.
pub on_close : Link → Link
on_close l = record l {
  reconnect = true;
  use_ = false;
  pending = l.next_timer ∷ l.pending;
  timer = some l.next_timer;
  next_timer = l.next_timer + 1;
}

-- The constructor: those of `CIPSocket` and `CWantedSocket` clear the flag.
pub allocate : Server → Link → Link
allocate ip l = record l { reconnect = false }
allocate log l = l
allocate wanted l = record l { reconnect = false }

-- `Initialize` of the socket that is now the current one: it closes one that is not taken.
pub initialize : Bool → Link → Link
initialize true l = record l { open_ = true }
initialize false l = on_close l

-- The end of a routine from `connect` on; `CloseSocket` of a socket with no handle does nothing.
pub try_connect : Attempt → Link → Link
try_connect no_socket l = l
try_connect refused l = on_close l
try_connect not_taken l = initialize false (record l { reconnect = false; use_ = true })
try_connect connected l = initialize true (record l { reconnect = false; use_ = true })

pub delete_timer : ℕ → List ℕ → List ℕ
delete_timer t [] = []
delete_timer t (x ∷ xs) = let rest = delete_timer t xs in if x == t then rest else x ∷ rest

-- `if (g_hLogDTimer) DeleteTimerQueueTimer(...)`.
pub clear_timer : Option ℕ → List ℕ → List ℕ
clear_timer none pending = pending
clear_timer (some t) pending = delete_timer t pending

-- `LOGDTimerRoutine`, `IPSocketTimerRoutine` and `WantedSocketTimerRoutine`, of the timer given.
pub timer_routine : Server → Attempt → ℕ → Link → Link
timer_routine server attempt t l =
    let cleared = record l {
      pending = clear_timer l.timer (delete_timer t l.pending);
      timer = none;
    } in
    if l.reconnect then try_connect attempt (allocate server cleared) else cleared

-- The globals before the start, with the server in use.
abbrev pub fresh : Link
fresh = record {
  reconnect = false;
  use_ = true;
  open_ = false;
  pending = [];
  timer = none;
  next_timer = 0;
}

-- The start of the program.
pub start_link : Server → Attempt → Link
start_link server attempt = elim attempt [
  | no_socket ↦ allocate server fresh
  | refused ↦ on_close (allocate server fresh)
  | not_taken ↦ initialize false (allocate server fresh)
  | connected ↦ initialize true (allocate server fresh)
]

-- `CloseSocket` of the current socket.
pub close_socket : Link → Link
close_socket l = if l.open_ then on_close (record l { open_ = false }) else l
