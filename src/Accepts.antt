-- ===== src/Accepts.antt =====
-- Which clients the server takes: `CIOServerEx::CreateSocket`, `FindSocket` and `RemoveSocket` of
-- src/AuthServer/IOServer.cpp, with the constructor and `OnClose` of `CSocketServerEx`. A socket is its
-- handle, and the object that the table has for it is the client's address. Here a call runs with no
-- other beside it; Accepts/Threads has the single steps of calls that run at the same time.
pub mod Limits
pub mod History
pub mod Threads
use game_login.Base.{
  ℕ, suc, ◌+◌, ◌-◌, ◌≡◌, Bool, true, false, not, List, [], ◌∷◌, Option, none, some, leb,
  if◌then◌else◌,
}
use game_login.Base.OrderedMap.{lookup, insert, erase}
use game_login.Ip.Access.{AccessMaps, no_connections, set_access, del_access}

pub record Server : Type 0 where
  -- `reporter.m_SocketCount`.
  pub socket_count : ℕ
  -- `IPaccessLimit`, and `socketmap`.
  pub access : AccessMaps
  pub socketmap : List (ℕ × ℕ)

unfoldable pub new_server : Server
new_server = record { socket_count = 0; access = no_connections; socketmap = [] }

-- `config.SocketLimit`, and `config.IPAccessLimit` with 0 for the values that turn it off.
module _ (socket_limit ip_limit : ℕ) where
  -- `CreateSocket` with the constructor: whether it takes the client. If it does not, the caller closes
  -- the handle. The source takes no lock from the test of `m_SocketCount` to the constructor.
  pub create_socket : ℕ → ℕ → Server → Server × Bool
  create_socket s ip server =
      let (access, allowed) = set_access ip_limit ip server.access in
      if leb socket_limit server.socket_count
      then (server, false)
      else if allowed
      then (
        record {
          socket_count = server.socket_count + 1;
          access = access;
          socketmap = insert s ip server.socketmap;
        },
        true,
      )
      else (record server { access = access }, false)

  -- `OnClose` of the object with the address.
  pub on_close : ℕ → ℕ → Server → Server
  on_close s ip server = record {
    socket_count = server.socket_count - 1;
    access = (del_access ip_limit ip server.access).0;
    socketmap = erase s server.socketmap;
  }

  -- `CloseSocket` of the socket with the handle: `OnClose` runs for an open one.
  pub close_socket : ℕ → Server → Server
  close_socket s server = elim (lookup s server.socketmap) [
    | none ↦ server
    | some ip ↦ on_close s ip server
  ]
