-- ===== src/Ip/Sessions.antt =====
-- `CIPSessionDB` of src/AuthServer/IPSessionDB.cpp: the sessions that the IP server has given to the
-- users, and the requests for them. Each call on the map runs under `IPSessionLock`, and is one step;
-- an `int` key is its bit pattern.
pub mod Answers
use game_login.Base.{
  ℕ, Bool, true, false, not, ◌&&◌, ◌||◌, List, [], ◌∷◌, Option, none, some, ◌==◌, if◌then◌else◌,
}
use mathlib.Core.Option as Opt
use game_login.Base.OrderedMap.{lookup, insert, erase}
use game_login.Wire.Assemble.{Arg, char, int}

-- `SESSIONMAP`: user to session.
abbrev pub Sessions : Type 0
Sessions = List (ℕ × ℕ)

pub find_session_id : ℕ → Sessions → ℕ
find_session_id uid sessions = Opt.get_or (lookup uid sessions) 0

-- The session that the call returns, and the map after it.
pub del_session_id : ℕ → Sessions → ℕ × Sessions
del_session_id uid sessions = elim (lookup uid sessions) [
  | none ↦ (0, sessions)
  | some session ↦ (session, erase uid sessions)
]

pub add_session_id : ℕ → ℕ → Sessions → ℕ × Sessions
add_session_id uid session sessions =
    if session == 0 then (session, sessions) else elim (lookup uid sessions) [
      | none ↦ (session, insert uid session sessions)
      | some old ↦ (0, insert uid session sessions)
    ]

-- The connection to the IP server: `pIPSocket` with its `mode == SM_CLOSE` and `ConnectSessionKey`,
-- or `none` for `NULL`; `IPServerReconnect`, `config.UseIPServer` and `config.gameId`.
pub record IpServer : Type 0 where
  pub socket : Option (Bool × ℕ)
  pub reconnect : Bool
  pub use_ip_server : Bool
  pub game_id : ℕ

-- The error codes of Protocol.h.
abbrev pub ip_all_ok : ℕ
ip_all_ok = 0

abbrev pub ip_server_socket_fail : ℕ
ip_server_socket_fail = 10

-- What a request returns, and the packet that it hands to the framing of `CIPSocket::Send`.
pub record Request : Type 0 where
  pub error_code : ℕ
  pub packet : Option (List Arg)

-- The tests at the start of `CIPSocket::Send`; `true` is a packet that is sent.
pub accepts : IpServer → Bool → Bool
accepts server closed = not (closed || server.reconnect || not server.use_ip_server)

-- `StartIPCharge`, `ReadyToIPCharge` and `ConfirmIPCharge` are alike but for the kind of the packet.
pub charge : ℕ → IpServer → Sessions → ℕ → ℕ → ℕ → ℕ → Request
charge packet_kind server sessions uid ip kind world_id =
    let session = find_session_id uid sessions in
    elim server.socket [
      | none ↦ record { error_code = ip_server_socket_fail; packet = none }
      | some (closed, key) ↦
          if server.reconnect || not server.use_ip_server || (session == 0)
          then record { error_code = ip_server_socket_fail; packet = none }
          else if accepts server closed
          then record {
            error_code = ip_all_ok;
            packet = some (
                char packet_kind
                ∷ int session
                ∷ int key
                ∷ int uid
                ∷ char world_id
                ∷ int ip
                ∷ int kind
                ∷ []);
          }
          else record { error_code = ip_server_socket_fail; packet = none }
    ]

pub start_ip_charge : IpServer → Sessions → ℕ → ℕ → ℕ → ℕ → Request
start_ip_charge = charge 4

pub ready_to_ip_charge : IpServer → Sessions → ℕ → ℕ → ℕ → ℕ → Request
ready_to_ip_charge = charge 9

pub confirm_ip_charge : IpServer → Sessions → ℕ → ℕ → ℕ → ℕ → Request
confirm_ip_charge = charge 10

-- `ReleaseSessionRequest`, which always returns 0.
pub release_session_request : IpServer → ℕ → ℕ → ℕ → Request
release_session_request server session ip kind = elim server.socket [
  | none ↦ record { error_code = 0; packet = none }
  | some (closed, key) ↦
      if not (session == 0) && server.use_ip_server && not server.reconnect && accepts server closed
      then record {
        error_code = 0;
        packet =
            some (char 3 ∷ int session ∷ int key ∷ int server.game_id ∷ int ip ∷ int kind ∷ []);
      }
      else record { error_code = 0; packet = none }
]
