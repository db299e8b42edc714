-- ===== src/Servers.antt =====
-- `CServerList` of src/AuthServer/ServerList.cpp and ServerList.h, with `WorldServer` of AuthType.h and
-- `ServerId` of ServerId.h. A `ServerId` is its byte, a socket its address with 0 for `NULL`, and the
-- other numbers are bit patterns. The operations stand as one thread runs them; they hold `mylock`,
-- except while an old socket is closed, and the `OnClose` of a server's socket does nothing.
pub mod Calls
mod Ids
mod Claims
pub mod Lookups
pub mod Queues
use game_login.Base.{
  ℕ, zero, suc, ◌+◌, ◌-◌, ◌*◌, ◌/◌, ◌%◌, ◌^◌, Bool, true, false, not, ◌&&◌, List, [], ◌∷◌, ◌++◌,
  Option, none, some, ltb, leb, ◌==◌, if◌then◌else◌,
}
use game_login.Base.OrderedMap.{lookup, insert, adjust}

pub record WorldServer : Type 0 where
  pub serverid : ℕ
  pub name : List ℕ
  pub outer_addr : ℕ
  pub outer_port : ℕ
  pub inner_addr : ℕ
  pub age_limit : ℕ
  pub pkflag : ℕ
  pub user_num : ℕ
  pub max_users : ℕ
  pub s : ℕ
  pub status : ℕ
  pub region_id : ℕ
  pub is_vip : ℕ

abbrev pub Servers : Type 0
Servers = List (ℕ × WorldServer)

pub set_server_status : ℕ → ℕ → Servers → Servers
set_server_status id status servers = adjust id (λ w. record w { status = status }) servers

pub set_server_vip_status : ℕ → ℕ → Servers → Servers
set_server_vip_status id is_vip servers = adjust id (λ w. record w { is_vip = is_vip }) servers

-- A `short` that is assigned to an `int`.
pub widen : ℕ → ℕ
widen v = if ltb v (2 ^ 15) then v else v + (2 ^ 32 - 2 ^ 16)

pub set_server_user_count : ℕ → ℕ → ℕ → Servers → Servers
set_server_user_count id user_count user_limit servers =
    adjust id (λ w. record w { user_num = widen user_count; max_users = widen user_limit }) servers

-- The greatest key of the map.
pub max_id : Servers → Option ℕ
max_id [] = none
max_id ((k, w) ∷ []) = some k
max_id ((k, w) ∷ kw ∷ servers) = max_id (kw ∷ servers)

-- `GetFreeServerId`: the sum is cut to the byte of a `ServerId`.
pub get_free_server_id : Servers → ℕ
get_free_server_id servers = elim (max_id servers) [ none ↦ 1 | some k ↦ (k + 1) % 256 ]

-- `"Server %d"` with the byte of the id.
pub decimal : ℕ → List ℕ
decimal v =
    let ones = (48 + v % 10) ∷ [] in
    if ltb v 10
    then ones
    else if ltb v 100
    then (48 + v / 10) ∷ ones
    else (48 + v / 100) ∷ (48 + v / 10 % 10) ∷ ones

pub server_name : ℕ → List ℕ
server_name id = 83 ∷ 101 ∷ 114 ∷ 118 ∷ 101 ∷ 114 ∷ 32 ∷ decimal id

-- What a call does: the list, the sockets that it closes, and the value that it returns.
pub record Outcome {ℓ} (A : Type ℓ) : Type ℓ where
  pub servers : Servers
  pub closes : List ℕ
  pub value : A

-- The loop of `SetServerSocketByAddress`; `id` is that of the last server found.
pub claim : ℕ → ℕ → ℕ → Servers → Outcome ℕ
claim address socket id [] = record { servers = []; closes = []; value = id }
claim address socket id ((k, w) ∷ servers) =
    let hit = w.inner_addr == address in
    let rest = claim address socket (if hit then k else id) servers in
    if hit
    then record {
      servers = (k, record w { s = socket }) ∷ rest.servers;
      closes = if w.s == 0 then rest.closes else w.s ∷ rest.closes;
      value = rest.value;
    }
    else record rest { servers = (k, w) ∷ rest.servers }

-- The `newServer` of `SetServerSocketByAddress` under its id. What the function does not assign, `raw`
-- holds: the `ServerId` is 0 by its constructor, and the rest is whatever the stack held.
pub new_by_address : WorldServer → ℕ → ℕ → ℕ → ℕ → WorldServer
new_by_address raw id address socket world_port = record raw {
  serverid = 0;
  name = server_name id;
  s = socket;
  inner_addr = address;
  outer_addr = address;
  outer_port = world_port;
  age_limit = 0;
  user_num = 0;
  max_users = 0;
  pkflag = 0;
}

-- `SetServerSocketByAddress`; the first two arguments are `config.allowUnknownServers` and `worldPort`.
pub set_server_socket_by_address : Bool → ℕ → WorldServer → ℕ → ℕ → Servers → Outcome ℕ
set_server_socket_by_address allow_unknown world_port raw address socket servers =
    let found = claim address socket 0 servers in
    let id = get_free_server_id found.servers in
    if allow_unknown && (found.value == 0)
    then record {
      servers = insert id (new_by_address raw id address socket world_port) found.servers;
      closes = found.closes;
      value = id;
    }
    else found

pub remove_socket : ℕ → Servers → Servers
remove_socket socket [] = []
remove_socket socket ((k, w) ∷ servers) =
    if w.s == socket
    then (k, record w { status = 0; s = 0 }) ∷ remove_socket socket servers
    else (k, w) ∷ remove_socket socket servers

pub new_by_id : WorldServer → ℕ → ℕ → ℕ → ℕ → WorldServer
new_by_id raw id socket address port = record raw {
  serverid = id;
  name = server_name id;
  s = socket;
  inner_addr = address;
  outer_addr = address;
  outer_port = port;
  age_limit = 0;
  user_num = 0;
  max_users = 0;
  pkflag = 0;
  region_id = 0;
}

pub moved : ℕ → ℕ → ℕ → WorldServer → WorldServer
moved socket address port w = record w {
  s = socket;
  inner_addr = address;
  outer_addr = address;
  outer_port = port;
}

pub set_server_socket_by_id : Bool → WorldServer → ℕ → ℕ → ℕ → ℕ → Servers → Outcome Bool
set_server_socket_by_id allow_unknown raw id socket address port servers =
    elim (lookup id servers) [
      | some w ↦ record {
        servers = adjust id (moved socket address port) servers;
        closes = if w.s == 0 then [] else w.s ∷ [];
        value = true;
      }
      | none ↦
          if allow_unknown
          then record {
            servers = insert id (new_by_id raw id socket address port) servers;
            closes = [];
            value = true;
          }
          else record { servers = servers; closes = []; value = false }
    ]

pub get_internal_address : ℕ → Servers → ℕ
get_internal_address id servers = elim (lookup id servers) [ none ↦ 0 | some w ↦ w.inner_addr ]

pub is_server_up : ℕ → Servers → Bool
is_server_up id servers = elim (lookup id servers) [ none ↦ false | some w ↦ not (w.status == 0) ]

pub is_server_vip_only : ℕ → Servers → Bool
is_server_vip_only id servers = elim (lookup id servers) [
  | none ↦ false
  | some w ↦ not (w.is_vip == 0)
]
