-- ===== src/Servers/Calls.antt =====
-- The calls of `CServerList` that change the list (src/AuthServer/ServerList.cpp), and the same on the
-- entries alone, without the map.
use mathlib.Core.Option as Opt
use game_login.Base.{
  ℕ, zero, suc, ◌+◌, ◌%◌, ◌<◌, Bool, true, false, ◌&&◌, ◌||◌, Option, none, some, ◌==◌,
  if◌then◌else◌, All,
}
use game_login.Servers.{
  WorldServer, Servers, set_server_status, set_server_vip_status, set_server_user_count,
  new_by_address, set_server_socket_by_address, remove_socket, new_by_id, moved,
  set_server_socket_by_id, widen,
}

-- The calls that change the list, with their arguments.
pub data Call : Type 0 where
  status_call : ℕ → ℕ → Call
  vip_call : ℕ → ℕ → Call
  count_call : ℕ → ℕ → ℕ → Call
  address_call : ℕ → ℕ → Call
  id_call : ℕ → ℕ → ℕ → ℕ → Call
  remove_call : ℕ → Call

module _ (allow_unknown : Bool) (world_port : ℕ) (raw : WorldServer) where
  unfoldable pub step : Call → Servers → Servers
  step (status_call id v) m = set_server_status id v m
  step (vip_call id v) m = set_server_vip_status id v m
  step (count_call id user_count user_limit) m = set_server_user_count id user_count user_limit m
  step (address_call address socket) m =
      (set_server_socket_by_address allow_unknown world_port raw address socket m).servers
  step (id_call id socket address port) m =
      (set_server_socket_by_id allow_unknown raw id socket address port m).servers
  step (remove_call socket) m = remove_socket socket m

  -- The answers of the two calls that have one.
  unfoldable pub answer : Call → Servers → ℕ
  answer (address_call address socket) m =
      (set_server_socket_by_address allow_unknown world_port raw address socket m).value
  answer (id_call id socket address port) m =
      if (set_server_socket_by_id allow_unknown raw id socket address port m).value then 1 else 0
  answer _ m = 0

-- The servers without the map: for each id its entry.
abbrev pub Entries : Type 0
Entries = ℕ → Option WorldServer

abbrev pub is_there : Option WorldServer → Bool
is_there none = false
is_there (some w) = true

abbrev pub has_address : ℕ → Option WorldServer → Bool
has_address address none = false
has_address address (some w) = w.inner_addr == address

-- The greatest id below `n` of a server with the address, and of any server; 0 if there is none.
unfoldable pub last_with : ℕ → Entries → ℕ → ℕ
last_with address f zero = 0
last_with address f (suc n) =
    let below = last_with address f n in if has_address address (f n) then n else below

unfoldable pub last_id : Entries → ℕ → ℕ
last_id f zero = 0
last_id f (suc n) = let below = last_id f n in if is_there (f n) then n else below

abbrev pub with_socket : ℕ → ℕ → WorldServer → WorldServer
with_socket address socket w = if w.inner_addr == address then record w { s = socket } else w

module _ (allow_unknown : Bool) (world_port : ℕ) (raw : WorldServer) where
  -- The entry of the server `i` after a call, from all entries before it. A new server of an address is
  -- the case that no server above 0 has it, and gets the id above all others, as a byte.
  unfoldable pub entry_after : Call → Entries → Entries
  entry_after (status_call id v) f i =
      if id == i then Opt.map (λ (w : WorldServer). record w { status = v }) (f i) else f i
  entry_after (vip_call id v) f i =
      if id == i then Opt.map (λ (w : WorldServer). record w { is_vip = v }) (f i) else f i
  entry_after (count_call id user_count user_limit) f i =
      if id == i
      then Opt.map
          (λ (w : WorldServer). record w {
            user_num = widen user_count;
            max_users = widen user_limit;
          })
          (f i)
      else f i
  entry_after (address_call address socket) f i =
      let known = Opt.map (with_socket address socket) (f i) in
      let id = (last_id f 256 + 1) % 256 in
      if allow_unknown && (last_with address f 256 == 0) && (id == i)
      then some (Opt.get_or known (new_by_address raw id address socket world_port))
      else known
  entry_after (id_call id socket address port) f i =
      if id == i
      then elim (f i) [
        | some w ↦ some (moved socket address port w)
        | none ↦ if allow_unknown then some (new_by_id raw id socket address port) else none
      ]
      else f i
  entry_after (remove_call socket) f i =
      Opt.map (λ (w : WorldServer). if w.s == socket then record w { status = 0; s = 0 } else w)
        (f i)

  unfoldable pub answer_of : Call → Entries → ℕ
  answer_of (address_call address socket) f =
      if allow_unknown && (last_with address f 256 == 0)
      then (last_id f 256 + 1) % 256
      else last_with address f 256
  answer_of (id_call id socket address port) f = if is_there (f id) || allow_unknown then 1 else 0
  answer_of _ f = 0

abbrev pub IsBytes : Servers → Type 0
IsBytes m = All (λ (e : ℕ × WorldServer). e.0 < 256) m
