-- ===== src/Servers/Lookups.antt =====
-- What the list answers after each of the operations, and what they keep.
use mathlib.Core.Option as Opt
use game_login.Base.{
  ℕ, ◌+◌, ◌<◌, ◌≡◌, refl, ap, ap₂, fun_ext, ◌∙◌, Bool, ◌&&◌, List, [], ◌∷◌, none, some, ◌==◌,
  if◌then◌else◌, arith, All, inl, inr, Option-cases, ◌≢◌,
}
use game_login.Base.OrderedMap.{
  lookup, Ordered, lookup-insert, lookup-adjust, insert-Ordered, adjust-Ordered,
}
use game_login.Servers.{
  WorldServer, Servers, set_server_status, set_server_vip_status, set_server_user_count, max_id,
  get_free_server_id, claim, new_by_address, set_server_socket_by_address, new_by_id, moved,
  set_server_socket_by_id,
}
use game_login.Servers.Calls.{
  Call, status_call, vip_call, count_call, address_call, id_call, remove_call, step, answer,
  Entries, with_socket, entry_after, answer_of, IsBytes,
}
use game_login.Servers.Claims.{
  lookup-claim, lookup-remove_socket, claim-Ordered, remove_socket-Ordered, claim-last_with,
  claim-IsBytes, remove_socket-IsBytes, insert-IsBytes, adjust-IsBytes,
}
use game_login.Servers.Ids.{max_id_lem, max_id-none, get_free_server_id-last_id, free_after}

-- In a map that is in the order of its keys, all of them bytes, and has no server with the greatest
-- id 255, the id for a new server is valid and no server has it.
pub get_free_server_id-lookup :
    (m : Servers)
    → Ordered 0 m
    → All (λ (e : ℕ × WorldServer). e.0 < 256) m
    → lookup 255 m ≡ none
    → (0 < get_free_server_id m) × (lookup (get_free_server_id m) m ≡ none)
get_free_server_id-lookup m o small free = elim (Option-cases (max_id m)) [
  | inl e ↦
      let id : get_free_server_id m ≡ 1 = unfold get_free_server_id in ground (arith, e) in
      let empty : lookup 1 m ≡ none = rw (max_id-none m e) (unfold lookup in refl) in
      rw (id) (omega arith, empty)
  | inr (k, e) ↦
      let top = max_id_lem 0 m k o small e in
      let below : k ≢ 255 = λ f. top.2 (rw f free) in
      let id : get_free_server_id m ≡ k + 1 =
        unfold get_free_server_id in ground (arith, e, below, top.1) in
      rw (id) (omega arith, top.3 (k + 1) (omega arith))
]

-- A map in the order of its keys, which are bytes, and a call with a byte for an id.
abbrev pub IsServers : Servers → Type 0
IsServers m = Ordered 0 m × IsBytes m

abbrev pub IsCall : Call → Type 0
IsCall (id_call id _ _ _) = id < 256
IsCall _ = Unit

module _ (allow_unknown : Bool) (world_port : ℕ) (raw : WorldServer) where
  step-IsServers :
      (call : Call) (m : Servers)
      → IsCall call
      → IsServers m
      → IsServers (step allow_unknown world_port raw call m)
  unfolding step set_server_status set_server_vip_status set_server_user_count
      set_server_socket_by_address set_server_socket_by_id
  step-IsServers (status_call id v) m c (o, b) =
      (adjust-Ordered 0 id _ m o, adjust-IsBytes id _ m b)
  step-IsServers (vip_call id v) m c (o, b) = (adjust-Ordered 0 id _ m o, adjust-IsBytes id _ m b)
  step-IsServers (count_call id x y) m c (o, b) =
      (adjust-Ordered 0 id _ m o, adjust-IsBytes id _ m b)
  step-IsServers (address_call address socket) m c (o, b) =
      let found = (claim address socket 0 m).servers in
      let id = get_free_server_id found in
      let new = new_by_address raw id address socket world_port in
      let ordered = claim-Ordered 0 address socket 0 m o in
      let bytes = claim-IsBytes address socket 0 m b in
      (
        ground (arith, ordered, insert-Ordered 0 id new found),
        ground (arith, bytes, insert-IsBytes id new found (free_byte found ordered bytes) bytes),
      )
    where
      free_byte : (m : Servers) → Ordered 0 m → IsBytes m → get_free_server_id m < 256
      free_byte m o b = omega (arith, get_free_server_id-last_id m o b)
  step-IsServers (id_call id socket address port) m c (o, b) =
      let new = new_by_id raw id socket address port in
      (
        ground (
          arith,
          adjust-Ordered 0 id (moved socket address port) m o,
          insert-Ordered 0 id new m,
          o,
        ),
        ground (
          arith,
          adjust-IsBytes id (moved socket address port) m b,
          insert-IsBytes id new m c b,
          b,
        ),
      )
  step-IsServers (remove_call socket) m c (o, b) =
      (remove_socket-Ordered 0 socket m o, remove_socket-IsBytes socket m b)

  lookup-address_call :
      (address socket id last i : ℕ) (m : Servers)
      → Ordered 0 m
      → (claim address socket 0 m).value ≡ last
      → get_free_server_id (claim address socket 0 m).servers ≡ id
      → lookup i
          (set_server_socket_by_address allow_unknown world_port raw address socket m).servers
        ≡ (if allow_unknown && (last == 0) && (id == i)
            then some (
                Opt.get_or
                  (Opt.map (with_socket address socket) (lookup i m))
                  (new_by_address raw id address socket world_port))
            else Opt.map (with_socket address socket) (lookup i m))
  unfolding set_server_socket_by_address
  lookup-address_call address socket id last i m o value free =
      let found = claim address socket 0 m in
      let new = new_by_address raw id address socket world_port in
      rw (free, value)
        (ground (
          arith,
          claim-Ordered 0 address socket 0 m o,
          lookup-claim address socket 0 i m,
          lookup-insert 0 id i new found.servers,
        ))

  lookup-step :
      (call : Call) (i : ℕ) (m : Servers)
      → IsServers m
      → lookup i (step allow_unknown world_port raw call m)
        ≡ entry_after allow_unknown world_port raw call (λ j. lookup j m) i
  unfolding step entry_after set_server_status set_server_vip_status set_server_user_count
      set_server_socket_by_id
  lookup-step (status_call id v) i m (o, b) = lookup-adjust id i _ m
  lookup-step (vip_call id v) i m (o, b) = lookup-adjust id i _ m
  lookup-step (count_call id x y) i m (o, b) = lookup-adjust id i _ m
  lookup-step (address_call address socket) i m (o, b) =
      lookup-address_call address socket _ _ i m o (claim-last_with address socket m o b)
        (free_after address socket m o b)
  lookup-step (id_call id socket address port) i m (o, b) = ground (
    arith,
    lookup-adjust id i (moved socket address port) m,
    lookup-insert 0 id i (new_by_id raw id socket address port) m,
  )
  lookup-step (remove_call socket) i m (o, b) = lookup-remove_socket socket i m

  address_value :
      (address socket id last : ℕ) (m : Servers)
      → (claim address socket 0 m).value ≡ last
      → get_free_server_id (claim address socket 0 m).servers ≡ id
      → (set_server_socket_by_address allow_unknown world_port raw address socket m).value
        ≡ (if allow_unknown && (last == 0) then id else last)
  unfolding set_server_socket_by_address
  address_value address socket id last m value free = ground (arith, value, free)

  answer_lem :
      (call : Call) (m : Servers)
      → IsServers m
      → answer allow_unknown world_port raw call m
        ≡ answer_of allow_unknown world_port raw call (λ j. lookup j m)
  unfolding answer answer_of set_server_socket_by_address set_server_socket_by_id
  answer_lem (status_call id v) m (o, b) = refl
  answer_lem (vip_call id v) m (o, b) = refl
  answer_lem (count_call id x y) m (o, b) = refl
  answer_lem (address_call address socket) m (o, b) =
      address_value address socket _ _ m (claim-last_with address socket m o b)
        (free_after address socket m o b)
  answer_lem (id_call id socket address port) m (o, b) = ground arith
  answer_lem (remove_call socket) m (o, b) = refl

  -- The calls one after another, and their answers; and the same without the map.
  pub run : List Call → Servers → Servers × List ℕ
  run [] m = (m, [])
  run (call ∷ calls) m =
      let (last, answers) = run calls (step allow_unknown world_port raw call m) in
      (last, answer allow_unknown world_port raw call m ∷ answers)

  pub run_entries : List Call → Entries → Entries × List ℕ
  run_entries [] f = (f, [])
  run_entries (call ∷ calls) f =
      let (last, answers) = run_entries calls (entry_after allow_unknown world_port raw call f) in
      (last, answer_of allow_unknown world_port raw call f ∷ answers)

  -- From a map in the order of its keys, all of them bytes, after any calls with bytes for ids: the
  -- map is one of the same kind; the list answers for each server with the entry that the calls come
  -- to without the map, where, if unknown servers are allowed, a server whose address no server
  -- above the id 0 has gets one more than the greatest id, as a byte; and the calls return what they
  -- return there: by address, the id of the last server that has it or of the new one, and by id,
  -- whether there is an entry.
  pub lookup-run :
      (calls : List Call) (m : Servers)
      → All IsCall calls
      → IsServers m
      → let r = run calls m in
        let f = run_entries calls (λ j. lookup j m) in
        IsServers r.0 × ((i : ℕ) → lookup i r.0 ≡ f.0 i) × (r.1 ≡ f.1)
  unfolding run run_entries
  lookup-run [] m c v = (v, λ i. refl, refl)
  lookup-run (call ∷ calls) m (c, cs) v =
      let next = step allow_unknown world_port raw call m in
      let (kept, entries, answers) = lookup-run calls next cs (step-IsServers call m c v) in
      let same = fun_ext (λ i. lookup-step call i m v) in
      (
        kept,
        λ i. entries i ∙ ap (λ (f : Entries). (run_entries calls f).0 i) same,
        ap₂ (λ (a : ℕ) (l : List ℕ). a ∷ l) (answer_lem call m v)
            (answers ∙ ap (λ (f : Entries). (run_entries calls f).1) same),
      )
