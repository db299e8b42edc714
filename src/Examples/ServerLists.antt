-- ===== src/Examples/ServerLists.antt =====
-- The list of servers at concrete inputs.
use mathlib.Core.Option as Opt
use game_login.Base.{
  ℕ, List, ◌<◌, ◌≡◌, refl, true, [], ◌∷◌, none, some, ◌==◌, ltb, if◌then◌else◌, arith,
}
use game_login.Base.OrderedMap.{lookup}
use game_login.Servers.{WorldServer, Servers, get_free_server_id}
use game_login.Servers.Calls.{Call, address_call, id_call, remove_call}
use game_login.Servers.Lookups.{run, run_entries, IsServers, lookup-run, get_free_server_id-lookup}
use game_login.Servers.Queues.{
  Queues, queue_at, set_server_queue_size, empty_queue, queue_at-set_server_queue_size, take_packet,
  make_queue_size_packet, count_queues, entries, take_packet-make_queue_size_packet,
}

abbrev blank : WorldServer
blank = record {
  serverid = 0;
  name = [];
  outer_addr = 0;
  outer_port = 0;
  inner_addr = 0;
  age_limit = 0;
  pkflag = 0;
  user_num = 0;
  max_users = 0;
  s = 0;
  status = 0;
  region_id = 0;
  is_vip = 0;
}

abbrev servers : Servers
servers =
    (1, record blank { inner_addr = 100; s = 9 }) ∷ (4, record blank { inner_addr = 200 }) ∷ []

abbrev unknown_address : Call
unknown_address = address_call 300 12

abbrev calls : List Call
calls = unknown_address ∷ address_call 200 13 ∷ id_call 4 14 201 7001 ∷ remove_call 9 ∷ []

lookup-run_example :
    let r = run true 7000 blank calls servers in
    let f = run_entries true 7000 blank calls (λ j. lookup j servers) in
    IsServers r.0 × ((i : ℕ) → lookup i r.0 ≡ f.0 i) × (r.1 ≡ f.1)
lookup-run_example =
    lookup-run true 7000 blank calls servers (tt, (tt, (omega arith, (tt, tt))))
      ((omega arith, (omega arith, tt)), (omega arith, (omega arith, tt)))

get_free_server_id-lookup_example :
    (0 < get_free_server_id servers) × (lookup (get_free_server_id servers) servers ≡ none)
get_free_server_id-lookup_example =
    get_free_server_id-lookup servers (omega arith) (omega arith) (unfold lookup in refl)

abbrev queues : Queues
queues = (1, (10, 60) ∷ (3, 20) ∷ []) ∷ (4, (0, 0) ∷ []) ∷ []

queue_at-set_server_queue_size_example :
    queue_at 4 1 (set_server_queue_size 4 (some 2) 8 30 queues) ≡ (
      if 4 == 4
      then (if 2 == 1
          then some (8, 30)
          else if ltb 1 2
          then some (Opt.get_or (queue_at 4 1 queues) empty_queue)
          else queue_at 4 1 queues)
      else queue_at 4 1 queues)
queue_at-set_server_queue_size_example =
    queue_at-set_server_queue_size 4 2 8 30 4 1 queues (omega arith)

take_packet-make_queue_size_packet_example :
    take_packet (make_queue_size_packet queues) ≡ some (entries queues)
take_packet-make_queue_size_packet_example =
    take_packet-make_queue_size_packet queues (unfold count_queues in omega arith) (omega arith)
