-- ===== src/Accepts/History.antt =====
-- Any history of clients that connect and sockets that close, one after another.
use game_login.Base.{
  ℕ, ◌+◌, ◌≤◌, ◌<◌, ◌≡◌, refl, ap, ap₂, ◌∙◌, Bool, true, false, ◌&&◌, List, [], ◌∷◌, ◌++◌, none,
  some, ltb, leb, ◌==◌, arith, length, if◌then◌else◌, Bool-cases, Option-cases, inl, inr,
}
use game_login.Base.OrderedMap.{lookup, insert, erase}
use game_login.Ip.Access.{set_access}
use game_login.Ip.Access.Counts.{IsAccess, connections}
use game_login.Ip.Access.History.{no_connections-IsAccess}
use game_login.Accepts.{Server, new_server, create_socket, on_close, close_socket}
use game_login.Accepts.Limits.{
  of_address, of_address-insert, of_address-erase, length-insert, length-erase, erase_absent,
  Agrees, room, set_access_facts, del_access_facts,
}

module _ (socket_limit ip_limit : ℕ) (on : 0 < ip_limit) where
  create_socket-Agrees :
      (s ip : ℕ) (server : Server) (m : List (ℕ × ℕ))
      → Agrees server m
      → lookup s m ≡ none
      → let r = create_socket socket_limit ip_limit s ip server in
        Agrees r.0 (if room socket_limit ip_limit on ip m then insert s ip m else m)
        × (r.1 ≡ room socket_limit ip_limit on ip m)
  unfolding create_socket
  create_socket-Agrees s ip server m v fresh =
      elim (Bool-cases (leb socket_limit server.socket_count)) [
        | inl full ↦
            let none_left : room socket_limit ip_limit on ip m ≡ false =
              ground (arith, v.sockets) in
            rw (full, none_left) (v, refl)
        | inr space ↦ elim (Bool-cases (ltb (of_address ip m) ip_limit)) [
          | inl few ↦ rw (space, allowed few, enough space few) (taken few, refl)
          | inr many ↦
              let none_left : room socket_limit ip_limit on ip m ≡ false = ground (arith, many) in
              rw (space, refused many, none_left) (left_out many, refl)
        ]
      ]
    where
      facts :
          let a = set_access ip_limit ip server.access in
          IsAccess a.0
          × (a.1 ≡ ltb (connections server.access ip) ip_limit)
          × ((j : ℕ)
              → connections a.0 j ≡ (
                  if ltb (connections server.access ip) ip_limit
                  then (if ip == j then 1 else 0) + connections server.access j
                  else connections server.access j))
      facts = set_access_facts socket_limit ip_limit on ip server.access v.sound

      allowed :
          ltb (of_address ip m) ip_limit ≡ true → (set_access ip_limit ip server.access).1 ≡ true
      allowed few = facts.1 ∙ ap (λ n. ltb n ip_limit) (v.addresses ip) ∙ few

      refused :
          ltb (of_address ip m) ip_limit ≡ false → (set_access ip_limit ip server.access).1 ≡ false
      refused many = facts.1 ∙ ap (λ n. ltb n ip_limit) (v.addresses ip) ∙ many

      enough :
          leb socket_limit server.socket_count ≡ false
          → ltb (of_address ip m) ip_limit ≡ true
          → room socket_limit ip_limit on ip m ≡ true
      enough space few = ground (arith, v.sockets)

      taken :
          ltb (of_address ip m) ip_limit ≡ true
          → Agrees
              (record {
                socket_count = server.socket_count + 1;
                access = (set_access ip_limit ip server.access).0;
                socketmap = insert s ip server.socketmap;
              })
              (insert s ip m)
      taken few = record {
        table = ap (insert s ip) v.table;
        sound = facts.0;
        sockets = omega (arith, v.sockets, length-insert s ip m fresh);
        addresses = λ j. ground (
          arith,
          facts.2 j,
          v.addresses ip,
          v.addresses j,
          of_address-insert s ip j m fresh,
          few,
        );
      }

      left_out :
          ltb (of_address ip m) ip_limit ≡ false
          → Agrees (record server { access = (set_access ip_limit ip server.access).0 }) m
      left_out many = record {
        table = v.table;
        sound = facts.0;
        sockets = v.sockets;
        addresses = λ j. ground (arith, facts.2 j, v.addresses ip, v.addresses j, many);
      }

  close_socket-Agrees :
      (s : ℕ) (server : Server) (m : List (ℕ × ℕ))
      → Agrees server m
      → Agrees (close_socket socket_limit ip_limit s server) (erase s m)
  unfolding close_socket on_close
  close_socket-Agrees s server m v = elim (Option-cases (lookup s m)) [
    | inl e ↦ rw (erase_absent s m e) (rw (ap (lookup s) v.table ∙ e, close_socket) v)
    | inr (ip, e) ↦ rw (ap (lookup s) v.table ∙ e, close_socket) (closed ip e)
  ]
    where
      closed :
          (ip : ℕ)
          → lookup s m ≡ some ip
          → Agrees (on_close socket_limit ip_limit s ip server) (erase s m)
      closed ip e =
          let gone = of_address-erase s ip ip m e in
          let (sound, after) =
            del_access_facts socket_limit ip_limit on ip server.access v.sound
              (ground (arith, gone, v.addresses ip)) in
          record {
            table = ap (erase s) v.table;
            sound = sound;
            sockets = omega (arith, v.sockets, length-erase s ip m e);
            addresses = λ j. omega (arith, after j, v.addresses j, of_address-erase s ip j m e);
          }

-- A client that connects from an address on a handle, and a socket that closes.
pub data Event : Type 0 where
  connect : ℕ → ℕ → Event
  close : ℕ → Event

pub act : ℕ → ℕ → Event → Server → Server × List Bool
act socket_limit ip_limit (connect s ip) server =
    let (after, taken) = create_socket socket_limit ip_limit s ip server in (after, taken ∷ [])
act socket_limit ip_limit (close s) server = (close_socket socket_limit ip_limit s server, [])

pub run : ℕ → ℕ → List Event → Server → Server × List Bool
run socket_limit ip_limit [] server = (server, [])
run socket_limit ip_limit (ev ∷ evs) server =
    let (next, answer) = act socket_limit ip_limit ev server in
    let (last, answers) = run socket_limit ip_limit evs next in (last, answer ++ answers)

-- The promise: the open sockets with their addresses, and nothing else.
abbrev pub promise : ℕ → ℕ → Event → List (ℕ × ℕ) → List (ℕ × ℕ) × List Bool
promise socket_limit ip_limit (connect s ip) m =
    let room = ltb (length m) socket_limit && ltb (of_address ip m) ip_limit in
    (if room then insert s ip m else m, room ∷ [])
promise socket_limit ip_limit (close s) m = (erase s m, [])

abbrev pub promise_all : ℕ → ℕ → List Event → List (ℕ × ℕ) → List (ℕ × ℕ) × List Bool
promise_all socket_limit ip_limit [] m = (m, [])
promise_all socket_limit ip_limit (ev ∷ evs) m =
    let (next, answer) = promise socket_limit ip_limit ev m in
    let (last, answers) = promise_all socket_limit ip_limit evs next in (last, answer ++ answers)

-- The system gives a new connection a handle that no open socket has.
abbrev pub IsFresh : Event → List (ℕ × ℕ) → Type 0
IsFresh (connect s ip) m = lookup s m ≡ none
IsFresh (close s) m = Unit

abbrev pub AllFresh : ℕ → ℕ → List Event → List (ℕ × ℕ) → Type 0
AllFresh socket_limit ip_limit [] m = Unit
AllFresh socket_limit ip_limit (ev ∷ evs) m =
    IsFresh ev m × AllFresh socket_limit ip_limit evs (promise socket_limit ip_limit ev m).0

-- The limits hold of the open sockets.
pub record IsLimited (socket_limit ip_limit : ℕ) (m : List (ℕ × ℕ)) : Type 0 where
  pub sockets : length m ≤ socket_limit
  pub addresses : (ip : ℕ) → of_address ip m ≤ ip_limit

module _ (socket_limit ip_limit : ℕ) (on : 0 < ip_limit) where
  act-Agrees :
      (ev : Event) (server : Server) (m : List (ℕ × ℕ))
      → Agrees server m
      → IsFresh ev m
      → let r = act socket_limit ip_limit ev server in
        Agrees r.0 (promise socket_limit ip_limit ev m).0
        × (r.1 ≡ (promise socket_limit ip_limit ev m).1)
  unfolding act
  act-Agrees (connect s ip) server m v fresh =
      let (agrees, answer) = create_socket-Agrees socket_limit ip_limit on s ip server m v fresh in
      (agrees, ap (λ b. b ∷ []) answer)
  act-Agrees (close s) server m v fresh =
      (close_socket-Agrees socket_limit ip_limit on s server m v, refl)

  promise-IsLimited :
      (ev : Event) (m : List (ℕ × ℕ))
      → IsLimited socket_limit ip_limit m
      → IsFresh ev m
      → IsLimited socket_limit ip_limit (promise socket_limit ip_limit ev m).0
  promise-IsLimited (connect s ip) m v fresh = record {
    sockets = ground (arith, v.sockets, length-insert s ip m fresh);
    addresses = λ j. ground (arith, v.addresses j, of_address-insert s ip j m fresh);
  }
  promise-IsLimited (close s) m v fresh = elim (Option-cases (lookup s m)) [
    | inl e ↦ rw (erase_absent s m e) v
    | inr (ip, e) ↦ record {
      sockets = omega (arith, v.sockets, length-erase s ip m e);
      addresses = λ j. omega (arith, v.addresses j, of_address-erase s ip j m e);
    }
  ]

  run-Agrees :
      (evs : List Event) (server : Server) (m : List (ℕ × ℕ))
      → Agrees server m
      → IsLimited socket_limit ip_limit m
      → AllFresh socket_limit ip_limit evs m
      → let r = run socket_limit ip_limit evs server in
        let p = promise_all socket_limit ip_limit evs m in
        Agrees r.0 p.0 × (r.1 ≡ p.1) × IsLimited socket_limit ip_limit p.0
  unfolding run
  run-Agrees [] server m v l h = (v, refl, l)
  run-Agrees (ev ∷ evs) server m v l (fresh, h) =
      let (agrees, answer) = act-Agrees ev server m v fresh in
      let (last, answers, limited) =
        run-Agrees evs (act socket_limit ip_limit ev server).0
          (promise socket_limit ip_limit ev m).0 agrees (promise-IsLimited ev m l fresh) h in
      (last, ap₂ ◌++◌ answer answers, limited)

  new_server-Agrees : Agrees new_server []
  unfolding new_server of_address
  new_server-Agrees = record {
    table = refl;
    sound = no_connections-IsAccess;
    sockets = refl;
    addresses = λ ip. unfold connections lookup in refl;
  }

  -- On a new server with a limit for each address, after any clients that connect, on handles that no
  -- open socket has, and sockets that close, each `CreateSocket` and `CloseSocket` at its end before the
  -- next begins (calls that run at the same time are not covered): the clients taken are those that `promise` takes, by the
  -- open sockets alone; the table has these sockets; `m_SocketCount` is their number, and `IPaccessLimit`
  -- counts for each address those of the address; and there are never more than the limits.
  pub run-new_server :
      (evs : List Event)
      → AllFresh socket_limit ip_limit evs []
      → let r = run socket_limit ip_limit evs new_server in
        let p = promise_all socket_limit ip_limit evs [] in
        Agrees r.0 p.0 × (r.1 ≡ p.1) × IsLimited socket_limit ip_limit p.0
  run-new_server evs h = run-Agrees evs new_server [] new_server-Agrees none_open h
    where
      none_open : IsLimited socket_limit ip_limit []
      none_open = record {
        sockets = omega arith;
        addresses = λ ip. unfold of_address in omega arith;
      }
