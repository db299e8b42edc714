-- ===== src/Reconnects/History.antt =====
-- A connection is up, or one timer is there to make it again.
use game_login.Base.{
  ℕ, ◌≡◌, ◌≢◌, refl, ap, sym, subst, ◌∙◌, Bool, true, false, not, List, [], ◌∷◌, Option, none, some,
  arith, if◌then◌else◌,
}
use game_login.Reconnects.{
  Server, log, ip, wanted, Link, Attempt, no_socket, refused, not_taken, connected, on_close,
  allocate, initialize, try_connect, delete_timer, clear_timer, timer_routine, start_link, fresh,
  close_socket,
}

-- What happens to a connection: its socket is closed, or the first timer that is pending goes off.
pub data Event : Type 0 where
  lost : Event
  due : Attempt → Event

abbrev go_off : Server → Attempt → List ℕ → Link → Link
go_off server attempt [] l = l
go_off server attempt (t ∷ ts) l = timer_routine server attempt t l

abbrev pub act : Server → Event → Link → Link
act server lost l = close_socket l
act server (due attempt) l = go_off server attempt l.pending l

abbrev pub run : Server → List Event → Link → Link
run server [] l = l
run server (e ∷ es) l = run server es (act server e l)

abbrev pub succeeds : Attempt → Bool
succeeds connected = true
succeeds _ = false

-- Whether the connection is up, by the events alone.
abbrev pub is_up : List Event → Bool → Bool
is_up [] up = up
is_up (lost ∷ es) up = is_up es false
is_up (due attempt ∷ es) up = is_up es (if up then true else succeeds attempt)

-- `socket` has given a handle.
abbrev pub HasSocket : Attempt → Type 0
HasSocket attempt = attempt ≢ no_socket

abbrev pub AllSockets : List Event → Type 0
AllSockets [] = Unit
AllSockets (lost ∷ es) = AllSockets es
AllSockets (due attempt ∷ es) = HasSocket attempt × AllSockets es

abbrev pub Timers : Bool → Link → Type 0
Timers true l = l.pending ≡ []
Timers false l = (t : ℕ) × (l.pending ≡ t ∷ [])

pub record IsLinked (up : Bool) (l : Link) : Type 0 where
  pub handle : l.open_ ≡ up
  pub used : l.use_ ≡ up
  pub again : l.reconnect ≡ not up
  pub timers : Timers up l

on_close-IsLinked : (l : Link) → l.pending ≡ [] → l.open_ ≡ false → IsLinked false (on_close l)
unfolding on_close
on_close-IsLinked l none_left shut = record {
  handle = shut;
  used = refl;
  again = refl;
  timers = (l.next_timer, ap (λ (ts : List ℕ). l.next_timer ∷ ts) none_left);
}

try_connect-IsLinked :
    (attempt : Attempt) (l : Link)
    → HasSocket attempt
    → l.pending ≡ []
    → l.open_ ≡ false
    → IsLinked (succeeds attempt) (try_connect attempt l)
unfolding try_connect initialize
try_connect-IsLinked no_socket l has none_left shut = absurd (has refl)
try_connect-IsLinked refused l has none_left shut = on_close-IsLinked l none_left shut
try_connect-IsLinked not_taken l has none_left shut =
    on_close-IsLinked (record l { reconnect = false; use_ = true }) none_left shut
try_connect-IsLinked connected l has none_left shut = record {
  handle = refl;
  used = refl;
  again = refl;
  timers = none_left;
}

start_link-IsLinked :
    (server : Server) (attempt : Attempt)
    → HasSocket attempt
    → IsLinked (succeeds attempt) (start_link server attempt)
unfolding start_link allocate initialize
start_link-IsLinked server no_socket has = absurd (has refl)
start_link-IsLinked log refused has = on_close-IsLinked fresh refl refl
start_link-IsLinked ip refused has = on_close-IsLinked fresh refl refl
start_link-IsLinked wanted refused has = on_close-IsLinked fresh refl refl
start_link-IsLinked log not_taken has = on_close-IsLinked fresh refl refl
start_link-IsLinked ip not_taken has = on_close-IsLinked fresh refl refl
start_link-IsLinked wanted not_taken has = on_close-IsLinked fresh refl refl
start_link-IsLinked log connected has = record {
  handle = refl;
  used = refl;
  again = refl;
  timers = refl;
}
start_link-IsLinked ip connected has = record {
  handle = refl;
  used = refl;
  again = refl;
  timers = refl;
}
start_link-IsLinked wanted connected has = record {
  handle = refl;
  used = refl;
  again = refl;
  timers = refl;
}

close_socket-IsLinked : (up : Bool) (l : Link) → IsLinked up l → IsLinked false (close_socket l)
unfolding close_socket
close_socket-IsLinked true l v =
    rw v.handle (on_close-IsLinked (record l { open_ = false }) v.timers refl)
close_socket-IsLinked false l v =
    subst (λ (b : Bool). IsLinked false (if b then on_close (record l { open_ = false }) else l))
      (sym v.handle) v

allocate-IsLinked :
    (server : Server) (attempt : Attempt) (l : Link)
    → HasSocket attempt
    → l.pending ≡ []
    → l.open_ ≡ false
    → IsLinked (succeeds attempt) (try_connect attempt (allocate server l))
unfolding allocate
allocate-IsLinked log attempt l has none_left shut =
    try_connect-IsLinked attempt l has none_left shut
allocate-IsLinked ip attempt l has none_left shut =
    try_connect-IsLinked attempt (record l { reconnect = false }) has none_left shut
allocate-IsLinked wanted attempt l has none_left shut =
    try_connect-IsLinked attempt (record l { reconnect = false }) has none_left shut

abbrev cleared : ℕ → Link → Link
cleared t l = record l { pending = clear_timer l.timer (delete_timer t l.pending); timer = none }

pending-cleared : (t : ℕ) (l : Link) → l.pending ≡ t ∷ [] → (cleared t l).pending ≡ []
unfolding delete_timer clear_timer
pending-cleared t l one =
    ap (λ (ts : List ℕ). clear_timer l.timer (delete_timer t ts)) one
    ∙ ap (clear_timer l.timer) (ground arith)
    ∙ none_left l.timer
  where
    none_left : (timer : Option ℕ) → clear_timer timer [] ≡ []
    none_left none = refl
    none_left (some t) = refl

-- The timer that is pending goes off.
timer_routine-IsLinked :
    (server : Server) (attempt : Attempt) (t : ℕ) (l : Link)
    → HasSocket attempt
    → l.pending ≡ t ∷ []
    → l.reconnect ≡ true
    → l.open_ ≡ false
    → IsLinked (succeeds attempt) (timer_routine server attempt t l)
unfolding timer_routine allocate
timer_routine-IsLinked server attempt t l has one again shut =
    subst
      (λ (b : Bool).
        IsLinked (succeeds attempt)
          (if b then try_connect attempt (allocate server (cleared t l)) else cleared t l))
      (sym again)
      (allocate-IsLinked server attempt (cleared t l) has (pending-cleared t l one) shut)

go_off-IsLinked :
    (server : Server) (attempt : Attempt) (up : Bool) (l : Link)
    → HasSocket attempt
    → IsLinked up l
    → IsLinked (if up then true else succeeds attempt) (go_off server attempt l.pending l)
go_off-IsLinked server attempt true l has v =
    subst (λ (ts : List ℕ). IsLinked true (go_off server attempt ts l)) (sym v.timers) v
go_off-IsLinked server attempt false l has v =
    let (t, one) = v.timers in
    subst (λ (ts : List ℕ). IsLinked (succeeds attempt) (go_off server attempt ts l)) (sym one)
      (timer_routine-IsLinked server attempt t l has one v.again v.handle)

run-IsLinked :
    (server : Server) (es : List Event) (up : Bool) (l : Link)
    → AllSockets es
    → IsLinked up l
    → IsLinked (is_up es up) (run server es l)
run-IsLinked server [] up l has v = v
run-IsLinked server (lost ∷ es) up l has v =
    run-IsLinked server es false (close_socket l) has (close_socket-IsLinked up l v)
run-IsLinked server (due attempt ∷ es) up l has v =
    run-IsLinked server es _ _ has.1 (go_off-IsLinked server attempt up l has.0 v)

-- While the system gives out sockets, whether a try to connect then fails or the completion port does not
-- take it, and whenever the connection is lost: the connection is up exactly when the last try since it
-- was last lost has succeeded; the flags say whether it is; and while it is not, exactly one timer is
-- pending that will try again, while it is, none.
pub run-start_link :
    (server : Server) (first : Attempt) (es : List Event)
    → HasSocket first
    → AllSockets es
    → IsLinked (is_up es (succeeds first)) (run server es (start_link server first))
run-start_link server first es has all =
    run-IsLinked server es _ _ all (start_link-IsLinked server first has)
