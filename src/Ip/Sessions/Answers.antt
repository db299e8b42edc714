-- ===== src/Ip/Sessions/Answers.antt =====
-- What the sessions answer.
use game_login.Base.{
  ℕ, ◌≡◌, ◌≢◌, refl, ap, fun_ext, ◌∙◌, List, [], ◌∷◌, some, ◌==◌, if◌then◌else◌, arith,
}
use game_login.Base.OrderedMap.{
  lookup, Ordered, lookup-insert, lookup-erase, insert-Ordered, erase-Ordered,
}
use game_login.Ip.Sessions.{Sessions, find_session_id, del_session_id, add_session_id}

-- The calls that change the map.
pub data Call : Type 0 where
  add_call : ℕ → ℕ → Call
  del_call : ℕ → Call

pub step : Call → Sessions → ℕ × Sessions
step (add_call uid session) m = add_session_id uid session m
step (del_call uid) m = del_session_id uid m

pub run : List Call → Sessions → Sessions
run [] m = m
run (c ∷ cs) m = run cs (step c m).1

-- The session of each user, without the map: 0 is no session, and a session that a user has stays
-- until it is deleted.
pub session_after : Call → (ℕ → ℕ) → ℕ → ℕ
session_after (add_call uid session) sessions i =
    if (uid == i) then (if sessions i == 0 then session else sessions i) else sessions i
session_after (del_call uid) sessions i = if uid == i then 0 else sessions i

-- What a call returns: the session that it has added or deleted, and 0 when it has not.
pub answer : Call → (ℕ → ℕ) → ℕ
answer (add_call uid session) sessions = if sessions uid == 0 then session else 0
answer (del_call uid) sessions = sessions uid

-- No session in the map is 0.
abbrev pub IsSessions : Sessions → Type 0
IsSessions m = Ordered 0 m × ((i : ℕ) → lookup i m ≢ some 0)

step-IsSessions : (c : Call) (m : Sessions) → IsSessions m → IsSessions (step c m).1
unfolding step del_session_id add_session_id
step-IsSessions (add_call uid session) m v = (
  ground (arith, insert-Ordered 0 uid session m, v.0),
  λ i e. ground (arith, e, lookup-insert 0 uid i session m v.0, v.1 i),
)
step-IsSessions (del_call uid) m v = (
  ground (arith, erase-Ordered 0 uid m, v.0),
  λ i e. ground (arith, e, lookup-erase 0 uid i m v.0, v.1 i),
)

-- One call, on a map of valid sessions: the map stays valid, the call returns what `answer` says, and
-- each user has the session that `session_after` says, both from the sessions before the call.
pub step_lem :
    (c : Call) (m : Sessions)
    → IsSessions m
    → let sessions = λ (i : ℕ). find_session_id i m in
      IsSessions (step c m).1
      × ((step c m).0 ≡ answer c sessions)
      × ((i : ℕ) → find_session_id i (step c m).1 ≡ session_after c sessions i)
unfolding step answer session_after find_session_id del_session_id add_session_id
step_lem (add_call uid session) m v = (
  step-IsSessions (add_call uid session) m v,
  ground (arith, v.1 uid),
  λ i. ground (arith, lookup-insert 0 uid i session m v.0, v.1 i, v.1 uid),
)
step_lem (del_call uid) m v = (
  step-IsSessions (del_call uid) m v,
  ground arith,
  λ i. ground (arith, lookup-erase 0 uid i m v.0),
)

pub sessions_after : List Call → (ℕ → ℕ) → ℕ → ℕ
sessions_after [] sessions = sessions
sessions_after (c ∷ cs) sessions = sessions_after cs (session_after c sessions)

-- From a map of valid sessions, after any calls the map gives each user the session that the same
-- calls come to without it, and is a map of valid sessions still.
pub run_lem :
    (cs : List Call) (m : Sessions)
    → IsSessions m
    → IsSessions (run cs m)
      × ((i : ℕ) → find_session_id i (run cs m) ≡ sessions_after cs (λ j. find_session_id j m) i)
unfolding run sessions_after
run_lem [] m v = (v, λ i. refl)
run_lem (c ∷ cs) m v =
    let now = step_lem c m v in
    let later = run_lem cs (step c m).1 now.0 in
    (later.0, λ i. later.1 i ∙ ap (λ s. sessions_after cs s i) (fun_ext now.2))
