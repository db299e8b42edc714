-- ===== src/Sockets/Lifetime/Steps.antt =====
-- Every step keeps the count of the references.
use game_login.Base.{
  ℕ, ◌+◌, ◌≤◌, ◌<◌, ◌≡◌, ◌⊎◌, inl, inr, refl, subst, Bool, true, false, List, [], ◌∷◌, Option, none,
  some, ◌==◌, arith, if◌then◌else◌, get_elem?, set, All, total, total-set, total-ge, All-get,
  All-set, Bool-cases, Option-cases,
}
use game_login.Sockets.Lifetime.{
  Op, add_ref, release_ref, receive, send, post, close, unlink, Socket, Thread, Job, received, sent,
  handled, timer, send_socket, World, Outcome, blocked, fault, next, take_up, drop_ref, perform,
  go_on, run_thread, begin_job, Choice, begin, go, step, IsWhole,
}
use game_login.Sockets.Lifetime.Calls.{Safe, calls_of-Safe, unlinks, unlinks-positive}

abbrev pub bit : Bool → ℕ
bit true = 1
bit false = 0

-- The references that are not a thread's.
abbrev pub owed : Socket → ℕ
owed s = bit s.open_ + s.reads + s.writes + s.packets

pub record IsAlive (w : World) : Type 0 where
  pub counted : w.socket.refs ≡ owed w.socket + total (λ (t : Thread). t.held) w.threads
  pub gone : w.socket.deleted ≡ (w.socket.refs == 0)
  pub safe : All (λ (t : Thread). Safe t.held t.calls) w.threads
  pub linked :
      bit w.socket.listed ≤ bit w.socket.open_ + total (λ (t : Thread). unlinks t.calls) w.threads

-- What a call of a thread comes to.
record Moves (op : Op) (held : ℕ) (rest : List Op) (s s' : Socket) (t : Thread) : Type 0 where
  counted : s'.refs + owed s + held ≡ s.refs + owed s' + t.held
  gone : s'.deleted ≡ (s'.refs == 0)
  safe : Safe t.held t.calls
  linked :
      (s'.listed ≡ false)
      ⊎ ((s'.listed ≡ s.listed)
          × (bit s.open_ + unlinks (op ∷ rest) ≡ bit s'.open_ + unlinks t.calls))

perform-Moves :
    (op : Op) (held : ℕ) (rest : List Op) (s : Socket)
    → Safe held (op ∷ rest)
    → s.deleted ≡ (s.refs == 0)
    → 0 < s.refs
    → let r = perform op held rest s in Moves op held rest s r.0 r.1
unfolding perform drop_ref
perform-Moves add_ref held rest s safe gone pos = record {
  counted = omega arith;
  gone = ground arith;
  safe = safe.1;
  linked = inr (refl, refl);
}
perform-Moves release_ref held rest s safe gone pos = record {
  counted = omega (arith, safe.0);
  gone = refl;
  safe = safe.1;
  linked = inr (refl, refl);
}
perform-Moves receive held rest s safe gone pos = record {
  counted = omega (arith, safe.0);
  gone = gone;
  safe = safe.1;
  linked = inr (refl, refl);
}
perform-Moves send held rest s safe gone pos = record {
  counted = omega (arith, safe.0);
  gone = gone;
  safe = safe.1;
  linked = inr (refl, refl);
}
perform-Moves post held rest s safe gone pos = record {
  counted = omega (arith, safe.0);
  gone = gone;
  safe = safe.1;
  linked = inr (refl, refl);
}
perform-Moves close held rest s safe gone pos = record {
  counted = ground arith;
  gone = ground arith;
  safe = close_safe;
  linked = inr (ground arith, ground arith);
}
  where
    close_safe : let t = (perform close held rest s).1 in Safe t.held t.calls
    close_safe = elim (Bool-cases s.open_) [
      | inl e ↦
          rw e (omega arith, (omega arith, subst (λ (h : ℕ). Safe h rest) (omega arith) (safe.1)))
      | inr e ↦ rw e (safe.1)
    ]
perform-Moves unlink held rest s safe gone pos = record {
  counted = omega arith;
  gone = gone;
  safe = safe.1;
  linked = inl refl;
}

-- While a thread is to take the object off the table, threads hold references.
pub total-unlinks :
    (ts : List Thread)
    → All (λ (t : Thread). Safe t.held t.calls) ts
    → 0 < total (λ (t : Thread). unlinks t.calls) ts
    → 0 < total (λ (t : Thread). t.held) ts
total-unlinks [] h p = absurd (omega arith)
total-unlinks (t ∷ ts) h p =
    ground (arith, unlinks-positive t.held t.calls h.0, total-unlinks ts h.1)

alive : (w : World) → IsAlive w → 0 < w.socket.refs → w.socket.deleted ≡ false
alive w v pos = ground (arith, v.gone)

-- A step that touches no deleted object, and leads to a sound state.
abbrev pub IsFine : Outcome → Type 0
IsFine blocked = Unit
IsFine fault = ⊥
IsFine (next w) = IsAlive w

checked :
    (deleted : Bool) (after : World)
    → deleted ≡ false
    → IsAlive after
    → IsFine (if deleted then fault else next after)
checked deleted after e v = rw e v

after_move :
    (i : ℕ) (op : Op) (rest : List Op) (held : ℕ) (w : World) (s : Socket) (t : Thread)
    → IsAlive w
    → get_elem? w.threads i ≡ some (record { held = held; calls = op ∷ rest })
    → Moves op held rest w.socket s t
    → IsAlive (record { socket = s; threads = set w.threads i t })
after_move i op rest held w s t v e m =
    let old : Thread = record { held = held; calls = op ∷ rest } in
    let holds = total-set (λ (t : Thread). t.held) w.threads i old t e in
    let links = total-set (λ (t : Thread). unlinks t.calls) w.threads i old t e in
    record {
      counted = omega (arith, v.counted, m.counted, holds);
      gone = m.gone;
      safe = All-set (λ (t : Thread). Safe t.held t.calls) w.threads i t v.safe m.safe;
      linked = elim m.linked [
        | inl off ↦ rw off (omega arith)
        | inr (same, kept) ↦ rw same (omega (arith, v.linked, kept, links))
      ];
    }

go_on-IsFine :
    (i : ℕ) (calls : List Op) (held : ℕ) (w : World)
    → IsAlive w
    → get_elem? w.threads i ≡ some (record { held = held; calls = calls })
    → IsFine (go_on i calls held w)
unfolding go_on
go_on-IsFine i [] held w v e = tt
go_on-IsFine i (op ∷ rest) held w v e =
    let old : Thread = record { held = held; calls = op ∷ rest } in
    let safe : Safe held (op ∷ rest) =
      All-get (λ (t : Thread). Safe t.held t.calls) w.threads i old v.safe e in
    let positive : 0 < w.socket.refs = omega (
      arith,
      v.counted,
      total-ge (λ (t : Thread). t.held) w.threads i old e,
      first_held op held rest safe,
    ) in
    let r = perform op held rest w.socket in
    checked w.socket.deleted _ (alive w v positive) (
      after_move i op rest held w r.0 r.1 v e
        (perform-Moves op held rest w.socket safe v.gone positive))
  where
    first_held : (op : Op) (held : ℕ) (rest : List Op) → Safe held (op ∷ rest) → 0 < held
    first_held add_ref held rest safe = safe.0
    first_held release_ref held rest safe = safe.0
    first_held receive held rest safe = safe.0
    first_held send held rest safe = safe.0
    first_held post held rest safe = safe.0
    first_held close held rest safe = safe.0
    first_held unlink held rest safe = safe.0

-- A job takes one reference over, or a new one.
record Takes (s s' : Socket) : Type 0 where
  counted : s'.refs + owed s ≡ s.refs + owed s' + 1
  positive : 0 < s.refs
  gone : s'.deleted ≡ (s'.refs == 0)
  same : (s'.listed ≡ s.listed) × (s'.open_ ≡ s.open_)

take_up-Takes :
    (job : Job) (w : World) (s : Socket)
    → IsAlive w
    → take_up job w.socket ≡ some s
    → Takes w.socket s
unfolding take_up
take_up-Takes (received _ _ _) w s v e = record {
  counted = ground (arith, v.counted);
  positive = ground (arith, v.counted);
  gone = ground (arith, v.gone, v.counted);
  same = ground arith;
}
take_up-Takes (sent _ _ _) w s v e = record {
  counted = ground (arith, v.counted);
  positive = ground (arith, v.counted);
  gone = ground (arith, v.gone, v.counted);
  same = ground arith;
}
take_up-Takes (handled _ _) w s v e = record {
  counted = ground (arith, v.counted);
  positive = ground (arith, v.counted);
  gone = ground (arith, v.gone, v.counted);
  same = ground arith;
}
take_up-Takes (timer _) w s v e = record {
  counted = ground (arith, v.counted);
  positive = ground (arith, v.counted, v.linked, total-unlinks w.threads v.safe);
  gone = ground (arith, v.gone, v.counted, v.linked, total-unlinks w.threads v.safe);
  same = ground arith;
}
take_up-Takes (send_socket _) w s v e = record {
  counted = ground (arith, v.counted);
  positive = ground (arith, v.counted, v.linked, total-unlinks w.threads v.safe);
  gone = ground (arith, v.gone, v.counted, v.linked, total-unlinks w.threads v.safe);
  same = ground arith;
}

begin_job-IsFine :
    (job : Job) (w : World)
    → IsAlive w
    → IsWhole (begin job)
    → IsFine (begin_job job (take_up job w.socket) w)
begin_job-IsFine job w v whole = go (take_up job w.socket) refl
  where
    go : (o : Option Socket) → take_up job w.socket ≡ o → IsFine (begin_job job o w)
    go none e = unfold begin_job in tt
    go (some s) e =
        let r = take_up-Takes job w s v e in
        unfold begin_job in
        checked w.socket.deleted _ (alive w v r.positive) (record {
          counted = omega (arith, v.counted, r.counted);
          gone = r.gone;
          safe = (calls_of-Safe job whole, v.safe);
          linked = rw (r.same.0, r.same.1) (omega (arith, v.linked));
        })

pub step-IsFine : (c : Choice) (w : World) → IsAlive w → IsWhole c → IsFine (step c w)
unfolding step run_thread
step-IsFine (begin job) w v whole = begin_job-IsFine job w v whole
step-IsFine (go i) w v whole = elim (Option-cases (get_elem? w.threads i)) [
  | inl e ↦ rw e tt
  | inr (t, e) ↦ rw e (go_on-IsFine i t.calls t.held w v e)
]
