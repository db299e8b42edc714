-- ===== src/Sockets/Lifetime/Safety.antt =====
-- The object is there while something refers to it.
use game_login.Base.{
  ℕ, ◌≡◌, ◌≢◌, ◌↔◌, refl, subst, Bool, true, false, List, [], ◌∷◌, arith, All, total,
}
use game_login.Sockets.Lifetime.{
  Op, add_ref, release_ref, receive, send, post, close, unlink, Thread, reads_on, World, fault,
  Choice, step, initialized, IsWhole, Reachable, start, move,
}
use game_login.Sockets.Lifetime.Calls.{Safe, last_calls, on_read-Keeps, release-Safe, unlinks}
use game_login.Sockets.Lifetime.Steps.{IsAlive, IsFine, step-IsFine}

initialized-IsAlive : (started : Bool) → IsAlive (initialized started)
unfolding initialized
initialized-IsAlive started = record {
  counted = refl;
  gone = refl;
  safe = (on_read-Keeps 0 (reads_on started) last_calls release-Safe, tt);
  linked = omega arith;
}

Reachable-IsAlive : {w : World} → Reachable w → IsAlive w
Reachable-IsAlive (start started) = initialized-IsAlive started
Reachable-IsAlive (move {w} {after} c r whole e) =
    subst IsFine e (step-IsFine c w (Reachable-IsAlive r) whole)

-- The handle is closed, the table does not have the object, no I/O is under way and no packet is posted,
-- and every thread is behind its last call.
pub record IsFinished (w : World) : Type 0 where
  pub shut : w.socket.open_ ≡ false
  pub off : w.socket.listed ≡ false
  pub idle : (w.socket.reads ≡ 0) × (w.socket.writes ≡ 0) × (w.socket.packets ≡ 0)
  pub ended : All (λ (t : Thread). t.calls ≡ []) w.threads

Safe-zero : (p : List Op) → Safe 0 p → p ≡ []
Safe-zero [] s = refl
Safe-zero (add_ref ∷ p) s = absurd (omega (arith, s.0))
Safe-zero (release_ref ∷ p) s = absurd (omega (arith, s.0))
Safe-zero (receive ∷ p) s = absurd (omega (arith, s.0))
Safe-zero (send ∷ p) s = absurd (omega (arith, s.0))
Safe-zero (post ∷ p) s = absurd (omega (arith, s.0))
Safe-zero (close ∷ p) s = absurd (omega (arith, s.0))
Safe-zero (unlink ∷ p) s = absurd (omega (arith, s.0))

all_ended :
    (ts : List Thread)
    → All (λ (t : Thread). Safe t.held t.calls) ts
    → total (λ (t : Thread). t.held) ts ≡ 0
    → All (λ (t : Thread). t.calls ≡ []) ts × (total (λ (t : Thread). unlinks t.calls) ts ≡ 0)
all_ended [] s e = (tt, refl)
all_ended (t ∷ ts) s e =
    let (rest, none_left) = all_ended ts s.1 (omega arith) in
    let zero_held : t.held ≡ 0 = omega arith in
    let done = Safe-zero t.calls (subst (λ (h : ℕ). Safe h t.calls) zero_held s.0) in
    ((done, rest), rw done (omega (arith, none_left)))

none_held :
    (ts : List Thread)
    → All (λ (t : Thread). Safe t.held t.calls) ts
    → All (λ (t : Thread). t.calls ≡ []) ts
    → total (λ (t : Thread). t.held) ts ≡ 0
none_held [] s e = refl
none_held (t ∷ ts) s e =
    let nothing : t.held ≡ 0 = subst (Safe t.held) (e.0) (s.0) in
    omega (arith, nothing, none_held ts s.1 e.1)

deleted-IsFinished : (w : World) → IsAlive w → w.socket.deleted ≡ true → IsFinished w
deleted-IsFinished w v d =
    let zero_refs : w.socket.refs ≡ 0 = ground (arith, v.gone) in
    let (ended, off) = all_ended w.threads v.safe (omega (arith, v.counted, zero_refs)) in
    record {
      shut = ground (arith, v.counted, zero_refs);
      off = ground (arith, v.counted, zero_refs, v.linked, off);
      idle = (
        omega (arith, v.counted, zero_refs),
        omega (arith, v.counted, zero_refs),
        omega (arith, v.counted, zero_refs),
      );
      ended = ended;
    }

finished : (w : World) → IsAlive w → IsFinished w → w.socket.deleted ≡ true
finished w v f =
    ground (arith, v.gone, v.counted, none_held w.threads v.safe f.ended, f.shut, f.idle)

-- From when a client's socket is set up on, however its threads' calls interleave, when the sends
-- that succeed have sent all their bytes and every `PostObject` succeeds: no thread touches the
-- object after it is deleted, also none that finds it in the table; and it is deleted exactly when
-- its handle is closed, the table does not have it, no I/O is under way, no packet is posted, and
-- every thread is behind its last call.
pub Reachable-IsFinished :
    {w : World}
    → Reachable w
    → ((c : Choice) → IsWhole c → step c w ≢ fault) × ((w.socket.deleted ≡ true) ↔ IsFinished w)
Reachable-IsFinished {w} r =
    let v = Reachable-IsAlive r in
    (λ c whole e. subst IsFine e (step-IsFine c w v whole), (deleted-IsFinished w v, finished w v))
