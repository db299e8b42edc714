-- ===== src/Sockets/Writes/Flight.antt =====
-- What the network has of a socket of src/AuthServer/IOSocket.cpp: one send at most, and after a failure none.
use game_login.Base.{
  ℕ, ◌≡◌, refl, ap, sym, ◌∙◌, List, [], ◌∷◌, ◌++◌, append_assoc, append-nil, ◌==◌, if◌then◌else◌,
  ◌<◌, ◌||◌, ◌&&◌, not, Bool, true, false, arith, length, length-append, length-take, take, subst,
  inl, inr, Bool-cases,
}
use game_login.Sockets.Writes.{
  Writer, enqueue, write, on_write_callback, chunks, write_chunks, write_bytes, empty_writer,
}
use game_login.Sockets.Writes.Order.{Event, buffer_event, bytes_event, done_event, step}

-- The first buffer, as a list.
abbrev front : Writer → List (List ℕ)
front w = take 1 w.queue

front-write :
    (buf : List ℕ) (w : Writer) → front w ++ (write buf w).started ≡ front (write buf w).writer
unfolding write enqueue
front-write buf w = elim (Bool-cases (length buf == 0)) [
  | inl e ↦ rw (e) (append-nil (front w))
  | inr e ↦ rw (e) (starts w.queue)
]
  where
    starts :
        (q : List (List ℕ))
        → take 1 q ++ (elim q as (λ _. List (List ℕ)) [ [] ↦ buf ∷ [] | _ ∷ _ ↦ [] ])
          ≡ take 1 (enqueue buf q)
    starts [] = refl
    starts (b ∷ []) = refl
    starts (b ∷ c ∷ q) = refl

front_chunks :
    (cs : List (List ℕ)) (w : Writer)
    → front w ++ (write_chunks cs w).started ≡ front (write_chunks cs w).writer
unfolding write_chunks
front_chunks [] w = append-nil (front w)
front_chunks (c ∷ cs) w =
    let now = write c w in
    sym (append_assoc (front w) now.started (write_chunks cs now.writer).started)
    ∙ ap (λ t. t ++ (write_chunks cs now.writer).started) (front-write c w)
    ∙ front_chunks cs now.writer

-- A socket and the network: the sends that are under way, those that `WSASend` has accepted and those that
-- have gone out whole, in their order, and whether a send has failed, at once or with fewer bytes.
pub record Flight : Type 0 where
  pub writer : Writer
  pub under_way : List (List ℕ)
  pub accepted : List (List ℕ)
  pub gone : List (List ℕ)
  pub failed : Bool

abbrev is_call : List (List ℕ) → Bool
is_call [] = false
is_call (_ ∷ _) = true

-- The calls of `WSASend` succeed, or fail.
abbrev starts : Bool → List (List ℕ) → List (List ℕ)
starts true calls = calls
starts false calls = []

-- What happens to a socket; the Boolean is whether the `WSASend` that the socket then calls succeeds. A
-- send is reported only while one is under way.
pub land : ℕ → Bool → List (List ℕ) → Flight → Flight
land n ok [] f = f
land n ok (sent ∷ others) f =
    let r = step (done_event n) f.writer in
    record {
      writer = r.writer;
      under_way = others ++ starts ok r.started;
      accepted = f.accepted ++ starts ok r.started;
      gone = if n == length sent then f.gone ++ sent ∷ [] else f.gone;
      failed = f.failed || not (n == length sent) || (not ok && is_call r.started);
    }

pub take_off : Event → Bool → Flight → Flight
take_off e ok f =
    let r = step e f.writer in
    record f {
      writer = r.writer;
      under_way = f.under_way ++ starts ok r.started;
      accepted = f.accepted ++ starts ok r.started;
      failed = f.failed || (not ok && is_call r.started);
    }

pub happen : Event × Bool → Flight → Flight
happen (done_event n, ok) f = land n ok f.under_way f
happen (buffer_event buf, ok) f = take_off (buffer_event buf) ok f
happen (bytes_event buf, ok) f = take_off (bytes_event buf) ok f

pub fly : List (Event × Bool) → Flight → Flight
fly [] f = f
fly (e ∷ es) f = fly es (happen e f)

abbrev pub on_ground : Flight
on_ground = record {
  writer = empty_writer;
  under_way = [];
  accepted = [];
  gone = [];
  failed = false;
}

-- While nothing has failed, the first buffer of the list is under way, if there is one, and behind those
-- gone out; and after a failure nothing is under way, with bytes in the list.
abbrev pub Flies : Bool → Flight → Type 0
Flies false f = (f.under_way ≡ take 1 f.writer.queue) × (f.accepted ≡ f.gone ++ f.under_way)
Flies true f = (f.under_way ≡ []) × (0 < length f.writer.queue)

abbrev flight : Writer → List (List ℕ) → List (List ℕ) → List (List ℕ) → Bool → Flight
flight w under_way accepted gone failed = record {
  writer = w;
  under_way = under_way;
  accepted = accepted;
  gone = gone;
  failed = failed;
}

starts_none : (ok : Bool) → starts ok [] ≡ []
starts_none true = refl
starts_none false = refl

nil_of : (xs : List (List ℕ)) → length xs ≡ 0 → xs ≡ []
nil_of [] h = refl
nil_of (x ∷ xs) h = absurd (omega (arith, h))

-- A call that brings its sends behind what is under way.
starts-Flies :
    (failed ok : Bool) (w after : Writer) (u accepted gone calls : List (List ℕ))
    → Flies failed (flight w u accepted gone failed)
    → front w ++ calls ≡ front after
    → Flies (failed || (not ok && is_call calls)) (
        flight after
          (u ++ starts ok calls)
          (accepted ++ starts ok calls)
          gone
          (failed || (not ok && is_call calls)))
starts-Flies false true w after u accepted gone calls v e =
    (ap (λ t. t ++ calls) v.0 ∙ e, ap (λ t. t ++ calls) v.1 ∙ append_assoc gone u calls)
starts-Flies false false w after u accepted gone [] v e = (
  append-nil u ∙ v.0 ∙ sym (append-nil (front w)) ∙ e,
  append-nil accepted ∙ v.1 ∙ ap (λ t. gone ++ t) (sym (append-nil u)),
)
starts-Flies false false w after u accepted gone (c ∷ cs) v e =
    let sizes = length-append (front w) (c ∷ cs) in
    let same = ap length e in
    let most = length-take 1 after.queue in
    (
      append-nil u ∙ v.0 ∙ nil_of (front w) (omega (arith, sizes, same, most)),
      omega (arith, sizes, same, most),
    )
starts-Flies true ok w after u accepted gone calls v e =
    let sizes = length-append (front w) calls in
    let same = ap length e in
    let most = length-take 1 after.queue in
    let one = length-take 1 w.queue in
    let no_calls = nil_of calls (omega (arith, sizes, same, most, one, v.1)) in
    (
      ap (λ t. u ++ starts ok t) no_calls ∙ ap (λ t. u ++ t) (starts_none ok) ∙ append-nil u ∙ v.0,
      omega (arith, sizes, same, most, one, v.1),
    )

take_off-Flies :
    (e : Event) (ok : Bool) (f : Flight)
    → front f.writer ++ (step e f.writer).started ≡ front (step e f.writer).writer
    → Flies f.failed f
    → Flies (take_off e ok f).failed (take_off e ok f)
unfolding take_off
take_off-Flies e ok f front_ v =
    starts-Flies f.failed ok f.writer (step e f.writer).writer f.under_way f.accepted f.gone
      (step e f.writer).started v front_

next_sent :
    (rest : List (List ℕ))
    → (elim rest as (λ _. List (List ℕ)) [ [] ↦ [] | next ∷ _ ↦ next ∷ [] ]) ≡ take 1 rest
next_sent [] = refl
next_sent (next ∷ rest) = refl

first_lands :
    (n pending : ℕ) (ok : Bool) (first : List ℕ) (rest accepted gone : List (List ℕ))
    → accepted ≡ gone ++ first ∷ []
    → let f =
        flight
          (record { queue = first ∷ rest; pending = pending })
          (first ∷ [])
          accepted
          gone
          false in
      Flies (land n ok (first ∷ []) f).failed (land n ok (first ∷ []) f)
unfolding land step on_write_callback
first_lands n pending ok first rest accepted gone all = elim (Bool-cases (n == length first)) [
  | inl e ↦ rw e (
      starts-Flies false ok empty_queue (record { queue = rest; pending = _ }) [] accepted
        (gone ++ first ∷ []) _ (refl, all ∙ sym (append-nil (gone ++ first ∷ []))) (next_sent rest))
  | inr e ↦ rw e (starts_none ok, omega arith)
]
  where
    empty_queue : Writer
    empty_queue = record { queue = []; pending = 0 }

land-Flies :
    (n : ℕ) (ok failed : Bool) (w : Writer) (u accepted gone : List (List ℕ))
    → Flies failed (flight w u accepted gone failed)
    → let f = flight w u accepted gone failed in Flies (land n ok u f).failed (land n ok u f)
unfolding land
land-Flies n ok true w u accepted gone v =
    subst
      (λ t. let f = flight w t accepted gone true in Flies (land n ok t f).failed (land n ok t f))
      (sym v.0) (refl, v.1)
land-Flies n ok false w u accepted gone v =
    subst
      (λ t.
        let f = flight w t accepted gone false in
        (accepted ≡ gone ++ t) → Flies (land n ok t f).failed (land n ok t f))
      (sym v.0) (front_lands w.queue w.pending) v.1
  where
    front_lands :
        (q : List (List ℕ)) (pending : ℕ)
        → let f = flight (record { queue = q; pending = pending }) (take 1 q) accepted gone false in
          (accepted ≡ gone ++ take 1 q)
          → Flies (land n ok (take 1 q) f).failed (land n ok (take 1 q) f)
    front_lands [] pending all = (refl, all)
    front_lands (first ∷ rest) pending all = first_lands n pending ok first rest accepted gone all

happen-Flies :
    (e : Event × Bool) (f : Flight) → Flies f.failed f → Flies (happen e f).failed (happen e f)
unfolding happen
happen-Flies (done_event n, ok) f v =
    land-Flies n ok f.failed f.writer f.under_way f.accepted f.gone v
happen-Flies (buffer_event buf, ok) f v =
    take_off-Flies (buffer_event buf) ok f (unfold step in front-write buf f.writer) v
happen-Flies (bytes_event buf, ok) f v =
    take_off-Flies (bytes_event buf) ok f
      (unfold step write_bytes in front_chunks (chunks (length buf) buf) f.writer) v

fly-Flies :
    (es : List (Event × Bool)) (f : Flight) → Flies f.failed f → Flies (fly es f).failed (fly es f)
unfolding fly
fly-Flies [] f v = v
fly-Flies (e ∷ es) f v = fly-Flies es (happen e f) (happen-Flies e f v)

-- After any writes on a new socket and any reports of sends under way, each with any count of bytes,
-- where every `WSASend` succeeds or fails: while no call has failed and no send was reported with
-- another count than that of its buffer, the network has exactly the first buffer of the list, or
-- nothing if the list is empty, and the buffers that it accepted are those gone out whole and then
-- this one; once one has, the network has nothing and there are buffers in the list, so that nothing
-- is sent any more.
pub fly-on_ground : (es : List (Event × Bool)) → let f = fly es on_ground in Flies f.failed f
unfolding empty_writer
fly-on_ground es = fly-Flies es on_ground (refl, refl)
