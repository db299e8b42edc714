-- ===== src/Sockets/Writes/Calls.antt =====
-- What one call of `Write` or `OnWriteCallback` of src/AuthServer/IOSocket.cpp does to the bytes.
use game_login.Base.{
  ℕ, zero, suc, ◌%◌, ◌^◌, ◌≤◌, ◌<◌, ◌≡◌, refl, sym, ap, ◌∙◌, false, List, [], ◌∷◌, ◌++◌,
  append_assoc, append-nil, ◌==◌, arith, length, take, drop, length-append, length-take,
  length-drop, All, inl, inr, Bool-cases,
}
use game_login.Wire.Framing.{buffer_size}
use game_login.Wire.Framing.Segments.{flatten}
use game_login.Sockets.Writes.{
  Writer, Written, push_last, enqueue, write, on_write_callback, chunks, write_chunks,
}

-- The bytes that no `WSASend` was started on: the first buffer is with the network.
abbrev pub waiting : List (List ℕ) → List ℕ
waiting [] = []
waiting (first ∷ rest) = flatten rest

-- A buffer has room for `buffer_size` bytes.
abbrev pub IsBuffer : List ℕ → Type 0
IsBuffer buf = (0 < length buf) × (length buf ≤ buffer_size)

pub record IsWriter (w : Writer) : Type 0 where
  pub buffers : All IsBuffer w.queue
  pub count : w.pending ≡ length (flatten w.queue) % 2 ^ 32

-- What a call does right: it adds its bytes behind those that wait, and starts sends on the front ones.
pub record Moves (w : Writer) (bs : List ℕ) (r : Written) : Type 0 where
  pub bytes : flatten r.started ++ waiting r.writer.queue ≡ waiting w.queue ++ bs
  pub is_writer : IsWriter r.writer
  pub starts : All IsBuffer r.started

flatten-push_last :
    (buf last : List ℕ) (q : List (List ℕ))
    → flatten (push_last buf last q) ≡ flatten (last ∷ q) ++ buf
unfolding push_last
flatten-push_last buf last [] =
    ground (arith, append-nil last, append-nil buf, append-nil (last ++ buf))
flatten-push_last buf last (b ∷ q) =
    ap (λ t. last ++ t) (flatten-push_last buf b q) ∙ sym (append_assoc last (flatten (b ∷ q)) buf)

push_last-IsBuffer :
    (buf last : List ℕ) (q : List (List ℕ))
    → IsBuffer buf
    → All IsBuffer (last ∷ q)
    → All IsBuffer (push_last buf last q)
unfolding push_last
push_last-IsBuffer buf last [] h k = ground (arith, length-append last buf)
push_last-IsBuffer buf last (b ∷ q) h k = (k.0, push_last-IsBuffer buf b q h k.1)

flatten-enqueue : (buf : List ℕ) (q : List (List ℕ)) → flatten (enqueue buf q) ≡ flatten q ++ buf
unfolding enqueue
flatten-enqueue buf [] = append-nil buf
flatten-enqueue buf (first ∷ []) = ground (arith, append-nil buf, append_assoc first [] buf)
flatten-enqueue buf (first ∷ b ∷ q) =
    ap (λ t. first ++ t) (flatten-push_last buf b q)
    ∙ sym (append_assoc first (flatten (b ∷ q)) buf)

enqueue-IsBuffer :
    (buf : List ℕ) (q : List (List ℕ))
    → IsBuffer buf
    → All IsBuffer q
    → All IsBuffer (enqueue buf q)
unfolding enqueue
enqueue-IsBuffer buf [] h k = (h, tt)
enqueue-IsBuffer buf (first ∷ []) h k = (k.0, (h, tt))
enqueue-IsBuffer buf (first ∷ b ∷ q) h k = (k.0, push_last-IsBuffer buf b q h k.1)

abbrev writer : List (List ℕ) → ℕ → Writer
writer queue pending = record { queue = queue; pending = pending }

-- The front of the list: one buffer is with the network as long as there is one.
enqueue_started :
    (buf : List ℕ) (q : List (List ℕ))
    → flatten (elim q as (λ _. List (List ℕ)) [ [] ↦ buf ∷ [] | _ ∷ _ ↦ [] ])
        ++ waiting (enqueue buf q)
      ≡ waiting q ++ buf
unfolding enqueue
enqueue_started buf [] = ground (arith, append-nil buf, append-nil (buf ++ []))
enqueue_started buf (first ∷ []) = append-nil buf
enqueue_started buf (first ∷ b ∷ q) = flatten-push_last buf b q

starts_one :
    (buf : List ℕ) (q : List (List ℕ))
    → IsBuffer buf
    → All IsBuffer (elim q as (λ _. List (List ℕ)) [ [] ↦ buf ∷ [] | _ ∷ _ ↦ [] ])
starts_one buf [] h = (h, tt)
starts_one buf (first ∷ q) h = tt

pub write-Moves :
    (buf : List ℕ) (q : List (List ℕ)) (pending : ℕ)
    → length buf ≤ buffer_size
    → IsWriter (writer q pending)
    → Moves (writer q pending) buf (write buf (writer q pending))
unfolding write
write-Moves [] q pending h v = record {
  bytes = sym (append-nil (waiting q));
  is_writer = v;
  starts = tt;
}
write-Moves (b ∷ bs) q pending h v =
    let size = length-append (flatten q) (b ∷ bs) in
    let flat = ap length (flatten-enqueue (b ∷ bs) q) in
    let full : (length (b ∷ bs) == 0) ≡ false = ground arith in
    rw (full) (record {
      bytes = enqueue_started (b ∷ bs) q;
      is_writer = record {
        buffers = enqueue-IsBuffer (b ∷ bs) q (omega arith, h) v.buffers;
        count = omega (arith, size, flat, v.count);
      };
      starts = starts_one (b ∷ bs) q (omega arith, h);
    })

starts_next :
    (q : List (List ℕ))
    → All IsBuffer q
    → All IsBuffer (elim q as (λ _. List (List ℕ)) [ [] ↦ [] | next ∷ _ ↦ next ∷ [] ])
starts_next [] h = tt
starts_next (next ∷ q) h = (h.0, tt)

next_started :
    (q : List (List ℕ))
    → flatten (elim q as (λ _. List (List ℕ)) [ [] ↦ [] | next ∷ _ ↦ next ∷ [] ]) ++ waiting q
      ≡ flatten q
next_started [] = refl
next_started (next ∷ q) = ap (λ t. t ++ flatten q) (append-nil next)

pub on_write_callback-Moves :
    (n : ℕ) (q : List (List ℕ)) (pending : ℕ)
    → IsWriter (writer q pending)
    → Moves (writer q pending) [] (on_write_callback n (writer q pending))
unfolding on_write_callback
on_write_callback-Moves n [] pending v = record { bytes = refl; is_writer = v; starts = tt }
on_write_callback-Moves n (first ∷ q) pending v = elim (Bool-cases (n == length first)) [
  | inl e ↦ rw (e) (record {
    bytes = next_started q ∙ sym (append-nil (flatten q));
    is_writer = record {
      buffers = v.buffers.1;
      count = omega (arith, length-append first (flatten q), v.count);
    };
    starts = starts_next q v.buffers.1;
  })
  | inr e ↦ rw (e) (record { bytes = sym (append-nil (flatten q)); is_writer = v; starts = tt })
]

pub nothing_started : (w : Writer) → IsWriter w → Moves w [] (record { writer = w; started = [] })
nothing_started w v = record {
  bytes = sym (append-nil (waiting w.queue));
  is_writer = v;
  starts = tt;
}

flatten-append : (xs ys : List (List ℕ)) → flatten (xs ++ ys) ≡ flatten xs ++ flatten ys
flatten-append [] ys = refl
flatten-append (x ∷ xs) ys =
    ap (λ t. x ++ t) (flatten-append xs ys) ∙ sym (append_assoc x (flatten xs) (flatten ys))

All-append : (xs ys : List (List ℕ)) → All IsBuffer xs → All IsBuffer ys → All IsBuffer (xs ++ ys)
All-append [] ys h k = k
All-append (x ∷ xs) ys h k = (h.0, All-append xs ys h.1 k)

pub also-Moves :
    (w : Writer) (xs ys : List ℕ) (now later : Written)
    → Moves w xs now
    → Moves now.writer ys later
    → Moves w (xs ++ ys) (record { writer = later.writer; started = now.started ++ later.started })
also-Moves w xs ys now later f g = record {
  bytes = ground (
    arith,
    flatten-append now.started later.started,
    append_assoc (flatten now.started) (flatten later.started) (waiting later.writer.queue),
    append_assoc (flatten now.started) (waiting now.writer.queue) ys,
    append_assoc (waiting w.queue) xs ys,
    f.bytes,
    g.bytes,
  );
  is_writer = g.is_writer;
  starts = All-append now.started later.started f.starts g.starts;
}

pub write_chunks-Moves :
    (cs : List (List ℕ)) (w : Writer)
    → All (λ c. length c ≤ buffer_size) cs
    → IsWriter w
    → Moves w (flatten cs) (write_chunks cs w)
unfolding write_chunks
write_chunks-Moves [] w h v = nothing_started w v
write_chunks-Moves (c ∷ cs) w h v =
    let now = write-Moves c w.queue w.pending h.0 v in
    also-Moves w c (flatten cs) (write c w) (write_chunks cs (write c w).writer) now
      (write_chunks-Moves cs (write c w).writer h.1 now.is_writer)

take-drop : (n : ℕ) (xs : List ℕ) → take n xs ++ drop n xs ≡ xs
take-drop zero xs = refl
take-drop (suc n) [] = refl
take-drop (suc n) (x ∷ xs) = ap (λ t. x ∷ t) (take-drop n xs)

pub chunks_lem :
    (fuel : ℕ) (buf : List ℕ)
    → length buf ≤ fuel
    → (flatten (chunks fuel buf) ≡ buf) × All (λ c. length c ≤ buffer_size) (chunks fuel buf)
unfolding chunks
chunks_lem zero [] h = (refl, tt)
chunks_lem zero (b ∷ bs) h = absurd (omega arith)
chunks_lem (suc fuel) [] h = (refl, tt)
chunks_lem (suc fuel) (b ∷ bs) h =
    let rest = drop buffer_size (b ∷ bs) in
    let more = chunks_lem fuel rest (omega (arith, length-drop buffer_size (b ∷ bs))) in
    (
      ap (λ t. take buffer_size (b ∷ bs) ++ t) more.0 ∙ take-drop buffer_size (b ∷ bs),
      (omega (arith, length-take buffer_size (b ∷ bs)), more.1),
    )
