-- ===== src/Sockets/Writes/Order.antt =====
-- The bytes leave in the order in which they were written.
use game_login.Base.{ℕ, ◌%◌, ◌^◌, ◌≤◌, ◌≡◌, subst, List, [], ◌∷◌, ◌++◌, arith, length, All}
use game_login.Wire.Framing.{buffer_size}
use game_login.Wire.Framing.Segments.{flatten}
use game_login.Sockets.Writes.{
  Writer, Written, write, on_write_callback, chunks, write_chunks, write_bytes, empty_writer,
}
use game_login.Sockets.Writes.Calls.{
  waiting, IsBuffer, IsWriter, Moves, write-Moves, on_write_callback-Moves, write_chunks-Moves,
  nothing_started, also-Moves, chunks_lem,
}

-- What happens to a socket: a buffer or an array is written, or the network reports a completed send.
pub data Event : Type 0 where
  buffer_event : List ℕ → Event
  bytes_event : List ℕ → Event
  done_event : ℕ → Event

unfoldable pub step : Event → Writer → Written
step (buffer_event buf) w = write buf w
step (bytes_event buf) w = write_bytes buf w
step (done_event n) w = on_write_callback n w

unfoldable pub run : List Event → Writer → Written
run [] w = record { writer = w; started = [] }
run (e ∷ es) w =
    let now = step e w in
    let later = run es now.writer in
    record { writer = later.writer; started = now.started ++ later.started }

-- The bytes that the events write.
pub event_bytes : Event → List ℕ
event_bytes (buffer_event buf) = buf
event_bytes (bytes_event buf) = buf
event_bytes (done_event n) = []

pub written : List Event → List ℕ
written [] = []
written (e ∷ es) = event_bytes e ++ written es

abbrev pub IsEvent : Event → Type 0
IsEvent (buffer_event buf) = length buf ≤ buffer_size
IsEvent (bytes_event buf) = Unit
IsEvent (done_event n) = Unit

step-Moves : (e : Event) (w : Writer) → IsEvent e → IsWriter w → Moves w (event_bytes e) (step e w)
unfolding step event_bytes write_bytes
step-Moves (buffer_event buf) w h v = write-Moves buf w.queue w.pending h v
step-Moves (bytes_event buf) w h v =
    let cut = chunks_lem (length buf) buf (omega arith) in
    let cs = chunks (length buf) buf in
    subst (λ t. Moves w t (write_chunks cs w)) cut.0 (write_chunks-Moves cs w cut.1 v)
step-Moves (done_event n) w h v = on_write_callback-Moves n w.queue w.pending v

run-Moves :
    (es : List Event) (w : Writer) → All IsEvent es → IsWriter w → Moves w (written es) (run es w)
unfolding run written
run-Moves [] w h v = nothing_started w v
run-Moves (e ∷ es) w h v =
    let now = step-Moves e w h.0 v in
    let rest = run es (step e w).writer in
    also-Moves w (event_bytes e) (written es) (step e w) rest now
      (run-Moves es (step e w).writer h.1 now.is_writer)

-- Over any sequence of completions and of writes, of arrays or of buffers with at most 20480 bytes,
-- on a new socket, the buffers handed to `WSASend`, and then those that wait, make up the bytes
-- written, in their order, none lost and none twice; each send is of 1 to 20480 bytes; and
-- `PendingWrite` is the number of bytes in the list, modulo 2^32.
pub run-written :
    (es : List Event)
    → All IsEvent es
    → let r = run es empty_writer in
      (flatten r.started ++ waiting r.writer.queue ≡ written es)
      × All IsBuffer r.started
      × (r.writer.pending ≡ length (flatten r.writer.queue) % 2 ^ 32)
unfolding empty_writer
run-written es h =
    let start : IsWriter empty_writer = record { buffers = tt; count = omega arith } in
    let moves = run-Moves es empty_writer h start in
    (moves.bytes, moves.starts, moves.is_writer.count)
