-- ===== src/Sockets/Writes.antt =====
-- `CIOSocket::Write` and `OnWriteCallback` of src/AuthServer/IOSocket.cpp: the list of buffers that wait
-- for the network. A call of `WSASend` on a buffer stands in the result. Where the call fails, the methods
-- leave the list and `m_nPendingWrite` as they are: they log, and give back the reference of the send,
-- which Sockets/Lifetime is about. Both methods change the list under the lock `m_cs`, so that a run of a
-- socket is a sequence of calls.
pub mod Calls
pub mod Order
pub mod Flight
use game_login.Base.{
  ℕ, zero, suc, ◌+◌, ◌-◌, ◌%◌, ◌^◌, Bool, true, false, List, [], ◌∷◌, ◌++◌, leb, ◌==◌,
  if◌then◌else◌, length, take, drop,
}
use game_login.Wire.Framing.{buffer_size}

-- The buffers from `m_pFirstBuf` to `m_pLastBuf`, and `m_nPendingWrite`, a `long`.
pub record Writer : Type 0 where
  pub queue : List (List ℕ)
  pub pending : ℕ

-- The socket after a call, and the buffers on which it calls `WSASend`, with success or without.
pub record Written : Type 0 where
  pub writer : Writer
  pub started : List (List ℕ)

abbrev pub add : ℕ → ℕ → ℕ
add pending size = (pending + size) % 2 ^ 32

abbrev pub sub : ℕ → ℕ → ℕ
sub pending size = (pending + (2 ^ 32 - size % 2 ^ 32)) % 2 ^ 32

-- A buffer behind the last: its bytes are moved into the last one if they fit there.
pub push_last : List ℕ → List ℕ → List (List ℕ) → List (List ℕ)
push_last buf last [] =
    if leb (length last + length buf) buffer_size then (last ++ buf) ∷ [] else last ∷ buf ∷ []
push_last buf last (b ∷ bs) = last ∷ push_last buf b bs

-- Only a last buffer that is not also the first takes more bytes.
pub enqueue : List ℕ → List (List ℕ) → List (List ℕ)
enqueue buf [] = buf ∷ []
enqueue buf (first ∷ []) = first ∷ buf ∷ []
enqueue buf (first ∷ b ∷ bs) = first ∷ push_last buf b bs

-- `Write(CIOBuffer *)`.
pub write : List ℕ → Writer → Written
write buf w =
    let next : Writer = record {
      queue = enqueue buf w.queue;
      pending = add w.pending (length buf);
    } in
    if length buf == 0
    then record { writer = w; started = [] }
    else record { writer = next; started = elim w.queue [ [] ↦ buf ∷ [] | _ ∷ _ ↦ [] ] }

-- `OnWriteCallback` with the count of bytes that the network took, called for a send that was started.
pub on_write_callback : ℕ → Writer → Written
on_write_callback transferred w = elim w.queue [
  | [] ↦ record { writer = w; started = [] }
  | first ∷ rest ↦
      if transferred == length first
      then record {
        writer = record { queue = rest; pending = sub w.pending (length first) };
        started = elim rest [ [] ↦ [] | next ∷ _ ↦ next ∷ [] ];
      }
      else record { writer = w; started = [] }
]

-- `Write(char *, DWORD)`: the buffers that it fills, on fuel of at least the bytes.
pub chunks : ℕ → List ℕ → List (List ℕ)
chunks zero buf = []
chunks (suc fuel) [] = []
chunks (suc fuel) (b ∷ bs) = take buffer_size (b ∷ bs) ∷ chunks fuel (drop buffer_size (b ∷ bs))

pub write_chunks : List (List ℕ) → Writer → Written
write_chunks [] w = record { writer = w; started = [] }
write_chunks (b ∷ bs) w =
    let now = write b w in
    let later = write_chunks bs now.writer in
    record { writer = later.writer; started = now.started ++ later.started }

pub write_bytes : List ℕ → Writer → Written
write_bytes buf w = write_chunks (chunks (length buf) buf) w

pub empty_writer : Writer
empty_writer = record { queue = []; pending = 0 }
