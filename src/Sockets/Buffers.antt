-- ===== src/Sockets/Buffers.antt =====
-- `CIOBuffer` and `CIOBufferPool` of src/AuthServer/IOBuffer.cpp and IOBuffer.h, and `CIOSocket::Read` of
-- IOSocket.cpp. A buffer is the number of its `new`; each call is one step, since a slot is changed under
-- its lock and the counters by interlocked operations.
pub mod Free
pub mod Reading
use game_login.Base.{
  ℕ, zero, suc, ◌+◌, ◌-◌, ◌%◌, ◌^◌, Bool, true, false, List, [], ◌∷◌, ◌==◌, if◌then◌else◌, get_or,
  set, take, drop, length, replicate,
}

-- The free lists of the sixteen slots, `m_alloc` and `m_free`, the number of buffers made, and the
-- `m_ref` of each buffer.
pub record Pool : Type 0 where
  pub slots : List (List ℕ)
  pub alloc : ℕ
  pub free : ℕ
  pub made : ℕ
  pub ref : ℕ → ℕ

unfoldable pub empty_pool : Pool
empty_pool = record {
  slots = replicate 16 [];
  alloc = 2 ^ 32 - 1;
  free = 0;
  made = 0;
  ref = λ b. 0;
}

abbrev pub put {ℓ} : {A : Type ℓ} → (ℕ → A) → ℕ → A → ℕ → A
put f b v c = if b == c then v else f c

-- What `Alloc` takes from the slot, with the count of buffers made.
unfoldable pub take_buffer : Pool → ℕ → ℕ → List ℕ → ℕ × Pool
take_buffer p next slot [] =
    (p.made, record p { alloc = next; made = p.made + 1; ref = put p.ref p.made 1 })
take_buffer p next slot (b ∷ bs) =
    (b, record p { slots = set p.slots slot bs; alloc = next; ref = put p.ref b 1 })

-- `CIOBuffer::Alloc`.
unfoldable pub alloc_buffer : Pool → ℕ × Pool
alloc_buffer p =
    let next = (p.alloc + 1) % 2 ^ 32 in
    let slot = next % 16 in take_buffer p next slot (get_or p.slots slot [])

-- `CIOBuffer::Free`.
unfoldable pub free_buffer : ℕ → Pool → Pool
free_buffer b p =
    let next = (p.free + (2 ^ 32 - 1)) % 2 ^ 32 in
    let slot = next % 16 in
    record p { slots = set p.slots slot (b ∷ get_or p.slots slot []); free = next }

unfoldable pub add_ref : ℕ → Pool → Pool
add_ref b p = record p { ref = put p.ref b ((p.ref b + 1) % 2 ^ 32) }

unfoldable pub release_buffer : ℕ → Pool → Pool
release_buffer b p =
    let left = (p.ref b + (2 ^ 32 - 1)) % 2 ^ 32 in
    let after = record p { ref = put p.ref b left } in
    if left == 0 then free_buffer b after else after

-- A socket with its pool: the bytes of each buffer up to its `m_size`, and `m_pReadBuf`.
pub record Reader : Type 0 where
  pub pool : Pool
  pub memory : ℕ → List ℕ
  pub read_buf : ℕ

-- `CIOSocket::Read` up to its `WSARecv`: the last `left` bytes go to the front of a buffer that no posted
-- packet has, and off the `m_size` of the old one.
pub read : ℕ → Reader → Reader
read left r =
    let old = r.read_buf in
    let front = length (r.memory old) - left in
    let bytes = drop front (r.memory old) in
    let fresh = alloc_buffer r.pool in
    if r.pool.ref old == 1 then record r { memory = put r.memory old bytes } else record {
      pool = release_buffer old fresh.1;
      memory = put (put r.memory old (take front (r.memory old))) fresh.0 bytes;
      read_buf = fresh.0;
    }
