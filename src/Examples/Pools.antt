-- ===== src/Examples/Pools.antt =====
-- The pool of buffers at concrete inputs.
use game_login.Base.{refl, [], ◌∷◌, arith}
use game_login.Sockets.Buffers.{Pool, empty_pool, alloc_buffer, take_buffer, add_ref, Reader, read}
use game_login.Sockets.Buffers.Free.{
  IsHeld, Reached, start, call, alloc_call, add_ref_call, step, Reached-IsPool,
}
use game_login.Sockets.Buffers.Reading.{IsRead, read-IsRead}

-- A buffer is taken, and a packet that is posted gets a reference to it.
abbrev one_taken : Pool
one_taken = step alloc_call empty_pool

abbrev shared : Pool
shared = step (add_ref_call 0) one_taken

first-IsHeld : IsHeld one_taken 0
unfolding step alloc_buffer take_buffer empty_pool
first-IsHeld = (omega arith, refl)

shared-IsHeld : IsHeld shared 0
unfolding step add_ref alloc_buffer take_buffer empty_pool
shared-IsHeld = (omega arith, refl)

shared-Reached : Reached shared
shared-Reached = call (add_ref_call 0) (call alloc_call start tt) first-IsHeld

abbrev reader : Reader
reader = record { pool = shared; memory = λ b. 1 ∷ 2 ∷ 3 ∷ []; read_buf = 0 }

read-IsRead_example : IsRead 1 reader (read 1 reader)
read-IsRead_example = read-IsRead 1 reader (Reached-IsPool shared shared-Reached) shared-IsHeld
