-- ===== src/Sockets/Buffers/Reading.antt =====
-- A read does not touch the bytes of the packets that were posted.
use game_login.Base.{
  ℕ, ◌-◌, ◌≡◌, ◌≢◌, refl, sym, subst, ◌∙◌, ◌==◌, if◌then◌else◌, arith, take, drop, length, inl, inr,
  ◌⊎◌, Bool-cases,
}
use game_login.Sockets.Buffers.{alloc_buffer, Reader, read}
use game_login.Sockets.Buffers.Free.{
  IsPool, IsHeld, alloc_buffer-IsFresh, release_buffer-IsPool, release_buffer_others, pooled,
}

-- What a read comes to.
pub record IsRead (left : ℕ) (r after : Reader) : Type 0 where
  pub bytes :
      (b : ℕ)
      → after.memory b ≡ (
          if after.read_buf == b
          then drop (length (r.memory r.read_buf) - left) (r.memory r.read_buf)
          else if r.read_buf == b
          then take (length (r.memory r.read_buf) - left) (r.memory r.read_buf)
          else r.memory b)
  pub is_pool : IsPool after.pool
  pub held : IsHeld after.pool after.read_buf
  pub one_ref : after.pool.ref after.read_buf ≡ 1
  pub shared : (r.pool.ref r.read_buf ≡ 1) ⊎ (after.read_buf ≢ r.read_buf)

-- In a sound pool, when the socket holds its read buffer, `Read` moves the last `left` bytes to the front
-- of a buffer that the socket alone has, and keeps the pool sound. If posted packets have references
-- to the old buffer, it is another one, and the old one keeps the bytes in front of them; and no other buffer has its bytes
-- changed.
pub read-IsRead :
    (left : ℕ) (r : Reader) → IsPool r.pool → IsHeld r.pool r.read_buf → IsRead left r (read left r)
unfolding read
read-IsRead left r v held =
    let old = r.read_buf in
    let bytes = drop (length (r.memory old) - left) (r.memory old) in
    let fresh = alloc_buffer r.pool in
    let new = alloc_buffer-IsFresh r.pool v in
    let differ : fresh.0 ≢ old = λ e. new.was_free (subst (IsHeld r.pool) (sym e) held) in
    let old_kept : pooled old fresh.1.slots ≡ pooled old r.pool.slots =
      ground (arith, new.others old, differ) in
    let old_held : IsHeld fresh.1 old = (omega (arith, held.0, new.grows), old_kept ∙ held.1) in
    let kept = release_buffer_others fresh.1 old fresh.0 new.is_pool old_held differ in
    elim (Bool-cases (r.pool.ref old == 1)) [
      | inl e ↦ rw (e) (record {
        bytes = λ b. ground arith;
        is_pool = v;
        held = held;
        one_ref = ground (arith, e);
        shared = inl (ground (arith, e));
      })
      | inr e ↦ rw (e) (record {
        bytes = λ b. refl;
        is_pool = release_buffer-IsPool fresh.1 old new.is_pool old_held;
        held = (omega (arith, kept.2, new.now_held.0), kept.1 ∙ new.now_held.1);
        one_ref = kept.0 ∙ new.one_ref;
        shared = inr differ;
      })
    ]
