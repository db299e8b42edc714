-- ===== src/Sockets/Buffers/Free.antt =====
-- No buffer is handed out twice.
use game_login.Base.{
  ℕ, zero, suc, ◌+◌, ◌-◌, ◌%◌, ◌^◌, ◌≤◌, ◌<◌, ◌≡◌, ◌≢◌, refl, ap, ◌∙◌, List, [], ◌∷◌, ◌==◌,
  if◌then◌else◌, arith, get_or, set, length, length-set, inl, inr, Bool-cases,
}
use game_login.Sockets.Buffers.{
  Pool, empty_pool, put, take_buffer, alloc_buffer, free_buffer, add_ref, release_buffer,
}

-- How often a buffer stands in the free lists.
abbrev pub times : ℕ → List ℕ → ℕ
times b [] = 0
times b (c ∷ cs) = (if c == b then 1 else 0) + times b cs

abbrev pub pooled : ℕ → List (List ℕ) → ℕ
pooled b [] = 0
pooled b (bs ∷ slots) = times b bs + pooled b slots

pub record IsPool (p : Pool) : Type 0 where
  pub sixteen : length p.slots ≡ 16
  pub once : (b : ℕ) → pooled b p.slots ≤ 1
  pub made_all : (b : ℕ) → p.made ≤ b → pooled b p.slots ≡ 0

-- A buffer that is in use: made, and in no free list.
abbrev pub IsHeld : Pool → ℕ → Type 0
IsHeld p b = (b < p.made) × (pooled b p.slots ≡ 0)

pooled-set :
    (b : ℕ) (slots : List (List ℕ)) (i : ℕ) (bs : List ℕ)
    → i < length slots
    → pooled b (set slots i bs) + times b (get_or slots i []) ≡ pooled b slots + times b bs
pooled-set b [] i bs h = absurd (omega arith)
pooled-set b (cs ∷ slots) zero bs h = omega arith
pooled-set b (cs ∷ slots) (suc i) bs h = omega (arith, pooled-set b slots i bs (omega arith))

-- The calls of the program; a buffer is only used by who holds it.
pub data Call : Type 0 where
  alloc_call : Call
  add_ref_call : ℕ → Call
  release_call : ℕ → Call
  free_call : ℕ → Call

abbrev pub IsCall : Pool → Call → Type 0
IsCall p alloc_call = Unit
IsCall p (add_ref_call b) = IsHeld p b
IsCall p (release_call b) = IsHeld p b
IsCall p (free_call b) = IsHeld p b

unfoldable pub step : Call → Pool → Pool
step alloc_call p = (alloc_buffer p).1
step (add_ref_call b) p = add_ref b p
step (release_call b) p = release_buffer b p
step (free_call b) p = free_buffer b p

-- The states that such calls bring the pool to.
pub data Reached : Pool → Type 0 where
  start : Reached empty_pool
  call : {p : Pool} (c : Call) → Reached p → IsCall p c → Reached (step c p)

-- What `Alloc` does right.
pub record IsFresh (p : Pool) (b : ℕ) (after : Pool) : Type 0 where
  pub is_pool : IsPool after
  pub was_free : ¬ IsHeld p b
  pub now_held : IsHeld after b
  pub one_ref : after.ref b ≡ 1
  pub others :
      (c : ℕ)
      → (pooled c after.slots ≡ (if b == c then 0 else pooled c p.slots))
        × (after.ref c ≡ (if b == c then 1 else p.ref c))
  pub grows : p.made ≤ after.made

take_buffer-IsFresh :
    (p : Pool) (next slot : ℕ) (bs : List ℕ)
    → IsPool p
    → slot < 16
    → get_or p.slots slot [] ≡ bs
    → IsFresh p (take_buffer p next slot bs).0 (take_buffer p next slot bs).1
unfolding take_buffer
take_buffer-IsFresh p next slot [] v h e = record {
  is_pool = record {
    sixteen = v.sixteen;
    once = v.once;
    made_all = λ b k. v.made_all b (omega arith);
  };
  was_free = λ held. absurd (omega (arith, held.0));
  now_held = (omega arith, v.made_all p.made (omega arith));
  one_ref = ground arith;
  others = λ c. (ground (arith, v.made_all c), refl);
  grows = omega arith;
}
take_buffer-IsFresh p next slot (b ∷ bs) v h e =
    let count = λ (c : ℕ). pooled-set c p.slots slot bs (omega (arith, v.sixteen)) in
    record {
      is_pool = record {
        sixteen = length-set p.slots slot bs ∙ v.sixteen;
        once = λ c. ground (arith, count c, v.once c, e);
        made_all = λ c k. ground (arith, count c, v.made_all c k, e);
      };
      was_free = λ held. absurd (ground (arith, count b, e, held.1));
      now_held = (ground (arith, count b, e, v.made_all b), ground (arith, count b, e, v.once b));
      one_ref = ground arith;
      others = λ c. (ground (arith, count c, e, v.once c), refl);
      grows = omega arith;
    }

-- `Free` of a buffer in use puts it, and nothing else, back.
pub record IsFreed (p : Pool) (b : ℕ) (after : Pool) : Type 0 where
  pub is_pool : IsPool after
  pub others : (c : ℕ) → c ≢ b → pooled c after.slots ≡ pooled c p.slots
  pub same_made : after.made ≡ p.made
  pub same_ref : after.ref ≡ p.ref

free_buffer-IsFreed : (p : Pool) (b : ℕ) → IsPool p → IsHeld p b → IsFreed p b (free_buffer b p)
unfolding free_buffer
free_buffer-IsFreed p b v held =
    let slot = (p.free + (2 ^ 32 - 1)) % 2 ^ 32 % 16 in
    let bs = get_or p.slots slot [] in
    let count = λ (c : ℕ). pooled-set c p.slots slot (b ∷ bs) (omega (arith, v.sixteen)) in
    record {
      is_pool = record {
        sixteen = length-set p.slots slot (b ∷ bs) ∙ v.sixteen;
        once = λ c. ground (arith, count c, v.once c, held.1);
        made_all = λ c k. ground (arith, count c, v.made_all c k, held.0);
      };
      others = λ c k. ground (arith, count c, k);
      same_made = refl;
      same_ref = refl;
    }

pub alloc_buffer-IsFresh : (p : Pool) → IsPool p → IsFresh p (alloc_buffer p).0 (alloc_buffer p).1
unfolding alloc_buffer
alloc_buffer-IsFresh p v = take_buffer-IsFresh p ((p.alloc + 1) % 2 ^ 32) _ _ v (omega arith) refl

pub release_buffer-IsPool : (p : Pool) (b : ℕ) → IsPool p → IsHeld p b → IsPool (release_buffer b p)
unfolding release_buffer
release_buffer-IsPool p b v held =
    let left = (p.ref b + (2 ^ 32 - 1)) % 2 ^ 32 in
    let after = record p { ref = put p.ref b left } in
    let same : IsPool after = record {
      sixteen = v.sixteen;
      once = v.once;
      made_all = v.made_all;
    } in
    elim (Bool-cases (left == 0)) [
      | inl e ↦ rw (e) (free_buffer-IsFreed after b same held).is_pool
      | inr e ↦ rw (e) same
    ]

-- The buffers that are not released stay as they are.
pub release_buffer_others :
    (p : Pool) (b c : ℕ)
    → IsPool p
    → IsHeld p b
    → c ≢ b
    → let after = release_buffer b p in
      (after.ref c ≡ p.ref c) × (pooled c after.slots ≡ pooled c p.slots) × (after.made ≡ p.made)
unfolding release_buffer
release_buffer_others p b c v held k =
    let left = (p.ref b + (2 ^ 32 - 1)) % 2 ^ 32 in
    let after = record p { ref = put p.ref b left } in
    let same : IsPool after = record {
      sixteen = v.sixteen;
      once = v.once;
      made_all = v.made_all;
    } in
    let freed = free_buffer-IsFreed after b same held in
    let ref_c : put p.ref b left c ≡ p.ref c = ground (arith, k) in
    elim (Bool-cases (left == 0)) [
      | inl e ↦
          rw (e) (ap (λ (f : ℕ → ℕ). f c) freed.same_ref ∙ ref_c, freed.others c k, freed.same_made)
      | inr e ↦ rw (e) (ref_c, refl, refl)
    ]

step-IsPool : (c : Call) (p : Pool) → IsPool p → IsCall p c → IsPool (step c p)
unfolding step add_ref
step-IsPool alloc_call p v h = (alloc_buffer-IsFresh p v).is_pool
step-IsPool (add_ref_call b) p v h = record {
  sixteen = v.sixteen;
  once = v.once;
  made_all = v.made_all;
}
step-IsPool (release_call b) p v h = release_buffer-IsPool p b v h
step-IsPool (free_call b) p v h = (free_buffer-IsFreed p b v h).is_pool

empty_pool-IsPool : IsPool empty_pool
unfolding empty_pool
empty_pool-IsPool = record { sixteen = refl; once = λ b. omega arith; made_all = λ b k. refl }

pub Reached-IsPool : (p : Pool) → Reached p → IsPool p
Reached-IsPool p start = empty_pool-IsPool
Reached-IsPool p (call c r h) = step-IsPool c _ (Reached-IsPool _ r) h
