-- ===== src/Wire/Framing/Segments.antt =====
-- How the network cuts a byte stream up does not matter.
use game_login.Base.{
  ℕ, zero, suc, ◌+◌, ◌-◌, ◌≤◌, ◌<◌, ◌≡◌, refl, ap, ◌∙◌, true, false, ◌&&◌, List, [], ◌∷◌, ◌++◌,
  append-nil, append_assoc, ltb, leb, ◌≢◌, arith, length, drop, take, length-drop, length-append,
  All,
}
use game_login.Wire.Framing.{
  Protocol, Mode, read_len, read_body, closed, Result, stop, wait, loop, on_read, on_read_callback,
  buffer_size, length_field, post,
}
use game_login.Wire.Framing.Progress.{IsMode, loop_fuel}

-- What follows a call: its packets, then those that the next bytes bring.
abbrev pub also : List (List ℕ) → Result → Result
also posted r = record r { posted = posted ++ r.posted }

pub resume : Protocol → Result → List ℕ → Result
resume p r more = also r.posted (on_read p r.mode (r.left ++ more))

pub drop-append : (n : ℕ) (xs ys : List ℕ) → n ≤ length xs → drop n (xs ++ ys) ≡ drop n xs ++ ys
drop-append zero xs ys h = refl
drop-append (suc n) [] ys h = absurd (omega arith)
drop-append (suc n) (x ∷ xs) ys h = drop-append n xs ys (omega arith)

pub take-append : (n : ℕ) (xs ys : List ℕ) → n ≤ length xs → take n (xs ++ ys) ≡ take n xs
take-append zero xs ys h = refl
take-append (suc n) [] ys h = absurd (omega arith)
take-append (suc n) (x ∷ xs) ys h = ap (λ t. x ∷ t) (take-append n xs ys (omega arith))

length_field-append : (xs ys : List ℕ) → 2 ≤ length xs → length_field (xs ++ ys) ≡ length_field xs
unfolding length_field
length_field-append [] ys h = absurd (omega arith)
length_field-append (a ∷ []) ys h = absurd (omega arith)
length_field-append (a ∷ b ∷ xs) ys h = refl

on_read_fuel :
    (p : Protocol) (n : ℕ) (mode : Mode) (buf : List ℕ)
    → IsMode mode
    → mode ≢ closed
    → length buf < n
    → on_read p mode buf ≡ loop p n mode buf
unfolding on_read
on_read_fuel p n closed buf v open_ h = absurd (open_ refl)
on_read_fuel p n read_len buf v open_ h = loop_fuel p _ n read_len buf v (omega arith) h
on_read_fuel p n (read_body len) buf v open_ h =
    loop_fuel p _ n (read_body len) buf v (omega arith) h

-- One round, in terms of the whole method.
pub step_len :
    (p : Protocol) (b : ℕ) (bs : List ℕ)
    → let rest = b ∷ bs in
      let total = length_field rest + p.extra in
      on_read p read_len rest ≡ (elim (leb p.need (length rest)) as (λ _. Result) [
        | false ↦ wait read_len rest
        | true ↦ elim (ltb p.less total && leb (total - p.less) buffer_size) as (λ _. Result) [
          | false ↦ stop
          | true ↦ on_read p (read_body (total - p.less)) (drop 2 rest)
        ]
      ])
unfolding loop
step_len p b bs =
    let total = length_field (b ∷ bs) + p.extra in
    ground (
      arith,
      on_read_fuel p (suc (suc (length bs))) read_len (b ∷ bs) tt (λ e. cc) (omega arith),
      length-drop 2 (b ∷ bs),
      on_read_fuel p (suc (length bs)) (read_body (total - p.less)) (drop 2 (b ∷ bs)),
    )

pub step_body :
    (p : Protocol) (len b : ℕ) (bs : List ℕ)
    → IsMode (read_body len)
    → let rest = b ∷ bs in
      on_read p (read_body len) rest ≡ (elim (leb len (length rest)) as (λ _. Result) [
        | false ↦ wait (read_body len) rest
        | true ↦ elim (ltb b p.max_kind) as (λ _. Result) [
          | false ↦ stop
          | true ↦ post (take len rest) (on_read p read_len (drop len rest))
        ]
      ])
unfolding loop
step_body p len b bs v = ground (
  arith,
  on_read_fuel p (suc (suc (length bs))) (read_body len) (b ∷ bs) v (λ e. cc) (omega arith),
  length-drop len (b ∷ bs),
  on_read_fuel p (suc (length bs)) read_len (drop len (b ∷ bs)) tt (λ e. cc),
)

resume-stop : (p : Protocol) (ys : List ℕ) → resume p stop ys ≡ stop
unfolding resume on_read
resume-stop p ys = refl

resume-wait :
    (p : Protocol) (mode : Mode) (xs ys : List ℕ)
    → resume p (wait mode xs) ys ≡ on_read p mode (xs ++ ys)
unfolding resume
resume-wait p mode xs ys = refl

resume-post :
    (p : Protocol) (packet : List ℕ) (r : Result) (ys : List ℕ)
    → resume p (post packet r) ys ≡ post packet (resume p r ys)
unfolding resume
resume-post p packet r ys = refl

module _ (p : Protocol) (two : 2 ≤ p.need) where
  on_read_split :
      (n : ℕ) (mode : Mode) (xs ys : List ℕ)
      → IsMode mode
      → length xs < n
      → on_read p mode (xs ++ ys) ≡ resume p (on_read p mode xs) ys
  on_read_split zero mode xs ys v h = absurd (omega arith)
  on_read_split (suc n) closed xs ys v h = unfold on_read resume in refl
  on_read_split (suc n) read_len [] ys v h = unfold on_read resume loop in refl
  on_read_split (suc n) (read_body len) [] ys v h = unfold on_read resume loop in refl
  on_read_split (suc n) read_len (b ∷ bs) ys v h =
      let total = length_field (b ∷ bs) + p.extra in
      ground (
        arith,
        step_len p b bs,
        step_len p b (bs ++ ys),
        length-append bs ys,
        length-drop 2 (b ∷ bs),
        length_field-append (b ∷ bs) ys,
        drop-append 2 (b ∷ bs) ys,
        resume-stop p ys,
        resume-wait p read_len (b ∷ bs) ys,
        on_read_split n (read_body (total - p.less)) (drop 2 (b ∷ bs)) ys,
      )
  on_read_split (suc n) (read_body len) (b ∷ bs) ys v h = ground (
    arith,
    step_body p len b bs v,
    step_body p len b (bs ++ ys) v,
    length-append bs ys,
    length-drop len (b ∷ bs),
    take-append len (b ∷ bs) ys,
    drop-append len (b ∷ bs) ys,
    resume-stop p ys,
    resume-wait p (read_body len) (b ∷ bs) ys,
    resume-post p (take len (b ∷ bs)) (on_read p read_len (drop len (b ∷ bs))) ys,
    on_read_split n read_len (drop len (b ∷ bs)) ys tt,
  )

-- The bytes of a connection as they come in, one `OnReadCallback` for each segment.
pub receive : Protocol → Result → List (List ℕ) → Result
receive p r [] = r
receive p r (s ∷ ss) = receive p (also r.posted (on_read_callback p r.mode r.left s)) ss

abbrev pub flatten : List (List ℕ) → List ℕ
flatten [] = []
flatten (s ∷ ss) = s ++ flatten ss

module _ (p : Protocol) (two : 2 ≤ p.need) where
  callback_resume :
      (r : Result) (s : List ℕ)
      → 0 < length s
      → also r.posted (on_read_callback p r.mode r.left s) ≡ resume p r s
  unfolding resume on_read_callback
  callback_resume r [] h = absurd (omega arith)
  callback_resume r (b ∷ bs) h = refl

  receive_from :
      (seen : List ℕ) (ss : List (List ℕ))
      → All (λ s. 0 < length s) ss
      → receive p (on_read p read_len seen) ss ≡ on_read p read_len (seen ++ flatten ss)
  unfolding receive
  receive_from seen [] h = rw append-nil
  receive_from seen (s ∷ ss) h = rw (
    callback_resume (on_read p read_len seen) s h.0,
    ← on_read_split p two (suc (length seen)) read_len seen s tt (omega arith),
    receive_from (seen ++ s) ss h.1,
    append_assoc,
  )

  -- However a stream of bytes is cut into segments, none of them empty, a new socket of a protocol
  -- that needs two bytes or more to read a length posts the same packets, ends in the same mode and
  -- keeps the same bytes as if the stream came in one piece.
  pub receive-flatten :
      (ss : List (List ℕ))
      → All (λ s. 0 < length s) ss
      → receive p (wait read_len []) ss ≡ on_read p read_len (flatten ss)
  receive-flatten ss h = start ∙ receive_from [] ss h
    where
      start : receive p (wait read_len []) ss ≡ receive p (on_read p read_len []) ss
      start = unfold on_read loop in refl
