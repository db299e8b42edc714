-- ===== src/Wire/Framing/Progress.antt =====
-- The loop ends by its own tests, and a socket that waits has room in its buffer for the next bytes.
use game_login.Base.{
  ℕ, zero, suc, ◌+◌, ◌-◌, ◌≤◌, ◌<◌, ◌≡◌, refl, List, [], ◌∷◌, ◌++◌, arith, length, drop,
  length-drop, take, length-take, get_or, All,
}
use game_login.Wire.Framing.{
  Protocol, Mode, read_len, read_body, closed, Result, loop, on_read, on_read_callback, buffer_size,
  length_field,
}

-- A length that was read, and checked.
abbrev pub IsMode : Mode → Type 0
IsMode closed = Unit
IsMode read_len = Unit
IsMode (read_body len) = (0 < len) × (len ≤ buffer_size)

-- With fuel above the bytes left, more fuel changes nothing.
pub loop_fuel :
    (p : Protocol) (m n : ℕ) (mode : Mode) (rest : List ℕ)
    → IsMode mode
    → length rest < m
    → length rest < n
    → loop p m mode rest ≡ loop p n mode rest
unfolding loop
loop_fuel p zero n mode rest v h k = absurd (omega arith)
loop_fuel p (suc m) zero mode rest v h k = absurd (omega arith)
loop_fuel p (suc m) (suc n) closed [] v h k = refl
loop_fuel p (suc m) (suc n) read_len [] v h k = refl
loop_fuel p (suc m) (suc n) (read_body len) [] v h k = refl
loop_fuel p (suc m) (suc n) closed (b ∷ bs) v h k = refl
loop_fuel p (suc m) (suc n) read_len (b ∷ bs) v h k =
    let total = length_field (b ∷ bs) + p.extra in
    ground (
      arith,
      length-drop 2 (b ∷ bs),
      loop_fuel p m n (read_body (total - p.less)) (drop 2 (b ∷ bs)),
    )
loop_fuel p (suc m) (suc n) (read_body len) (b ∷ bs) v h k =
    ground (arith, length-drop len (b ∷ bs), loop_fuel p m n read_len (drop len (b ∷ bs)) tt)

-- A socket that waits has fewer bytes than it needs to go on.
abbrev pub Short : Protocol → Mode → List ℕ → Type 0
Short p closed left = length left ≡ 0
Short p read_len left = length left < p.need
Short p (read_body len) left = length left < len

-- A packet that is posted: its first byte is an index into the table of handlers.
abbrev pub IsPacket : Protocol → List ℕ → Type 0
IsPacket p packet =
    (0 < length packet) × (length packet ≤ buffer_size) × (get_or packet 0 0 < p.max_kind)

pub record IsServed (p : Protocol) (r : Result) : Type 0 where
  pub is_mode : IsMode r.mode
  pub short : Short p r.mode r.left
  pub packets : All (IsPacket p) r.posted

take-IsPacket :
    (p : Protocol) (len b : ℕ) (bs : List ℕ)
    → 0 < len
    → len ≤ buffer_size
    → len ≤ length (b ∷ bs)
    → b < p.max_kind
    → IsPacket p (take len (b ∷ bs))
take-IsPacket p zero b bs h k fits low = absurd (omega arith)
take-IsPacket p (suc len) b bs h k fits low = (omega arith, omega (arith, length-take len bs), low)

loop-IsServed :
    (p : Protocol) (fuel : ℕ) (mode : Mode) (rest : List ℕ)
    → 0 < p.need
    → IsMode mode
    → length rest < fuel
    → IsServed p (loop p fuel mode rest)
unfolding loop
loop-IsServed p zero mode rest pos v h = absurd (omega arith)
loop-IsServed p (suc fuel) closed [] pos v h = record { is_mode = tt; short = refl; packets = tt }
loop-IsServed p (suc fuel) read_len [] pos v h = record { is_mode = tt; short = pos; packets = tt }
loop-IsServed p (suc fuel) (read_body len) [] pos v h = record {
  is_mode = v;
  short = v.0;
  packets = tt;
}
loop-IsServed p (suc fuel) closed (b ∷ bs) pos v h = record {
  is_mode = tt;
  short = refl;
  packets = tt;
}
loop-IsServed p (suc fuel) read_len (b ∷ bs) pos v h =
    let total = length_field (b ∷ bs) + p.extra in
    ground (
      arith,
      length-drop 2 (b ∷ bs),
      loop-IsServed p fuel (read_body (total - p.less)) (drop 2 (b ∷ bs)) pos,
    )
loop-IsServed p (suc fuel) (read_body len) (b ∷ bs) pos v h = ground (
  arith,
  length-drop len (b ∷ bs),
  loop-IsServed p fuel read_len (drop len (b ∷ bs)) pos tt,
  take-IsPacket p len b bs,
)

on_read-IsServed :
    (p : Protocol) (mode : Mode) (buf : List ℕ)
    → 0 < p.need
    → IsMode mode
    → IsServed p (on_read p mode buf)
unfolding on_read
on_read-IsServed p closed buf pos v = record { is_mode = tt; short = refl; packets = tt }
on_read-IsServed p read_len buf pos v =
    loop-IsServed p (length buf + 1) read_len buf pos v (omega arith)
on_read-IsServed p (read_body len) buf pos v =
    loop-IsServed p (length buf + 1) (read_body len) buf pos v (omega arith)

room_left :
    (p : Protocol) (mode : Mode) (left : List ℕ)
    → p.need ≤ buffer_size
    → IsMode mode
    → Short p mode left
    → length left < buffer_size
room_left p closed left fits v h = omega arith
room_left p read_len left fits v h = omega arith
room_left p (read_body len) left fits v h = omega arith

-- Whatever bytes arrive at a socket whose mode is sound, when its protocol needs at least one byte
-- and no more than the buffer holds to read a length, `OnReadCallback` ends with a sound mode and
-- too few bytes left for another round, so the receive that follows has room in the buffer; and
-- each packet that it posts is not empty, fits a buffer, and begins with an index of the handler
-- table.
pub on_read_callback-IsServed :
    (p : Protocol) (mode : Mode) (left received : List ℕ)
    → 0 < p.need
    → p.need ≤ buffer_size
    → IsMode mode
    → let r = on_read_callback p mode left received in IsServed p r × (length r.left < buffer_size)
unfolding on_read_callback
on_read_callback-IsServed p mode left [] pos fits v =
    (record { is_mode = tt; short = refl; packets = tt }, omega arith)
on_read_callback-IsServed p mode left (b ∷ bs) pos fits v =
    let served = on_read-IsServed p mode (left ++ (b ∷ bs)) pos v in
    let r = on_read p mode (left ++ (b ∷ bs)) in
    (served, room_left p r.mode r.left fits served.is_mode served.short)
