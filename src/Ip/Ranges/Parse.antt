-- ===== src/Ip/Ranges/Parse.antt =====
-- `CIPList::Load` of src/AuthServer/IPList.cpp: the lines of the file, each parsed by `strtol` of a
-- compiler whose `long` has 32 bits, and the table that they make.
use game_login.Base.{
  ℕ, ◌+◌, ◌-◌, ◌*◌, ◌%◌, ◌^◌, Bool, true, false, ◌&&◌, ◌||◌, List, [], ◌∷◌, Option, none, some, ltb,
  leb, ◌==◌, if◌then◌else◌, length, ◌<◌, ◌≡◌, arith, Option-cases, inl, inr,
}
use game_login.Ip.Ranges.{IpRecord, dotted, add_record}

infixl 5 ◌>>=◌
abbrev ◌>>=◌ {ℓ κ} : {A : Type ℓ} {B : Type κ} → Option A → (A → Option B) → Option B
none >>= k = none
some a >>= k = k a

abbrev is_space : ℕ → Bool
is_space c = c == b' ' || (leb 9 c && leb c 13)

abbrev pub is_digit : ℕ → Bool
is_digit c = leb b'0' c && leb c b'9'

abbrev skip_while : (ℕ → Bool) → List ℕ → List ℕ
skip_while p [] = []
skip_while p (c ∷ cs) = if p c then skip_while p cs else c ∷ cs

-- The digits from `ptr` on, after the number read so far.
abbrev pub digits_value : ℕ → List ℕ → ℕ × List ℕ
digits_value acc [] = (acc, [])
digits_value acc (c ∷ cs) =
    if is_digit c then digits_value (acc * 10 + (c - b'0')) cs else (acc, c ∷ cs)

abbrev starts_number : List ℕ → Bool
starts_number [] = false
starts_number (c ∷ cs) = is_digit c

-- A `long`, cut off at its bounds, as the `unsigned` that it is assigned to.
abbrev signed_value : Bool → ℕ → ℕ
signed_value true v = (2 ^ 32 - (if ltb (2 ^ 31) v then 2 ^ 31 else v)) % 2 ^ 32
signed_value false v = if ltb (2 ^ 31 - 1) v then 2 ^ 31 - 1 else v

abbrev sign : List ℕ → Bool × List ℕ
sign [] = (false, [])
sign (c ∷ cs) = if c == b'-' then (true, cs) else if c == b'+' then (false, cs) else (false, c ∷ cs)

-- `strtol(ptr, &ptr, 10)`; with no digit the pointer stays.
unfoldable pub strtol : List ℕ → ℕ × List ℕ
strtol ptr =
    let (negative, rest) = sign (skip_while is_space ptr) in
    if starts_number rest
    then (let (v, after) = digits_value 0 rest in (signed_value negative v, after))
    else (0, ptr)

-- `if (*ptr != '.') continue; ptr++`.
abbrev past_dot : List ℕ → Option (List ℕ)
past_dot [] = none
past_dot (c ∷ cs) = if c == b'.' then some cs else none

pub record Dotted : Type 0 where
  pub c1 : ℕ
  pub c2 : ℕ
  pub c3 : ℕ
  pub c4 : ℕ
  pub rest : List ℕ

unfoldable pub parse_dotted : List ℕ → Option Dotted
parse_dotted ptr = do
  let first = strtol ptr
  ptr ← past_dot first.1
  let second = strtol ptr
  ptr ← past_dot second.1
  let third = strtol ptr
  ptr ← past_dot third.1
  let fourth = strtol ptr
  some (record { c1 = first.0; c2 = second.0; c3 = third.0; c4 = fourth.0; rest = fourth.1 })

abbrev address : Dotted → ℕ
address d = dotted d.c1 d.c2 d.c3 d.c4

abbrev is_blank : ℕ → Bool
is_blank c = c == b' ' || c == 9

-- The end of a line that names one address: zero last bytes stand for whole networks.
unfoldable pub default_end : Dotted → ℕ
default_end d =
    if d.c4 == 0
    then (if d.c3 == 0 then (address d + 0x10000) % 2 ^ 32 else (address d + 0x100) % 2 ^ 32)
    else (address d + 1) % 2 ^ 32

default_end-lt : (d : Dotted) → default_end d < 2 ^ 32
unfolding default_end
default_end-lt d = ground arith

-- The end of a line, from its first address and what follows that.
unfoldable pub parse_end : Dotted → List ℕ → Option ℕ
parse_end d [] = some (default_end d)
parse_end d (c ∷ cs) = elim (c == b'-') [
  | true ↦ do last ← parse_dotted (skip_while is_blank cs); some ((address last + 1) % 2 ^ 32)
  | false ↦ some (default_end d)
]

parse_end-lt : (d : Dotted) (ptr : List ℕ) (last : ℕ) → parse_end d ptr ≡ some last → last < 2 ^ 32
unfolding parse_end
parse_end-lt d [] last e = ground (arith, default_end-lt d)
parse_end-lt d (c ∷ cs) last e = ground (arith, default_end-lt d)

-- A line of the file; `none` is a line that is ignored.
unfoldable pub parse_line : List ℕ → Option IpRecord
parse_line buf = do
  first ← parse_dotted buf
  last ← parse_end first (skip_while is_blank first.rest)
  some (record { begin = address first; end = last })

pub parse_line-lt : (buf : List ℕ) (new : IpRecord) → parse_line buf ≡ some new → new.end < 2 ^ 32
unfolding parse_line
parse_line-lt buf new e = elim (Option-cases (parse_dotted buf)) [
  | inl p ↦ cc
  | inr (d, p) ↦ elim (Option-cases (parse_end d (skip_while is_blank d.rest))) [
    | inl q ↦ cc
    | inr (last, q) ↦ ground (arith, parse_end-lt d (skip_while is_blank d.rest) last q)
  ]
]

-- What a line comes to: `getline` gives up at one that `buf[1024]` cannot hold, and a line that does
-- not parse or whose range is empty is passed over.
pub data LineRead : Type 0 where
  too_long : LineRead
  ignored : LineRead
  range : IpRecord → LineRead

unfoldable pub read_line : List ℕ → LineRead
read_line buf = if ltb 1023 (length buf) then too_long else elim (parse_line buf) [
  | none ↦ ignored
  | some new ↦ if leb (new.end) (new.begin) then ignored else range new
]

pub read_line-range :
    (buf : List ℕ) (new : IpRecord)
    → read_line buf ≡ range new
    → (new.begin < new.end) × (new.end < 2 ^ 32)
unfolding read_line
read_line-range buf new e = elim (Option-cases (parse_line buf)) [
  | inl p ↦ ground arith
  | inr (r, p) ↦ ground (arith, parse_line-lt buf r p)
]

-- The loop of `Load`.
unfoldable pub load_lines : List (List ℕ) → List IpRecord → List IpRecord
load_lines [] table = table
load_lines (buf ∷ bufs) table = elim (read_line buf) [
  | too_long ↦ table
  | ignored ↦ load_lines bufs table
  | range new ↦ load_lines bufs (add_record new table)
]

-- The lines of the file, `none` if it cannot be opened; the table and the answer.
unfoldable pub load : Option (List (List ℕ)) → List IpRecord → List IpRecord × Bool
load none table = (table, false)
load (some bufs) table = (load_lines bufs [], true)
