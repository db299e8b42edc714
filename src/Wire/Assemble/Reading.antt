-- ===== src/Wire/Assemble/Reading.antt =====
-- The readers give back what `Assemble` laid out, and a text never overruns its buffer.
use mathlib.Core.Option as Opt
use game_login.Base.{
  ℕ, suc, ◌+◌, ◌%◌, ◌^◌, ◌≤◌, ◌<◌, ◌≡◌, refl, ap, List, [], ◌∷◌, ◌++◌, append_assoc, append-nil,
  Option-cases, inl, inr, Option, none, some, ◌==◌, if◌then◌else◌, arith, length, All,
}
use game_login.Cipher.Blowfish.Words.{word_bytes, short_bytes}
use game_login.Wire.Assemble.{
  Arg, assemble, text, char, short, int, text_bytes, arg_bytes, copy_chars, ln_str_n_cpy, get_int,
  get_short, get_char, get_str, skip,
}
use game_login.Wire.Assemble.Layout.{all_bytes, assemble_lem}

-- A value that a handler asks for: the reader, and for a text the size of its buffer.
pub data Field : Type 0 where
  char_field : ℕ → Field
  short_field : ℕ → Field
  int_field : ℕ → Field
  text_field : ℕ → List ℕ → Field

-- The sender's argument, and the range in which the reader can give it back.
unfoldable pub sent_as : Field → Arg
sent_as (char_field i) = char i
sent_as (short_field i) = short i
sent_as (int_field i) = int i
sent_as (text_field size cs) = text (some cs)

abbrev pub Fits : Field → Type 0
Fits (char_field i) = i < 2 ^ 8
Fits (short_field i) = i < 2 ^ 16
Fits (int_field i) = i < 2 ^ 32
Fits (text_field size cs) = (length cs < size) × All (λ c. 0 < c) cs

-- The characters of a C string before its NUL.
abbrev without_nul : List ℕ → List ℕ
without_nul [] = []
without_nul (c ∷ cs) = if c == 0 then [] else c ∷ without_nul cs

-- The read of one field of the shape of `f`.
pub read_field : Field → List ℕ → Option (Field × List ℕ)
read_field (char_field _) packet =
    Opt.map (λ (r : ℕ × List ℕ). (char_field r.0, r.1)) (get_char packet)
read_field (short_field _) packet =
    Opt.map (λ (r : ℕ × List ℕ). (short_field r.0, r.1)) (get_short packet)
read_field (int_field _) packet =
    Opt.map (λ (r : ℕ × List ℕ). (int_field r.0, r.1)) (get_int packet)
read_field (text_field size _) packet =
    Opt.map (λ (r : List ℕ × List ℕ). (text_field size (without_nul r.0), r.1))
      (get_str size packet)

copy_chars-le :
    (copy_len len : ℕ) (src dst : List ℕ) (n : ℕ)
    → copy_len ≤ len
    → copy_chars copy_len len src ≡ some (dst, n)
    → length dst + copy_len ≤ len + 1
unfolding copy_chars
copy_chars-le copy_len len [] dst n h e = cc
copy_chars-le copy_len len (c ∷ src) dst n h e =
    elim (Option-cases (copy_chars (copy_len + 1) len src)) [
      | inl q ↦ ground (arith, copy_chars-le (copy_len + 1) len src dst n)
      | inr (r, q) ↦ ground (arith, copy_chars-le (copy_len + 1) len src r.0 r.1)
    ]

copy_chars_moves :
    (copy_len len : ℕ) (src dst : List ℕ) (n : ℕ)
    → copy_len ≤ len
    → copy_chars copy_len len src ≡ some (dst, n)
    → n ≤ len + 1
unfolding copy_chars
copy_chars_moves copy_len len [] dst n h e = cc
copy_chars_moves copy_len len (c ∷ src) dst n h e =
    elim (Option-cases (copy_chars (copy_len + 1) len src)) [
      | inl q ↦ ground (arith, copy_chars_moves (copy_len + 1) len src dst n)
      | inr (r, q) ↦ ground (arith, copy_chars_moves (copy_len + 1) len src r.0 r.1)
    ]

-- A text that `LNStrNCpy` copies fits the buffer of `len` bytes, its NUL included, whatever the packet
-- holds, if the buffer has room for a byte; and it moves on by at most one byte more than the buffer has.
pub length-ln_str_n_cpy :
    (src dst : List ℕ) (len n : ℕ)
    → 0 < len
    → ln_str_n_cpy src len ≡ some (dst, n)
    → (length dst ≤ len) × (n ≤ len + 1)
unfolding ln_str_n_cpy
length-ln_str_n_cpy src dst len n h e = (
  omega (arith, copy_chars-le 1 len src dst n (omega arith) e),
  copy_chars_moves 1 len src dst n (omega arith) e,
)

copy_chars_text :
    (copy_len len : ℕ) (cs rest : List ℕ)
    → copy_len + length cs ≤ len
    → All (λ c. 0 < c) cs
    → copy_chars copy_len len (text_bytes cs ++ rest) ≡ some (text_bytes cs, copy_len + length cs)
unfolding copy_chars text_bytes
copy_chars_text copy_len len [] rest h k = ground arith
copy_chars_text copy_len len (c ∷ cs) rest h k =
    ground (arith, copy_chars_text (copy_len + 1) len cs rest)

skip_text : (cs rest : List ℕ) → skip (suc (length cs)) (text_bytes cs ++ rest) ≡ some rest
unfolding text_bytes
skip_text [] rest = refl
skip_text (c ∷ cs) rest = skip_text cs rest

without_nul_text : (cs : List ℕ) → All (λ c. 0 < c) cs → without_nul (text_bytes cs) ≡ cs
unfolding text_bytes
without_nul_text [] k = refl
without_nul_text (c ∷ cs) k = ground (arith, without_nul_text cs k.1)

read_text :
    (size : ℕ) (cs rest : List ℕ)
    → length cs < size
    → All (λ c. 0 < c) cs
    → get_str size (text_bytes cs ++ rest) ≡ some (text_bytes cs, rest)
unfolding get_str ln_str_n_cpy
read_text size cs rest h k = ground (arith, copy_chars_text 1 size cs rest, skip_text cs rest)

char_byte : (i : ℕ) → i < 256 → i % 256 ≡ i
char_byte i h = omega arith

read_field_sent :
    (f : Field) (rest : List ℕ)
    → Fits f
    → read_field f (arg_bytes (sent_as f) ++ rest) ≡ some (f, rest)
unfolding read_field sent_as arg_bytes get_char get_short get_int
read_field_sent (char_field i) rest h = ap (λ w. some (char_field w, rest)) (char_byte i h)
read_field_sent (short_field i) rest h = ap (λ w. some (short_field w, rest)) (short_bytes i h)
read_field_sent (int_field i) rest h = ap (λ w. some (int_field w, rest)) (word_bytes i h)
read_field_sent (text_field size cs) rest h =
    ground (arith, read_text size cs rest h.0 h.1, without_nul_text cs h.1)

-- Reads one behind the other.
pub read_fields : List Field → List ℕ → Option (List Field × List ℕ)
read_fields [] packet = some ([], packet)
read_fields (f ∷ fs) packet = elim (read_field f packet) [
  | none ↦ none
  | some (v, rest) ↦ Opt.map (λ (r : List Field × List ℕ). (v ∷ r.0, r.1)) (read_fields fs rest)
]

unfoldable pub sent_args : List Field → List Arg
sent_args [] = []
sent_args (f ∷ fs) = sent_as f ∷ sent_args fs

read_fields_sent :
    (fs : List Field) (rest : List ℕ)
    → All Fits fs
    → read_fields fs (all_bytes (sent_args fs) ++ rest) ≡ some (fs, rest)
unfolding read_fields sent_args
read_fields_sent [] rest h = refl
read_fields_sent (f ∷ fs) rest h = ground (
  arith,
  append_assoc (arg_bytes (sent_as f)) (all_bytes (sent_args fs)) rest,
  read_field_sent f (all_bytes (sent_args fs) ++ rest) h.0,
  read_fields_sent fs rest h.1,
)

-- If `Assemble` has room for numbers in their range and texts that are shorter than the buffers of
-- the reader and have no NUL inside, the `Get…FromPacket` of their types in the same order give
-- them all back, and stop where the packet ends.
pub read_fields-assemble :
    (room : ℕ) (fs : List Field) (packet : List ℕ)
    → All Fits fs
    → assemble room (sent_args fs) ≡ some packet
    → read_fields fs packet ≡ some (fs, [])
read_fields-assemble room fs packet h e =
    let whole = read_fields_sent fs [] h in
    ground (arith, assemble_lem room (sent_args fs), append-nil (all_bytes (sent_args fs)), whole)
