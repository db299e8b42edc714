-- ===== src/Wire/Assemble.antt =====
-- `Assemble`, `LNStrNCpy` of src/AuthServer/util.cpp and the `Get…FromPacket` of util.h: arguments
-- laid out one behind the other, and read back. Numbers are bit patterns.
pub mod Layout
pub mod Reading
use mathlib.Core.Option as Opt
use game_login.Base.{
  ℕ, zero, suc, ◌+◌, ◌-◌, ◌/◌, ◌%◌, ◌^◌, Bool, true, false, List, [], ◌∷◌, ◌++◌, Option, none, some,
  ltb, leb, ◌==◌, if◌then◌else◌, length,
}
use game_login.Cipher.Blowfish.Words.{word, bytes}

-- A letter of the format with the argument that it takes. A text is its characters before the NUL, and
-- `none` for a null pointer; a blob has the length that is passed with it.
pub data Arg : Type 0 where
  wide : Option (List ℕ) → Arg
  text : Option (List ℕ) → Arg
  blob : List ℕ → Arg
  char : ℕ → Arg
  short : ℕ → Arg
  int : ℕ → Arg

-- `wchar_t` has two bytes.
pub wide_bytes : List ℕ → List ℕ
wide_bytes [] = 0 ∷ 0 ∷ []
wide_bytes (c ∷ cs) = (c % 256) ∷ (c / 2 ^ 8 % 256) ∷ wide_bytes cs

unfoldable pub text_bytes : List ℕ → List ℕ
text_bytes cs = cs ++ (0 ∷ [])

unfoldable pub arg_bytes : Arg → List ℕ
arg_bytes (wide none) = 0 ∷ 0 ∷ []
arg_bytes (wide (some cs)) = wide_bytes cs
arg_bytes (text none) = 0 ∷ []
arg_bytes (text (some cs)) = text_bytes cs
arg_bytes (blob bs) = bs
arg_bytes (char i) = (i % 256) ∷ []
arg_bytes (short i) = (i % 256) ∷ (i / 2 ^ 8 % 256) ∷ []
arg_bytes (int i) = bytes i []

-- `Assemble` with room for `room` bytes, the bytes from `start` on; `none` is the jump to `overflow`.
unfoldable pub assemble : ℕ → List Arg → Option (List ℕ)
assemble room [] = some []
assemble room (a ∷ args) =
    let rest = assemble (room - length (arg_bytes a)) args in
    if leb (length (arg_bytes a)) room then Opt.map (λ out. arg_bytes a ++ out) rest else none

-- The value that `Assemble` returns.
unfoldable pub assemble_len : Option (List ℕ) → ℕ
assemble_len none = 0
assemble_len (some out) = length out

-- `LNStrNCpy`: what it writes to `dst`, and `copyLen`; `none` is a read past the end of the packet.
unfoldable pub copy_chars : ℕ → ℕ → List ℕ → Option (List ℕ × ℕ)
copy_chars copy_len len [] = none
copy_chars copy_len len (c ∷ src) =
    let more = copy_chars (copy_len + 1) len src in
    if c == 0
    then some (0 ∷ [], copy_len)
    else if ltb len (copy_len + 1)
    then some (0 ∷ [], copy_len + 1)
    else Opt.map (λ (r : List ℕ × ℕ). (c ∷ r.0, r.1)) more

unfoldable pub ln_str_n_cpy : List ℕ → ℕ → Option (List ℕ × ℕ)
ln_str_n_cpy src len = copy_chars 1 len src

-- `GetIntFromPacket`, `GetShortFromPacket` and `GetCharFromPacket`: the value, and the packet moved on.
pub get_int : List ℕ → Option (ℕ × List ℕ)
get_int (a ∷ b ∷ c ∷ d ∷ rest) = some (word a b c d, rest)
get_int _ = none

pub get_short : List ℕ → Option (ℕ × List ℕ)
get_short (a ∷ b ∷ rest) = some (word a b 0 0, rest)
get_short _ = none

pub get_char : List ℕ → Option (ℕ × List ℕ)
get_char [] = none
get_char (a ∷ rest) = some (a, rest)

abbrev skip : ℕ → List ℕ → Option (List ℕ)
skip zero rest = some rest
skip (suc n) [] = none
skip (suc n) (x ∷ xs) = skip n xs

-- `GetStrFromPacket`: the characters and the NUL that end up in `dst`.
pub get_str : ℕ → List ℕ → Option (List ℕ × List ℕ)
get_str dst_len packet = elim (ln_str_n_cpy packet dst_len) [
  | none ↦ none
  | some (dst, n) ↦ Opt.map (λ rest. (dst, rest)) (skip n packet)
]
