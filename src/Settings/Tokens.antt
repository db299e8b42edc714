-- ===== src/Settings/Tokens.antt =====
-- `GetToken` of src/AuthServer/Parser.cpp, on the bytes of the stream that are not read yet. It is
-- called with `noskipws` set. A `putback` gives back the byte just read; the end of the stream is where
-- no bytes are left. At the end only a `-` is put back without a test of `eof`: what the stream is then
-- depends on the library, and in C++11 `eof` is false of it while every read fails.
pub mod Progress
pub mod Whole
pub mod Line
pub mod Pieces
use game_login.Base.{
  ℕ, zero, suc, ◌-◌, Bool, true, false, ◌&&◌, ◌||◌, List, [], ◌∷◌, ltb, leb, ◌==◌, if◌then◌else◌,
}

pub data Token : Type 0 where
  word : Token
  period : Token
  comma : Token
  minus : Token
  colon : Token
  semi_colon : Token
  equal : Token
  slash : Token
  ampersand : Token
  left_paren : Token
  right_paren : Token
  new_line : Token
  number : Token
  eof : Token

abbrev pub is_eof : Token → Bool
is_eof eof = true
is_eof _ = false

abbrev pub is_new_line : Token → Bool
is_new_line new_line = true
is_new_line _ = false

abbrev pub max_token_len : ℕ
max_token_len = 70

abbrev pub is_digit : ℕ → Bool
is_digit c = leb b'0' c && leb c b'9'

abbrev pub is_white_space : ℕ → Bool
is_white_space c = c == b' ' || c == b'\t' || c == 13

abbrev pub is_alpha : ℕ → Bool
is_alpha c = leb b'a' c && leb c b'z' || leb b'A' c && leb c b'Z'

-- `IsAlpha(c) || c >= 0xa1 && c < 0xfe`.
abbrev pub is_letter : ℕ → Bool
is_letter c = is_alpha c || leb 0xa1 c && ltb c 0xfe

-- What a call comes to: the token, the bytes that it puts into `value` before the NUL, if it puts one
-- there, and the stream behind it.
pub record Scanned : Type 0 where
  pub token : Token
  pub value : List ℕ
  pub rest : List ℕ
  -- Whether the stream has failed, at its end, in a `putback`.
  pub failed : Bool

abbrev pub bare : Token → List ℕ → Scanned
bare token rest = record { token = token; value = []; rest = rest; failed = false }

abbrev pub store : ℕ → Scanned → Scanned
store c s = record s { value = c ∷ s.value }

-- The loops take the byte that stands next; `room` is `MAX_TOKEN_LEN - count`.
pub digits : Token → ℕ → List ℕ → Scanned
digits token zero cs = bare token cs
digits token (suc room) [] = bare token []
digits token (suc room) (c ∷ cs) =
    let more = digits token room cs in if is_digit c then store c more else bare token (c ∷ cs)

-- Past the opening quote. The byte at which the room runs out is read, and only a line feed goes back.
pub quoted : ℕ → List ℕ → Scanned
quoted room [] = bare word []
quoted zero (c ∷ cs) = if c == b'\n' then bare word (c ∷ cs) else bare word cs
quoted (suc room) (c ∷ cs) =
    let more = quoted room cs in
    if c == b'"' then bare word cs else if c == b'\n' then bare word (c ∷ cs) else store c more

-- No bound stops this one.
unfoldable pub letters : List ℕ → Scanned
letters [] = bare word []
letters (c ∷ cs) =
    let more = letters cs in if is_letter c || c == b'_' then store c more else bare word (c ∷ cs)

-- The `switch` over the tokens of one byte.
unfoldable pub single : ℕ → Token
single c =
    if c == b'.'
    then period
    else if c == b','
    then comma
    else if c == b':'
    then colon
    else if c == b';'
    then semi_colon
    else if c == b'='
    then equal
    else if c == b'/'
    then slash
    else if c == b'&'
    then ampersand
    else if c == b'('
    then left_paren
    else if c == b')'
    then right_paren
    else if c == b'\n'
    then new_line
    else eof

abbrev digits_token : Bool → Token
digits_token str_only = if str_only then word else number

pub after_minus : Bool → List ℕ → Scanned
after_minus str_only [] = record (bare minus []) { failed = true }
after_minus str_only (c ∷ cs) =
    if is_digit c
    then store b'-' (digits (digits_token str_only) (max_token_len - 1) (c ∷ cs))
    else bare minus (c ∷ cs)

-- Behind the `switch`, where `c` is the byte read; any other byte is unexpected, and ends the file.
pub scan_value : Bool → ℕ → List ℕ → Scanned
scan_value str_only c cs =
    if c == b'-'
    then after_minus str_only cs
    else if is_digit c
    then digits (digits_token str_only) max_token_len (c ∷ cs)
    else if c == b'"'
    then quoted max_token_len cs
    else if is_letter c
    then letters (c ∷ cs)
    else bare eof cs

pub dispatch : Token → Bool → ℕ → List ℕ → Scanned
dispatch eof str_only c cs = scan_value str_only c cs
dispatch token str_only c cs = bare token cs

pub get_token : Bool → List ℕ → Scanned
get_token str_only [] = bare eof []
get_token str_only (c ∷ cs) =
    let more = get_token str_only cs in
    if is_white_space c then more else dispatch (single c) str_only c cs
