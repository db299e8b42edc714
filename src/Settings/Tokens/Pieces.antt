-- ===== src/Settings/Tokens/Pieces.antt =====
-- `GetToken` at the parts of a line that says a setting.
use game_login.Base.{
  ℕ, zero, suc, ◌≤◌, ◌≡◌, refl, true, false, ◌||◌, List, [], ◌∷◌, ◌++◌, ◌==◌, arith, length, All,
}
use game_login.Settings.Tokens.{
  word, equal, semi_colon, new_line, eof, Scanned, bare, is_digit, is_letter, is_white_space,
  digits, letters, quoted, single, scan_value, dispatch, get_token,
}

abbrev pub piece : List ℕ → List ℕ → Scanned
piece value rest = record { token = word; value = value; rest = rest; failed = false }

abbrev pub IsWordByte : ℕ → Type 0
IsWordByte c = is_letter c || c == b'_' ≡ true

-- A key begins with a letter.
abbrev pub IsKey : List ℕ → Type 0
IsKey [] = ⊥
IsKey (c ∷ cs) = (is_letter c ≡ true) × All IsWordByte cs

-- What can stand between quotes, and is no end of a text.
abbrev pub IsQuotable : ℕ → Type 0
IsQuotable c = ((c == b'"') ≡ false) × ((c == b'\n') ≡ false) × ((c == 0) ≡ false)

abbrev pub IsDigit : ℕ → Type 0
IsDigit c = is_digit c ≡ true

letters_stop :
    (k rest : List ℕ) → All IsWordByte k → letters (k ++ b' ' ∷ rest) ≡ piece k (b' ' ∷ rest)
unfolding letters
letters_stop [] rest h = refl
letters_stop (c ∷ cs) rest h = rw (h.0) (rw (letters_stop cs rest h.1) refl)

quoted_stop :
    (room : ℕ) (v rest : List ℕ)
    → length v ≤ room
    → All IsQuotable v
    → quoted room (v ++ b'"' ∷ rest) ≡ piece v rest
unfolding quoted
quoted_stop zero [] rest h q = refl
quoted_stop (suc room) [] rest h q = refl
quoted_stop zero (c ∷ cs) rest h q = absurd (omega arith)
quoted_stop (suc room) (c ∷ cs) rest h q =
    rw (q.0.0, q.0.1) (rw (quoted_stop room cs rest (omega arith) q.1) refl)

digits_stop :
    (room : ℕ) (v rest : List ℕ)
    → length v ≤ room
    → All IsDigit v
    → digits word room (v ++ b'\n' ∷ rest) ≡ piece v (b'\n' ∷ rest)
unfolding digits
digits_stop zero [] rest h q = refl
digits_stop (suc room) [] rest h q = refl
digits_stop zero (c ∷ cs) rest h q = absurd (omega arith)
digits_stop (suc room) (c ∷ cs) rest h q =
    rw (q.0) (rw (digits_stop room cs rest (omega arith) q.1) refl)

letter_starts :
    (c : ℕ)
    → is_letter c ≡ true
    → (is_white_space c ≡ false)
      × (single c ≡ eof)
      × ((c == b'-') ≡ false)
      × (is_digit c ≡ false)
      × ((c == b'"') ≡ false)
unfolding single
letter_starts c h = (ground arith, ground arith, ground arith, ground arith, ground arith)

digit_starts :
    (c : ℕ)
    → is_digit c ≡ true
    → (is_white_space c ≡ false) × (single c ≡ eof) × ((c == b'-') ≡ false)
unfolding single
digit_starts c h = (ground arith, ground arith, ground arith)

letter-IsWordByte : (c : ℕ) → is_letter c ≡ true → IsWordByte c
letter-IsWordByte c h = rw h refl

pub get_token_key :
    (k rest : List ℕ) → IsKey k → get_token true (k ++ b' ' ∷ rest) ≡ piece k (b' ' ∷ rest)
unfolding get_token dispatch scan_value
get_token_key [] rest h = absurd h
get_token_key (c ∷ cs) rest h =
    let (white, one, dash, digit, quote) = letter_starts c h.0 in
    rw (white, one, dispatch)
      (rw (dash, digit, quote, h.0) (letters_stop (c ∷ cs) rest (letter-IsWordByte c h.0, h.1)))

pub get_token_quoted :
    (v rest : List ℕ)
    → length v ≤ 70
    → All IsQuotable v
    → get_token true (b' ' ∷ b'"' ∷ (v ++ b'"' ∷ rest)) ≡ piece v rest
unfolding get_token dispatch scan_value single
get_token_quoted v rest h q = quoted_stop 70 v rest h q

pub get_token_number :
    (c : ℕ) (cs rest : List ℕ)
    → length (c ∷ cs) ≤ 70
    → All IsDigit (c ∷ cs)
    → get_token true (b' ' ∷ c ∷ (cs ++ b'\n' ∷ rest)) ≡ piece (c ∷ cs) (b'\n' ∷ rest)
unfolding get_token dispatch scan_value
get_token_number c cs rest h q =
    let (white, one, dash) = digit_starts c q.0 in
    rw (white, one, dispatch) (rw (dash, q.0) (digits_stop 70 (c ∷ cs) rest h q))

pub get_token_equal : (rest : List ℕ) → get_token true (b' ' ∷ b'=' ∷ rest) ≡ bare equal rest
unfolding get_token dispatch single
get_token_equal rest = refl

pub get_token_new_line : (rest : List ℕ) → get_token true (b'\n' ∷ rest) ≡ bare new_line rest
unfolding get_token dispatch single
get_token_new_line rest = refl

pub get_token_semi_colon : (rest : List ℕ) → get_token true (b';' ∷ rest) ≡ bare semi_colon rest
unfolding get_token dispatch single
get_token_semi_colon rest = refl

pub get_token_nil : get_token true [] ≡ bare eof []
unfolding get_token
get_token_nil = refl
