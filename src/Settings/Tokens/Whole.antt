-- ===== src/Settings/Tokens/Whole.antt =====
-- A stream whose last byte is no `-` does not fail in `GetToken`.
use game_login.Base.{
  ℕ, zero, suc, ◌≡◌, refl, Bool, true, false, List, [], ◌∷◌, ◌==◌, ◌||◌, arith, Bool-cases, inl,
  inr,
}
use game_login.Settings.Tokens.{
  Token, eof, Scanned, is_digit, is_letter, is_white_space, digits, quoted, letters, single,
  after_minus, scan_value, dispatch, get_token,
}

-- The last byte is no `-`.
abbrev pub IsWhole : List ℕ → Type 0
IsWhole [] = Unit
IsWhole (c ∷ []) = (c == b'-') ≡ false
IsWhole (c ∷ d ∷ ds) = IsWhole (d ∷ ds)

tail-IsWhole : (c : ℕ) (cs : List ℕ) → IsWhole (c ∷ cs) → IsWhole cs
tail-IsWhole c [] w = tt
tail-IsWhole c (d ∷ ds) w = w

-- What a call leaves of such a stream.
abbrev pub Goes : Scanned → Type 0
Goes s = IsWhole s.rest × (s.failed ≡ false)

digits-Goes : (token : Token) (room : ℕ) (cs : List ℕ) → IsWhole cs → Goes (digits token room cs)
unfolding digits
digits-Goes token zero cs w = (w, refl)
digits-Goes token (suc room) [] w = (w, refl)
digits-Goes token (suc room) (c ∷ cs) w = elim (Bool-cases (is_digit c)) [
  | inl e ↦ rw e (digits-Goes token room cs (tail-IsWhole c cs w))
  | inr e ↦ rw e (w, refl)
]

quoted-Goes : (room : ℕ) (cs : List ℕ) → IsWhole cs → Goes (quoted room cs)
unfolding quoted
quoted-Goes room [] w = (w, refl)
quoted-Goes zero (c ∷ cs) w = elim (Bool-cases (c == b'\n')) [
  | inl e ↦ rw e (w, refl)
  | inr e ↦ rw e (tail-IsWhole c cs w, refl)
]
quoted-Goes (suc room) (c ∷ cs) w = elim (Bool-cases (c == b'"')) [
  | inl e ↦ rw e (tail-IsWhole c cs w, refl)
  | inr e ↦ rw e (elim (Bool-cases (c == b'\n')) [
    | inl f ↦ rw f (w, refl)
    | inr f ↦ rw f (quoted-Goes room cs (tail-IsWhole c cs w))
  ])
]

letters-Goes : (cs : List ℕ) → IsWhole cs → Goes (letters cs)
unfolding letters
letters-Goes [] w = (w, refl)
letters-Goes (c ∷ cs) w = elim (Bool-cases (is_letter c || c == b'_')) [
  | inl e ↦ rw e (letters-Goes cs (tail-IsWhole c cs w))
  | inr e ↦ rw e (w, refl)
]

after_minus-Goes :
    (str_only : Bool) (cs : List ℕ) → IsWhole (b'-' ∷ cs) → Goes (after_minus str_only cs)
unfolding after_minus
after_minus-Goes str_only [] w = cc
after_minus-Goes str_only (c ∷ cs) w = elim (Bool-cases (is_digit c)) [
  | inl e ↦ rw e (digits-Goes _ 69 (c ∷ cs) w)
  | inr e ↦ rw e (w, refl)
]

minus-IsWhole : (c : ℕ) (cs : List ℕ) → c == b'-' ≡ true → IsWhole (c ∷ cs) → IsWhole (b'-' ∷ cs)
minus-IsWhole c [] e w = ground arith
minus-IsWhole c (d ∷ ds) e w = w

scan_value-Goes :
    (str_only : Bool) (c : ℕ) (cs : List ℕ) → IsWhole (c ∷ cs) → Goes (scan_value str_only c cs)
unfolding scan_value
scan_value-Goes str_only c cs w = elim (Bool-cases (c == b'-')) [
  | inl e ↦ rw e (after_minus-Goes str_only cs (minus-IsWhole c cs e w))
  | inr e ↦ rw e (elim (Bool-cases (is_digit c)) [
    | inl digit ↦ rw digit (digits-Goes _ 70 (c ∷ cs) w)
    | inr other ↦ rw other (elim (Bool-cases (c == b'"')) [
      | inl q ↦ rw q (quoted-Goes 70 cs (tail-IsWhole c cs w))
      | inr q ↦ rw q (elim (Bool-cases (is_letter c)) [
        | inl letter ↦ rw letter (letters-Goes (c ∷ cs) w)
        | inr none_ ↦ rw none_ (tail-IsWhole c cs w, refl)
      ])
    ])
  ])
]

dispatch-Goes :
    (token : Token) (str_only : Bool) (c : ℕ) (cs : List ℕ)
    → IsWhole (c ∷ cs)
    → Goes (dispatch token str_only c cs)
unfolding dispatch
dispatch-Goes eof str_only c cs w = scan_value-Goes str_only c cs w
dispatch-Goes token str_only c cs w = (tail-IsWhole c cs w, refl)

pub get_token-Goes : (str_only : Bool) (cs : List ℕ) → IsWhole cs → Goes (get_token str_only cs)
unfolding get_token
get_token-Goes str_only [] w = (w, refl)
get_token-Goes str_only (c ∷ cs) w = elim (Bool-cases (is_white_space c)) [
  | inl e ↦ rw e (get_token-Goes str_only cs (tail-IsWhole c cs w))
  | inr e ↦ rw e (dispatch-Goes (single c) str_only c cs w)
]
