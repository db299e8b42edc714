-- ===== src/Settings/Tokens/Progress.antt =====
-- How far `GetToken` reads, and how much it puts into `value`.
use game_login.Base.{
  ℕ, zero, suc, ◌≤◌, ◌<◌, ◌≡◌, ◌≢◌, refl, Bool, true, List, [], ◌∷◌, ◌==◌, ◌||◌, arith,
  if◌then◌else◌, length, Bool-cases, inl, inr,
}
use game_login.Settings.Tokens.{
  Token, word, number, minus, eof, Scanned, max_token_len, is_digit, is_letter, is_white_space,
  bare, digits, quoted, letters, single, after_minus, scan_value, dispatch, get_token,
}

-- Nowhere in the file do more than 70 bytes stand together that a word can have.
abbrev pub RunsFit : List ℕ → Type 0
RunsFit [] = Unit
RunsFit (c ∷ cs) = (length (letters (c ∷ cs)).value ≤ max_token_len) × RunsFit cs

-- The stream is read on to `s.rest`, and `value` gets no more than `most` bytes.
pub record Reads (cs : List ℕ) (most : ℕ) (s : Scanned) : Type 0 where
  pub on : length s.rest ≤ length cs
  pub fits : RunsFit cs → RunsFit s.rest
  pub few : length s.value ≤ most

digits-Reads : (token : Token) (room : ℕ) (cs : List ℕ) → Reads cs room (digits token room cs)
unfolding digits
digits-Reads token zero cs = record { on = omega arith; fits = λ r. r; few = omega arith }
digits-Reads token (suc room) [] = record { on = omega arith; fits = λ r. r; few = omega arith }
digits-Reads token (suc room) (c ∷ cs) =
    let more = digits-Reads token room cs in
    elim (Bool-cases (is_digit c)) [
      | inl digit ↦ rw digit (record {
        on = omega (arith, more.on);
        fits = λ r. more.fits r.1;
        few = omega (arith, more.few);
      })
      | inr other ↦ rw other (record { on = omega arith; fits = λ r. r; few = omega arith })
    ]

quoted-Reads : (room : ℕ) (cs : List ℕ) → Reads cs room (quoted room cs)
unfolding quoted
quoted-Reads room [] = record { on = omega arith; fits = λ r. r; few = omega arith }
quoted-Reads zero (c ∷ cs) = elim (Bool-cases (c == b'\n')) [
  | inl e ↦ rw e (record { on = omega arith; fits = λ r. r; few = omega arith })
  | inr e ↦ rw e (record { on = omega arith; fits = λ r. r.1; few = omega arith })
]
quoted-Reads (suc room) (c ∷ cs) =
    let more = quoted-Reads room cs in
    elim (Bool-cases (c == b'"')) [
      | inl e ↦ rw e (record { on = omega arith; fits = λ r. r.1; few = omega arith })
      | inr other ↦ rw other (elim (Bool-cases (c == b'\n')) [
        | inl e ↦ rw e (record { on = omega arith; fits = λ r. r; few = omega arith })
        | inr e ↦ rw e (record {
          on = omega (arith, more.on);
          fits = λ r. more.fits r.1;
          few = omega (arith, more.few);
        })
      ])
    ]

letters-Reads : (cs : List ℕ) → Reads cs (length (letters cs).value) (letters cs)
unfolding letters
letters-Reads [] = record { on = omega arith; fits = λ r. r; few = omega arith }
letters-Reads (c ∷ cs) =
    let more = letters-Reads cs in
    elim (Bool-cases (is_letter c || c == b'_')) [
      | inl e ↦
          rw e
            (record { on = omega (arith, more.on); fits = λ r. more.fits r.1; few = omega arith })
      | inr e ↦ rw e (record { on = omega arith; fits = λ r. r; few = omega arith })
    ]

-- A token takes at least a byte off the stream, and a word fits `value` where the file has no long run.
pub record Ends (cs : List ℕ) (s : Scanned) : Type 0 where
  pub on : s.token ≢ eof → length s.rest < length cs
  pub fits : RunsFit cs → RunsFit s.rest
  pub few : RunsFit cs → length s.value ≤ max_token_len

-- After the byte `c`, in a part of the code that does not read it again.
past :
    {c : ℕ} {cs : List ℕ} {most : ℕ} (s : Scanned)
    → most ≤ max_token_len
    → Reads cs most s
    → Ends (c ∷ cs) s
past s h r = record {
  on = λ e. omega (arith, r.on);
  fits = λ f. r.fits f.1;
  few = λ f. omega (arith, r.few, h);
}

bare-Ends : (token : Token) (c : ℕ) (cs : List ℕ) → Ends (c ∷ cs) (bare token cs)
bare-Ends token c cs = record { on = λ e. omega arith; fits = λ f. f.1; few = λ f. omega arith }

-- A number whose first digit stands at the front of the stream takes that digit off.
digits-Ends :
    (token : Token) (room c : ℕ) (cs : List ℕ)
    → suc room ≤ max_token_len
    → is_digit c ≡ true
    → Ends (c ∷ cs) (digits token (suc room) (c ∷ cs))
unfolding digits
digits-Ends token room c cs h digit =
    let r = digits-Reads token room cs in
    rw digit (record {
      on = λ e. omega (arith, r.on);
      fits = λ f. r.fits f.1;
      few = λ f. omega (arith, r.few, h);
    })

letters-Ends : (c : ℕ) (cs : List ℕ) → is_letter c ≡ true → Ends (c ∷ cs) (letters (c ∷ cs))
letters-Ends c cs letter = record {
  on = λ e. unfold letters in rw letter (omega (arith, (letters-Reads cs).on));
  fits = (letters-Reads (c ∷ cs)).fits;
  few = λ f. f.0;
}

after_minus-Ends : (str_only : Bool) (c : ℕ) (cs : List ℕ) → Ends (c ∷ cs) (after_minus str_only cs)
unfolding after_minus
after_minus-Ends str_only c [] = record {
  on = λ e. omega arith;
  fits = λ f. tt;
  few = λ f. omega arith;
}
after_minus-Ends str_only c (d ∷ ds) = elim (Bool-cases (is_digit d)) [
  | inl digit ↦ rw digit (
      let r = digits-Reads (if str_only then word else number) 69 (d ∷ ds) in
      record {
        on = λ e. omega (arith, r.on);
        fits = λ f. r.fits f.1;
        few = λ f. omega (arith, r.few);
      })
  | inr other ↦ rw other (bare-Ends minus c (d ∷ ds))
]

scan_value-Ends : (str_only : Bool) (c : ℕ) (cs : List ℕ) → Ends (c ∷ cs) (scan_value str_only c cs)
unfolding scan_value
scan_value-Ends str_only c cs = elim (Bool-cases (c == b'-')) [
  | inl e ↦ rw e (after_minus-Ends str_only c cs)
  | inr e ↦ rw e (elim (Bool-cases (is_digit c)) [
    | inl digit ↦ rw digit (digits-Ends _ 69 c cs (omega arith) digit)
    | inr other ↦ rw other (elim (Bool-cases (c == b'"')) [
      | inl q ↦ rw q (past (quoted 70 cs) (omega arith) (quoted-Reads 70 cs))
      | inr q ↦ rw q (elim (Bool-cases (is_letter c)) [
        | inl letter ↦ rw letter (letters-Ends c cs letter)
        | inr none_ ↦ rw none_ (bare-Ends eof c cs)
      ])
    ])
  ])
]

dispatch-Ends :
    (token : Token) (str_only : Bool) (c : ℕ) (cs : List ℕ)
    → Ends (c ∷ cs) (dispatch token str_only c cs)
unfolding dispatch
dispatch-Ends eof str_only c cs = scan_value-Ends str_only c cs
dispatch-Ends token str_only c cs = bare-Ends token c cs

pub get_token-Ends : (str_only : Bool) (cs : List ℕ) → Ends cs (get_token str_only cs)
unfolding get_token
get_token-Ends str_only [] = record {
  on = λ e. absurd (e refl);
  fits = λ f. f;
  few = λ f. omega arith;
}
get_token-Ends str_only (c ∷ cs) =
    let more = get_token-Ends str_only cs in
    elim (Bool-cases (is_white_space c)) [
      | inl e ↦ rw e (record {
        on = λ t. omega (arith, more.on t);
        fits = λ f. more.fits f.1;
        few = λ f. more.few f.1;
      })
      | inr e ↦ rw e (dispatch-Ends (single c) str_only c cs)
    ]
