-- ===== src/Settings/Tokens/Line.antt =====
-- `GetToken` on a text with a line feed behind it.
use game_login.Base.{
  ℕ, zero, suc, ◌≡◌, refl, ◌⊎◌, true, false, not, ◌||◌, List, [], ◌∷◌, ◌++◌, ◌==◌, arith,
  Bool-cases, inl, inr, All,
}
use game_login.Settings.Tokens.{
  Token, word, new_line, eof, is_eof, is_new_line, Scanned, bare, is_digit, is_letter,
  is_white_space, digits, letters, quoted, single, after_minus, scan_value, dispatch, get_token,
}

-- A byte that a comment may have: blanks, letters, digits, `-`, quotes, and the marks that are tokens of
-- their own.
abbrev pub IsPlain : ℕ → Type 0
IsPlain c =
    (is_white_space c
        || is_letter c
        || is_digit c
        || c == b'-'
        || c == b'"'
        || not (is_eof (single c))
      ≡ true)
    × ((c == b'\n') ≡ false)

-- Behind a text, in a stream that goes on with `tail`.
abbrev pub behind : List ℕ → Scanned → Scanned
behind tail s = record s { rest = s.rest ++ tail; failed = false }

module _ (tail : List ℕ) where
  abbrev line : List ℕ
  line = b'\n' ∷ tail

  digits-append :
      (token : Token) (room : ℕ) (text : List ℕ)
      → digits token room (text ++ line) ≡ behind line (digits token room text)
  unfolding digits
  digits-append token zero text = refl
  digits-append token (suc room) [] = refl
  digits-append token (suc room) (c ∷ cs) = elim (Bool-cases (is_digit c)) [
    | inl e ↦ rw e (rw (digits-append token room cs) refl)
    | inr e ↦ rw e refl
  ]

  letters-append : (text : List ℕ) → letters (text ++ line) ≡ behind line (letters text)
  unfolding letters
  letters-append [] = refl
  letters-append (c ∷ cs) = elim (Bool-cases (is_letter c || c == b'_')) [
    | inl e ↦ rw e (rw (letters-append cs) refl)
    | inr e ↦ rw e refl
  ]

  after_minus-append :
      (text : List ℕ) → after_minus true (text ++ line) ≡ behind line (after_minus true text)
  unfolding after_minus
  after_minus-append [] = refl
  after_minus-append (c ∷ cs) = elim (Bool-cases (is_digit c)) [
    | inl e ↦ rw e (rw (digits-append word 69 (c ∷ cs)) refl)
    | inr e ↦ rw e refl
  ]

  -- A quote that is not closed in the text ends with the line.
  quoted-append :
      (room : ℕ) (text : List ℕ)
      → All IsPlain text
      → quoted room (text ++ line) ≡ behind line (quoted room text)
  unfolding quoted
  quoted-append zero [] p = refl
  quoted-append (suc room) [] p = refl
  quoted-append zero (c ∷ cs) p = rw (p.0.1) refl
  quoted-append (suc room) (c ∷ cs) p = elim (Bool-cases (c == b'"')) [
    | inl e ↦ rw e refl
    | inr e ↦ rw (e, p.0.1) (rw (quoted-append room cs p.1) refl)
  ]

  -- Any byte starts a token that ends in the text.
  dispatch-append :
      (c : ℕ) (text : List ℕ)
      → All IsPlain text
      → dispatch (single c) true c (text ++ line) ≡ behind line (dispatch (single c) true c text)
  dispatch-append c text p = go (single c)
    where
      scanned : scan_value true c (text ++ line) ≡ behind line (scan_value true c text)
      scanned =
          unfold scan_value in
          elim (Bool-cases (c == b'-')) [
            | inl e ↦ rw e (after_minus-append text)
            | inr e ↦ rw e (elim (Bool-cases (is_digit c)) [
              | inl d ↦ rw d (digits-append word 70 (c ∷ text))
              | inr d ↦ rw d (elim (Bool-cases (c == b'"')) [
                | inl q ↦ rw q (quoted-append 70 text p)
                | inr q ↦ rw q (elim (Bool-cases (is_letter c)) [
                  | inl l ↦ rw l (letters-append (c ∷ text))
                  | inr l ↦ rw l refl
                ])
              ])
            ])
          ]

      go : (t : Token) → dispatch t true c (text ++ line) ≡ behind line (dispatch t true c text)
      go t = unfold dispatch in ground (arith, scanned)

digits-token : (token : Token) (room : ℕ) (cs : List ℕ) → (digits token room cs).token ≡ token
unfolding digits
digits-token token zero cs = refl
digits-token token (suc room) [] = refl
digits-token token (suc room) (c ∷ cs) = ground (arith, digits-token token room cs)

letters-token : (cs : List ℕ) → (letters cs).token ≡ word
unfolding letters
letters-token [] = refl
letters-token (c ∷ cs) = ground (arith, letters-token cs)

-- A token within a line: it does not end the file or the line.
abbrev pub IsInner : Token → Type 0
IsInner t = (is_eof t ≡ false) × (is_new_line t ≡ false)

after_minus-IsInner : (cs : List ℕ) → IsInner (after_minus true cs).token
unfolding after_minus
after_minus-IsInner [] = (refl, refl)
after_minus-IsInner (c ∷ cs) = elim (Bool-cases (is_digit c)) [
  | inl e ↦ rw e (rw (digits-token word 69 (c ∷ cs)) (refl, refl))
  | inr e ↦ rw e (refl, refl)
]

single_newline : (c : ℕ) → (c == b'\n') ≡ false → is_new_line (single c) ≡ false
unfolding single
single_newline c h = ground arith

quoted-token : (room : ℕ) (cs : List ℕ) → (quoted room cs).token ≡ word
unfolding quoted
quoted-token room [] = refl
quoted-token zero (c ∷ cs) = ground arith
quoted-token (suc room) (c ∷ cs) = ground (arith, quoted-token room cs)

scan_value-IsInner :
    (c : ℕ) (cs : List ℕ)
    → is_letter c || is_digit c || c == b'-' || c == b'"' ≡ true
    → IsInner (scan_value true c cs).token
unfolding scan_value
scan_value-IsInner c cs h = elim (Bool-cases (c == b'-')) [
  | inl e ↦ rw e (after_minus-IsInner cs)
  | inr e ↦ rw e (elim (Bool-cases (is_digit c)) [
    | inl d ↦ rw d (rw (digits-token word 70 (c ∷ cs)) (refl, refl))
    | inr d ↦ rw d (elim (Bool-cases (c == b'"')) [
      | inl q ↦ rw q (rw (quoted-token 70 cs) (refl, refl))
      | inr q ↦ rw q (elim (Bool-cases (is_letter c)) [
        | inl l ↦ rw l (rw (letters-token (c ∷ cs)) (refl, refl))
        | inr l ↦ cc (rw (e, d, q, l) at h)
      ])
    ])
  ])
]

dispatch-IsInner :
    (t : Token) (c : ℕ) (cs : List ℕ)
    → is_new_line t ≡ false
    → (is_eof t ≡ true → IsInner (scan_value true c cs).token)
    → IsInner (dispatch t true c cs).token
unfolding dispatch
dispatch-IsInner eof c cs n s = s refl
dispatch-IsInner new_line c cs n s = cc
dispatch-IsInner _ c cs n s = (refl, refl)

plain-IsInner :
    (c : ℕ) (cs : List ℕ)
    → IsPlain c
    → is_white_space c ≡ false
    → IsInner (dispatch (single c) true c cs).token
plain-IsInner c cs p w =
    dispatch-IsInner (single c) c cs (single_newline c p.1) (λ e. scan_value-IsInner c cs (rest e))
  where
    rest : is_eof (single c) ≡ true → is_letter c || is_digit c || c == b'-' || c == b'"' ≡ true
    rest e = elim (Bool-cases (is_letter c || is_digit c || c == b'-' || c == b'"')) [
      | inl y ↦ y
      | inr n ↦ ground arith
    ]

-- What a call comes to on a text that stands before the end of its line.
abbrev pub InLine : List ℕ → List ℕ → Type 0
InLine tail text =
    (get_token true (text ++ b'\n' ∷ tail) ≡ bare new_line tail)
    ⊎ ((get_token true (text ++ b'\n' ∷ tail) ≡ behind (b'\n' ∷ tail) (get_token true text))
        × IsInner (get_token true text).token)

pub get_token-InLine : (tail text : List ℕ) → All IsPlain text → InLine tail text
unfolding get_token
get_token-InLine tail [] p = inl (unfold dispatch single in refl)
get_token-InLine tail (c ∷ cs) p = elim (Bool-cases (is_white_space c)) [
  | inl w ↦ rw w (get_token-InLine tail cs p.1)
  | inr w ↦ rw w (inr (dispatch-append tail c cs p.1, plain-IsInner c cs p.0 w))
]

-- What every byte of the stream has, every byte of the rest has.
module _ (P : ℕ → Type 0) where
  digits-All :
      (token : Token) (room : ℕ) (cs : List ℕ) → All P cs → All P (digits token room cs).rest
  unfolding digits
  digits-All token zero cs p = p
  digits-All token (suc room) [] p = p
  digits-All token (suc room) (c ∷ cs) p = elim (Bool-cases (is_digit c)) [
    | inl e ↦ rw e (digits-All token room cs p.1)
    | inr e ↦ rw e p
  ]

  letters-All : (cs : List ℕ) → All P cs → All P (letters cs).rest
  unfolding letters
  letters-All [] p = p
  letters-All (c ∷ cs) p = elim (Bool-cases (is_letter c || c == b'_')) [
    | inl e ↦ rw e (letters-All cs p.1)
    | inr e ↦ rw e p
  ]

  quoted-All : (room : ℕ) (cs : List ℕ) → All P cs → All P (quoted room cs).rest
  unfolding quoted
  quoted-All room [] p = p
  quoted-All zero (c ∷ cs) p = elim (Bool-cases (c == b'\n')) [ inl e ↦ rw e p | inr e ↦ rw e p.1 ]
  quoted-All (suc room) (c ∷ cs) p = elim (Bool-cases (c == b'"')) [
    | inl e ↦ rw e p.1
    | inr q ↦
        rw q (elim (Bool-cases (c == b'\n')) [
          | inl e ↦ rw e p
          | inr e ↦ rw e (quoted-All room cs p.1)
        ])
  ]

  after_minus-All : (cs : List ℕ) → All P cs → All P (after_minus true cs).rest
  unfolding after_minus
  after_minus-All [] p = p
  after_minus-All (c ∷ cs) p = elim (Bool-cases (is_digit c)) [
    | inl e ↦ rw e (digits-All word 69 (c ∷ cs) p)
    | inr e ↦ rw e p
  ]

  scan_value-All : (c : ℕ) (cs : List ℕ) → All P (c ∷ cs) → All P (scan_value true c cs).rest
  unfolding scan_value
  scan_value-All c cs p = elim (Bool-cases (c == b'-')) [
    | inl e ↦ rw e (after_minus-All cs p.1)
    | inr e ↦ rw e (elim (Bool-cases (is_digit c)) [
      | inl d ↦ rw d (digits-All word 70 (c ∷ cs) p)
      | inr d ↦ rw d (elim (Bool-cases (c == b'"')) [
        | inl q ↦ rw q (quoted-All 70 cs p.1)
        | inr q ↦ rw q (elim (Bool-cases (is_letter c)) [
          | inl l ↦ rw l (letters-All (c ∷ cs) p)
          | inr l ↦ rw l p.1
        ])
      ])
    ])
  ]

  dispatch-All :
      (t : Token) (c : ℕ) (cs : List ℕ) → All P (c ∷ cs) → All P (dispatch t true c cs).rest
  unfolding dispatch
  dispatch-All eof c cs p = scan_value-All c cs p
  dispatch-All _ c cs p = p.1

  pub get_token-All : (cs : List ℕ) → All P cs → All P (get_token true cs).rest
  unfolding get_token
  get_token-All [] p = p
  get_token-All (c ∷ cs) p = elim (Bool-cases (is_white_space c)) [
    | inl w ↦ rw w (get_token-All cs p.1)
    | inr w ↦ rw w (dispatch-All (single c) c cs p)
  ]
