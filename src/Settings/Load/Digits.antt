-- ===== src/Settings/Load/Digits.antt =====
-- A number in decimal digits, and what `atoi` makes of it.
use game_login.Base.{
  ℕ, zero, suc, ◌+◌, ◌*◌, ◌/◌, ◌%◌, ◌^◌, ◌<◌, ◌≤◌, ◌≡◌, ap, true, ◌∙◌, List, [], ◌∷◌, ltb, arith,
  if◌then◌else◌, length, All, Bool-cases, inl, inr,
}
use game_login.Ip.Ranges.Parse.{strtol, is_digit, digits_value}
use game_login.Settings.Tokens.Pieces.{IsDigit}

-- The first digit and the others, of a number below `10 ^ (places + 1)`, in front of `ds`.
pub leading : ℕ → ℕ → List ℕ → ℕ × List ℕ
leading zero n ds = (b'0' + n, ds)
leading (suc places) n ds =
    let more = leading places (n / 10) ((b'0' + n % 10) ∷ ds) in
    if ltb n 10 then (b'0' + n, ds) else more

pub decimal : ℕ → ℕ × List ℕ
decimal n = leading 10 n []

abbrev limit : ℕ → ℕ
limit zero = 10
limit (suc places) = 10 * limit places

is_digit_add : (n : ℕ) → n < 10 → is_digit (b'0' + n) ≡ true
is_digit_add n h = ground arith

digits_value-leading :
    (places n : ℕ) (ds : List ℕ)
    → n < limit places
    → (let p = leading places n ds in digits_value 0 (p.0 ∷ p.1)) ≡ digits_value n ds
unfolding leading
digits_value-leading zero n ds h =
    rw (is_digit_add n h) (ap (λ (v : ℕ). digits_value v ds) (omega arith))
digits_value-leading (suc places) n ds h = elim (Bool-cases (ltb n 10)) [
  | inl small ↦
      rw small
        (rw (is_digit_add n (ground arith)) (ap (λ (v : ℕ). digits_value v ds) (omega arith)))
  | inr large ↦ rw large (
      digits_value-leading places (n / 10) ((b'0' + n % 10) ∷ ds) (omega arith)
      ∙ rw (is_digit_add (n % 10) (omega arith)) (ap (λ (v : ℕ). digits_value v ds) (omega arith)))
]

leading-IsDigit :
    (places n : ℕ) (ds : List ℕ)
    → n < limit places
    → All IsDigit ds
    → (let p = leading places n ds in All IsDigit (p.0 ∷ p.1))
unfolding leading
leading-IsDigit zero n ds h hs = (ground arith, hs)
leading-IsDigit (suc places) n ds h hs = elim (Bool-cases (ltb n 10)) [
  | inl small ↦ rw small (ground arith, hs)
  | inr large ↦
      rw large
        (leading-IsDigit places (n / 10) ((b'0' + n % 10) ∷ ds) (omega arith) (ground arith, hs))
]

length-leading : (places n : ℕ) (ds : List ℕ) → length (leading places n ds).1 ≤ places + length ds
unfolding leading
length-leading zero n ds = omega arith
length-leading (suc places) n ds =
    ground (arith, length-leading places (n / 10) ((b'0' + n % 10) ∷ ds))

pub decimal-IsDigit : (n : ℕ) → n < 2 ^ 31 → (let p = decimal n in All IsDigit (p.0 ∷ p.1))
unfolding decimal
decimal-IsDigit n h = leading-IsDigit 10 n [] (omega arith) tt

pub length-decimal : (n : ℕ) → length (decimal n).1 ≤ 10
unfolding decimal
length-decimal n = omega (arith, length-leading 10 n [])

strtol-digits :
    (d : ℕ) (ds : List ℕ)
    → IsDigit d
    → (digits_value 0 (d ∷ ds)).0 < 2 ^ 31
    → (strtol (d ∷ ds)).0 ≡ (digits_value 0 (d ∷ ds)).0
unfolding strtol
strtol-digits d ds h small = ground arith

pub strtol-decimal : (n : ℕ) → n < 2 ^ 31 → (let p = decimal n in (strtol (p.0 ∷ p.1)).0) ≡ n
unfolding decimal
strtol-decimal n h =
    let value = digits_value-leading 10 n [] (omega arith) in
    strtol-digits _ _ (decimal-IsDigit n h).0 (rw value (omega arith))
    ∙ ap (λ (p : ℕ × List ℕ). p.0) value
