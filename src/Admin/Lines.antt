-- ===== src/Admin/Lines.antt =====
-- The lines of a stream of bytes, in whatever segments it comes.
use game_login.Base.{
  ℕ, ◌+◌, ◌≤◌, ◌≡◌, refl, sym, ap, ◌∙◌, Bool, true, false, ◌||◌, List, [], ◌∷◌, ◌++◌, append_assoc,
  append-nil, ◌==◌, leb, arith, length, length-append, if◌then◌else◌, Bool-cases, inl, inr, All,
}
use game_login.Admin.{Split, also_line, split, on_read}

-- What is left of earlier bytes: the start of a line.
abbrev pub IsLeft : List ℕ → Type 0
IsLeft left = (length left ≤ 255) × All (λ b. (b == b'\n') ≡ false) left

abbrev pub also_lines : List (List ℕ) → Split → Split
also_lines lines s = record s { lines = lines ++ s.lines }

split-append :
    (line xs ys : List ℕ)
    → split line (xs ++ ys) ≡ also_lines (split line xs).lines (split (split line xs).left ys)
unfolding split
split-append line [] ys = refl
split-append line (b ∷ xs) ys = elim (Bool-cases (leb 255 (length line) || b == b'\n')) [
  | inl e ↦ rw e (ap (also_line line) (split-append [] xs ys))
  | inr e ↦ rw e (split-append (line ++ b ∷ []) xs ys)
]

-- Reading the bytes left over again changes nothing.
split_left :
    (line left ys : List ℕ)
    → length line + length left ≤ 255
    → All (λ b. (b == b'\n') ≡ false) left
    → split line (left ++ ys) ≡ split (line ++ left) ys
unfolding split
split_left line [] ys h p = rw append-nil refl
split_left line (b ∷ left) ys h p =
    let same : (leb 255 (length line) || b == b'\n') ≡ false = ground (arith, p.0) in
    rw same (
      split_left (line ++ b ∷ []) left ys (omega (arith, length-append line (b ∷ []))) p.1
      ∙ ap (λ l. split l ys) (append_assoc line (b ∷ []) left))

All-append :
    (xs : List ℕ) (b : ℕ)
    → All (λ b. (b == b'\n') ≡ false) xs
    → (b == b'\n') ≡ false
    → All (λ b. (b == b'\n') ≡ false) (xs ++ b ∷ [])
All-append [] b h p = (p, tt)
All-append (x ∷ xs) b h p = (h.0, All-append xs b h.1 p)

split-IsLeft : (line bs : List ℕ) → IsLeft line → IsLeft (split line bs).left
unfolding split
split-IsLeft line [] h = h
split-IsLeft line (b ∷ bs) h = elim (Bool-cases (leb 255 (length line) || b == b'\n')) [
  | inl e ↦ rw e (split-IsLeft [] bs (omega arith, tt))
  | inr e ↦ rw e (
      split-IsLeft (line ++ b ∷ []) bs
        (ground (arith, length-append line (b ∷ [])), All-append line b h.1 (ground arith)))
]

-- The segments of a connection, one `OnRead` for each.
pub receive : Split → List (List ℕ) → Split
receive s [] = s
receive s (seg ∷ segs) = receive (also_lines s.lines (on_read s.left seg)) segs

abbrev pub flatten : List (List ℕ) → List ℕ
flatten [] = []
flatten (s ∷ ss) = s ++ flatten ss

receive_from :
    (seen : List ℕ) (segs : List (List ℕ))
    → receive (split [] seen) segs ≡ split [] (seen ++ flatten segs)
unfolding receive on_read
receive_from seen [] = rw append-nil refl
receive_from seen (seg ∷ segs) =
    let s = split [] seen in
    let ok = split-IsLeft [] seen (omega arith, tt) in
    ap (λ t. receive (also_lines s.lines t) segs)
      (split_left [] s.left seg (omega (arith, ok.0)) ok.1)
    ∙ ap (λ t. receive t segs) (sym (split-append [] seen seg))
    ∙ receive_from (seen ++ seg) segs
    ∙ ap (split []) (append_assoc seen seg (flatten segs))

-- On a new socket the lines do not depend on the segments.
pub receive_segments :
    (segs : List (List ℕ))
    → receive (record { lines = []; left = [] }) segs ≡ split [] (flatten segs)
receive_segments segs = start segs ∙ receive_from [] segs
  where
    start :
        (segs : List (List ℕ))
        → receive (record { lines = []; left = [] }) segs ≡ receive (split [] []) segs
    start segs = unfold split in refl

-- A line that is at the front.
pub split_line :
    (before line rest : List ℕ)
    → length before + length line ≤ 255
    → All (λ b. (b == b'\n') ≡ false) line
    → split before (line ++ b'\n' ∷ rest) ≡ also_line (before ++ line) (split [] rest)
unfolding split
split_line before line rest h p =
    split_left before line (b'\n' ∷ rest) h p ∙ ended (leb 255 (length (before ++ line)))
  where
    ended :
        (long : Bool)
        → (if long || true
            then also_line (before ++ line) (split [] rest)
            else split ((before ++ line) ++ b'\n' ∷ []) rest)
          ≡ also_line (before ++ line) (split [] rest)
    ended true = refl
    ended false = refl
