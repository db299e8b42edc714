-- ===== src/Settings/File/Keys.antt =====
-- The map of the settings, whose keys are alike in capitals and small letters.
use game_login.Base.{
  ℕ, ◌≡◌, refl, Bool, true, false, List, [], ◌∷◌, Option, none, some, ◌==◌, arith, Bool-cases, inl,
  inr, if◌then◌else◌,
}
use game_login.Settings.File.{same_text, StringMap, get, insert, c_str}
use game_login.Base.{All}

pub same_text-same : (k : List ℕ) → same_text k k ≡ true
unfolding same_text
same_text-same [] = refl
same_text-same (c ∷ cs) = ground (arith, same_text-same cs)

-- Texts that are alike are alike to the same texts.
pub same_text-congr : (a b c : List ℕ) → same_text a b ≡ true → same_text a c ≡ same_text b c
unfolding same_text
same_text-congr [] [] c h = refl
same_text-congr [] (y ∷ b) c h = cc
same_text-congr (x ∷ a) [] c h = cc
same_text-congr (x ∷ a) (y ∷ b) [] h = refl
same_text-congr (x ∷ a) (y ∷ b) (z ∷ c) h = ground (arith, same_text-congr a b c)

-- The value that a look up gives: the old one if there is one.
abbrev pub or_new : Option (List ℕ) → Bool → List ℕ → Option (List ℕ)
or_new (some old) alike value = some old
or_new none alike value = if alike then some value else none

pub get-insert :
    (key k v : List ℕ) (map : StringMap)
    → get key (insert k v map) ≡ or_new (get key map) (same_text k key) v
unfolding get insert
get-insert key k v [] = refl
get-insert key k v ((j, w) ∷ map) = elim (Bool-cases (same_text j k)) [
  | inl alike ↦ rw alike (
      rw (same_text-congr j k key alike)
        (elim (Bool-cases (same_text k key)) [ inl e ↦ rw e refl | inr e ↦ rw e (ground (arith)) ]))
  | inr other ↦ rw other (elim (Bool-cases (same_text j key)) [
    | inl e ↦ rw e refl
    | inr e ↦ rw e (get-insert key k v map)
  ])
]

-- A text of bytes of which none is 0 is whole.
pub c_str-All :
    (P : ℕ → Type 0) → ((c : ℕ) → P c → (c == 0) ≡ false) → (v : List ℕ) → All P v → c_str v ≡ v
unfolding c_str
c_str-All P some_ [] h = refl
c_str-All P some_ (c ∷ v) h = rw (some_ c h.0) (rw (c_str-All P some_ v h.1) refl)
