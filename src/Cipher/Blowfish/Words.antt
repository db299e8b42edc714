-- ===== src/Cipher/Blowfish/Words.antt =====
-- A 32 bit word in a byte buffer, lowest byte first, as the x86 target of the program lays it out.
use game_login.Base.{ℕ, ◌+◌, ◌*◌, ◌/◌, ◌%◌, ◌^◌, ◌<◌, ◌≡◌, List, ◌∷◌, arith, All}

pub word : ℕ → ℕ → ℕ → ℕ → ℕ
word a b c d = a + b * 2 ^ 8 + c * 2 ^ 16 + d * 2 ^ 24

-- The bytes of a word, in front of what follows it.
abbrev pub bytes : ℕ → List ℕ → List ℕ
bytes w rest = (w % 256) ∷ (w / 2 ^ 8 % 256) ∷ (w / 2 ^ 16 % 256) ∷ (w / 2 ^ 24 % 256) ∷ rest

abbrev pub IsBytes : List ℕ → Type 0
IsBytes buf = All (λ b. b < 256) buf

pub word_bytes :
    (w : ℕ)
    → w < 2 ^ 32
    → word (w % 256) (w / 2 ^ 8 % 256) (w / 2 ^ 16 % 256) (w / 2 ^ 24 % 256) ≡ w
unfolding word
word_bytes w h = omega arith

pub short_bytes : (w : ℕ) → w < 2 ^ 16 → word (w % 256) (w / 2 ^ 8 % 256) 0 0 ≡ w
unfolding word
short_bytes w h = omega arith

pub word-lt : (a b c d : ℕ) → a < 256 → b < 256 → c < 256 → d < 256 → word a b c d < 2 ^ 32
unfolding word
word-lt a b c d p q r s = omega arith

pub word_byte0 : (a b c d : ℕ) → a < 256 → b < 256 → c < 256 → d < 256 → word a b c d % 256 ≡ a
unfolding word
word_byte0 a b c d p q r s = omega arith

pub word_byte1 :
    (a b c d : ℕ) → a < 256 → b < 256 → c < 256 → d < 256 → word a b c d / 2 ^ 8 % 256 ≡ b
unfolding word
word_byte1 a b c d p q r s = omega arith

pub word_byte2 :
    (a b c d : ℕ) → a < 256 → b < 256 → c < 256 → d < 256 → word a b c d / 2 ^ 16 % 256 ≡ c
unfolding word
word_byte2 a b c d p q r s = omega arith

pub word_byte3 :
    (a b c d : ℕ) → a < 256 → b < 256 → c < 256 → d < 256 → word a b c d / 2 ^ 24 % 256 ≡ d
unfolding word
word_byte3 a b c d p q r s = omega arith
