-- ===== src/Cipher/Packet.antt =====
-- `BlowFishEncryptPacket` and `BlowFishDecryptPacket` of src/AuthServer/util.cpp: a packet padded
-- to blocks of eight bytes, with the exclusive or of its words in the block behind it. `none` is an
-- access past the end of the buffer; the `key` argument, which neither function uses, is left out.
pub mod Checksum
pub mod RoundTrip
use mathlib.Core.Option as Opt
use game_login.Base.{
  ℕ, zero, suc, ◌+◌, ◌-◌, ◌*◌, ◌/◌, ◌%◌, ◌^◌, bit_xor, Bool, true, false, List, [], ◌∷◌, Option,
  none, some, ◌==◌,
}
use game_login.Cipher.Blowfish.{Matrix, blowfish_encrypt, blowfish_decrypt}
use game_login.Cipher.Blowfish.Words.{word, bytes}

infixl 5 ◌>>=◌
abbrev ◌>>=◌ {ℓ κ} : {A : Type ℓ} {B : Type κ} → Option A → (A → Option B) → Option B
none >>= k = none
some a >>= k = k a

-- The loop that folds the first words of the buffer into `checkSum`.
pub xor_words : ℕ → ℕ → List ℕ → Option ℕ
xor_words zero acc buf = some acc
xor_words (suc n) acc (a ∷ b ∷ c ∷ d ∷ rest) = xor_words n (bit_xor acc (word a b c d)) rest
xor_words (suc n) acc _ = none

-- `intPtr[i]`, read and written.
pub get_word : ℕ → List ℕ → Option ℕ
get_word zero (a ∷ b ∷ c ∷ d ∷ rest) = some (word a b c d)
get_word (suc i) (a ∷ b ∷ c ∷ d ∷ rest) = get_word i rest
get_word _ _ = none

pub put_word : ℕ → ℕ → List ℕ → Option (List ℕ)
put_word zero w (a ∷ b ∷ c ∷ d ∷ rest) = some (bytes w rest)
put_word (suc i) w (a ∷ b ∷ c ∷ d ∷ rest) = Opt.map (λ out. a ∷ b ∷ c ∷ d ∷ out) (put_word i w rest)
put_word _ w _ = none

-- `(len + 7) & 0xfffffff8`.
unfoldable pub padded : ℕ → ℕ
padded len = (len + 7) / 8 * 8

-- The buffer to be encrypted, the checksum in it.
pub sealed : List ℕ → ℕ → Option (List ℕ)
sealed buf len = do
  sum ← xor_words (padded len / 2 ^ 2) 0 buf
  put_word (padded len / 2 ^ 2) sum buf

-- The result is the buffer and the new `len`.
pub encrypt_packet : Matrix → List ℕ → ℕ → Option (List ℕ × ℕ)
encrypt_packet m buf len = do
  plain ← sealed buf len
  out ← blowfish_encrypt m plain (padded len + 8)
  some (out, padded len + 8)

-- The comparison of the checksum; at `len` 0 the count is negative and the loop makes no round.
pub verify : List ℕ → ℕ → Option Bool
verify plain len = do
  sum ← xor_words ((len - 8) / 2 ^ 2) 0 plain
  kept ← get_word ((len - 8) / 2 ^ 2) plain
  some (kept == sum)

-- The result is the buffer, decrypted unless the length was refused, and the answer.
pub decrypt_packet : Matrix → List ℕ → ℕ → Option (List ℕ × Bool)
decrypt_packet m buf len = elim (len % 8 == 0) [
  | false ↦ some (buf, false)
  | true ↦ do plain ← blowfish_decrypt m buf len; good ← verify plain len; some (plain, good)
]
