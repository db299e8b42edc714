-- ===== src/Cipher/Packet/Checksum.antt =====
-- The checksum word, written behind the words that it sums up.
use game_login.Base.{
  ℕ, zero, suc, ◌+◌, ◌*◌, ◌/◌, ◌^◌, ◌<◌, ◌≤◌, bit_xor, ◌≡◌, refl, ap, List, ◌∷◌, some, arith,
  length, take,
}
use game_login.Base.Xor.{bit_xor-lt}
use game_login.Cipher.Blowfish.Words.{word, bytes, IsBytes, word_bytes, word-lt}
use game_login.Cipher.Packet.{xor_words, get_word, put_word, padded, sealed}

-- A sum of words is a word.
xor_words_total :
    (n acc : ℕ) (buf : List ℕ)
    → 4 * n ≤ length buf
    → IsBytes buf
    → acc < 2 ^ 32
    → (sum : ℕ) × (xor_words n acc buf ≡ some sum) × (sum < 2 ^ 32)
unfolding xor_words
xor_words_total zero acc buf fits h low = (acc, refl, low)
xor_words_total (suc n) acc (a ∷ b ∷ c ∷ d ∷ rest) fits h low =
    let (ha, (hb, (hc, (hd, hrest)))) = h in
    xor_words_total n (bit_xor acc (word a b c d)) rest (omega arith) hrest
      (bit_xor-lt 32 acc _ low (word-lt a b c d ha hb hc hd))
xor_words_total (suc n) acc _ fits h low = absurd (omega arith)

-- What `put_word` leaves: the sum of the words before it, the bytes before it, and the word itself.
pub record IsPut (n w : ℕ) (buf out : List ℕ) : Type 0 where
  pub writes : put_word n w buf ≡ some out
  pub same_length : length out ≡ length buf
  pub are_bytes : IsBytes out
  pub reads : get_word n out ≡ some w
  pub same_sum : (acc : ℕ) → xor_words n acc out ≡ xor_words n acc buf
  pub same_bytes : take (4 * n) out ≡ take (4 * n) buf

checksum_kept :
    (n w : ℕ) (buf : List ℕ)
    → 4 * n + 4 ≤ length buf
    → IsBytes buf
    → w < 2 ^ 32
    → (out : List ℕ) × IsPut n w buf out
unfolding put_word get_word xor_words
checksum_kept zero w (a ∷ b ∷ c ∷ d ∷ rest) fits h low = (
  bytes w rest,
  record {
    writes = refl;
    same_length = refl;
    are_bytes = (omega arith, (omega arith, (omega arith, (omega arith, h.1.1.1.1))));
    reads = ap some (word_bytes w low);
    same_sum = λ acc. refl;
    same_bytes = refl;
  },
)
checksum_kept (suc n) w (a ∷ b ∷ c ∷ d ∷ rest) fits h low =
    let (ha, (hb, (hc, (hd, hrest)))) = h in
    let (out, ih) = checksum_kept n w rest (omega arith) hrest low in
    let four : 4 * suc n ≡ suc (suc (suc (suc (4 * n)))) = omega arith in
    (
      a ∷ b ∷ c ∷ d ∷ out,
      record {
        writes = rw ih.writes;
        same_length = omega (arith, ih.same_length);
        are_bytes = (ha, (hb, (hc, (hd, ih.are_bytes))));
        reads = ih.reads;
        same_sum = λ acc. ih.same_sum (bit_xor acc (word a b c d));
        same_bytes = rw four (ap (λ t. a ∷ b ∷ c ∷ d ∷ t) ih.same_bytes);
      },
    )
checksum_kept _ w _ fits h low = absurd (omega arith)

-- A packet with room for its padding and a further block gets its checksum, and keeps its bytes.
pub sealed-IsPut :
    (buf : List ℕ) (len : ℕ)
    → padded len + 8 ≤ length buf
    → IsBytes buf
    → (plain : List ℕ) × (sum : ℕ) × (sealed buf len ≡ some plain)
      × (xor_words (padded len / 2 ^ 2) 0 buf ≡ some sum)
      × IsPut (padded len / 2 ^ 2) sum buf plain
unfolding sealed
sealed-IsPut buf len fits h =
    let (sum, e, low) = xor_words_total (padded len / 2 ^ 2) 0 buf (omega arith) h (omega arith) in
    let (plain, put) = checksum_kept (padded len / 2 ^ 2) sum buf (omega arith) h low in
    (plain, sum, rw e put.writes, e, put)
