-- ===== src/Cipher/Blowfish/Blocks.antt =====
-- The block loops over a buffer: decryption gives back the bytes that encryption was given.
use mathlib.Core.Option as Opt
use game_login.Base.{
  ℕ, zero, suc, ◌*◌, ◌/◌, ◌^◌, ◌<◌, ◌≤◌, ◌≡◌, refl, ap, ◌∙◌, List, ◌∷◌, Option, some, arith, length,
}
use game_login.Cipher.Blowfish.{
  Matrix, encipher, decipher, each_block, blowfish_encrypt, blowfish_decrypt,
}
use game_login.Cipher.Blowfish.Words.{
  word, bytes, IsBytes, word_bytes, word-lt, word_byte0, word_byte1, word_byte2, word_byte3,
}
use game_login.Cipher.Blowfish.Feistel.{decipher-encipher, encipher-lt, IsWords}

bytes_word :
    (a b c d : ℕ) (rest : List ℕ)
    → a < 256
    → b < 256
    → c < 256
    → d < 256
    → bytes (word a b c d) rest ≡ a ∷ b ∷ c ∷ d ∷ rest
bytes_word a b c d rest p q r s = rw (
  word_byte0 a b c d p q r s,
  word_byte1 a b c d p q r s,
  word_byte2 a b c d p q r s,
  word_byte3 a b c d p q r s,
)

bytes-IsBytes : (w : ℕ) (rest : List ℕ) → IsBytes rest → IsBytes (bytes w rest)
bytes-IsBytes w rest h = (omega arith, (omega arith, (omega arith, (omega arith, h))))

-- The encrypted buffer, as long as the plain one and of bytes again, and the way back.
abbrev pub Undone : Option (List ℕ) → (List ℕ → Option (List ℕ)) → List ℕ → Type 0
Undone sealed opens buf =
    (out : List ℕ) × (sealed ≡ some out)
    × (length out ≡ length buf)
    × IsBytes out
    × (opens out ≡ some buf)

module _ (m : Matrix) (subkeys : IsWords m.p) where
  decipher_bytes :
      (n l r : ℕ) (rest : List ℕ)
      → l < 2 ^ 32
      → r < 2 ^ 32
      → each_block (decipher m) (suc n) (bytes l (bytes r rest))
        ≡ Opt.map
            (λ out. bytes (decipher m l r).0 (bytes (decipher m l r).1 out))
            (each_block (decipher m) n rest)
  unfolding each_block
  decipher_bytes n l r rest hl hr = rw (word_bytes l hl, word_bytes r hr)

  each_block-Undone :
      (n : ℕ) (buf : List ℕ)
      → 8 * n ≤ length buf
      → IsBytes buf
      → Undone (each_block (encipher m) n buf) (each_block (decipher m) n) buf
  unfolding each_block
  each_block-Undone zero buf fits h = (buf, refl, refl, h, refl)
  each_block-Undone (suc n) (a ∷ b ∷ c ∷ d ∷ a' ∷ b' ∷ c' ∷ d' ∷ rest) fits h =
      let (ha, (hb, (hc, (hd, (ha', (hb', (hc', (hd', hrest)))))))) = h in
      let x = word a b c d in
      let x' = word a' b' c' d' in
      let (l, r) = encipher m x x' in
      let (out, e, same, hout, back) = each_block-Undone n rest (omega arith) hrest in
      let (hl, hr) =
        encipher-lt m x x' subkeys (word-lt a b c d ha hb hc hd)
          (word-lt a' b' c' d' ha' hb' hc' hd') in
      (
        bytes l (bytes r out),
        rw e,
        omega arith,
        bytes-IsBytes l (bytes r out) (bytes-IsBytes r out hout),
        decipher_bytes n l r out hl hr
            ∙ rw (back, decipher-encipher m x x')
                (ap some (
                  bytes_word a b c d _ ha hb hc hd
                  ∙ ap (λ t. a ∷ b ∷ c ∷ d ∷ t) (bytes_word a' b' c' d' rest ha' hb' hc' hd'))),
      )
  each_block-Undone (suc n) _ fits h = absurd (omega arith)

  -- For every matrix whose subkeys have 32 bits, every buffer of bytes and every length that fits
  -- it, the whole blocks within the length are encrypted in place, to as many bytes, and decrypted
  -- again to the same buffer.
  pub blowfish_decrypt-blowfish_encrypt :
      (buf : List ℕ) (len : ℕ)
      → len ≤ length buf
      → IsBytes buf
      → Undone (blowfish_encrypt m buf len) (λ out. blowfish_decrypt m out len) buf
  unfolding blowfish_encrypt blowfish_decrypt
  blowfish_decrypt-blowfish_encrypt buf len fits h =
      each_block-Undone (len / 2 ^ 3) buf (omega arith) h
