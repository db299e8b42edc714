-- ===== src/Examples/Ciphers.antt =====
-- The ciphers at concrete inputs.
use game_login.Base.{ℕ, ◌≡◌, refl, true, List, [], ◌∷◌, some, arith, replicate}
use game_login.Cipher.Stream.{encrypt, advance, encrypt_bytes, encrypt_rest, key_byte}
use game_login.Cipher.Stream.RoundTrip.{encrypt_all, decrypt_all, decrypt_all-encrypt_all}
use game_login.Cipher.Blowfish.{Matrix, blowfish_encrypt, blowfish_decrypt}
use game_login.Cipher.Blowfish.Blocks.{Undone, blowfish_decrypt-blowfish_encrypt}
use game_login.Cipher.Blowfish.Init.{initialize_blowfish}
use game_login.Cipher.Packet.{padded}
use game_login.Cipher.Packet.RoundTrip.{IsExchanged, decrypt_packet-encrypt_packet}

abbrev key : List ℕ
key = b'k' ∷ b'e' ∷ b'y' ∷ b'1' ∷ []

-- Three bytes in a buffer with room for the padding and a block.
abbrev buffer : List ℕ
buffer = 1 ∷ 2 ∷ 3 ∷ replicate 13 0

abbrev small_matrix : Matrix
small_matrix = record {
  p = 7 ∷ 11 ∷ 13 ∷ [];
  s0 = 1 ∷ 2 ∷ [];
  s1 = 3 ∷ 4 ∷ [];
  s2 = 5 ∷ 6 ∷ [];
  s3 = 7 ∷ 8 ∷ 9 ∷ [];
}

blowfish_decrypt-blowfish_encrypt_example :
    Undone
      (blowfish_encrypt small_matrix buffer 16)
      (λ out. blowfish_decrypt small_matrix out 16)
      buffer
blowfish_decrypt-blowfish_encrypt_example =
    blowfish_decrypt-blowfish_encrypt small_matrix (omega arith) buffer 16 (omega arith)
      (omega arith)

decrypt_packet-encrypt_packet_example : IsExchanged (initialize_blowfish key 4) buffer 3
decrypt_packet-encrypt_packet_example =
    decrypt_packet-encrypt_packet key 4 buffer 3 (omega arith) (unfold padded in omega arith)
      (omega arith)

abbrev packets : List (List ℕ)
packets = (1 ∷ 2 ∷ []) ∷ (3 ∷ []) ∷ []

decrypt_all-encrypt_all_example :
    (sent : List (List ℕ)) × (last : ℕ) × (encrypt_all true 77 packets ≡ some (sent, last))
    × (decrypt_all true 77 sent ≡ some (packets, last))
decrypt_all-encrypt_all_example = decrypt_all-encrypt_all true 77 packets (omega arith)

-- The second byte is mixed with the encrypted first one, and the key moves on by the length.
encrypt_two_bytes : encrypt true (1 ∷ 2 ∷ []) 256 2 ≡ some (1 ∷ 2 ∷ [], 258)
unfolding encrypt advance encrypt_bytes encrypt_rest key_byte
encrypt_two_bytes = refl
