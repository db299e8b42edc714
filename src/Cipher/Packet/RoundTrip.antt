-- ===== src/Cipher/Packet/RoundTrip.antt =====
-- A packet that one side encrypts is accepted and restored by the other.
use game_login.Base.{
  ℕ, ◌+◌, ◌-◌, ◌*◌, ◌/◌, ◌%◌, ◌^◌, ◌≤◌, ◌≡◌, true, List, some, arith, length, take,
}
use game_login.Cipher.Blowfish.{Matrix}
use game_login.Cipher.Blowfish.Words.{IsBytes}
use game_login.Cipher.Blowfish.Feistel.{IsWords}
use game_login.Cipher.Blowfish.Blocks.{blowfish_decrypt-blowfish_encrypt}
use game_login.Cipher.Blowfish.Init.{initialize_blowfish, initialize_blowfish-IsWords}
use game_login.Cipher.Packet.{padded, encrypt_packet, verify, decrypt_packet, xor_words}
use game_login.Cipher.Packet.Checksum.{IsPut, sealed-IsPut}

-- What the two sides hold for a packet of `len` bytes in `buf`.
pub record IsExchanged (m : Matrix) (buf : List ℕ) (len : ℕ) : Type 0 where
  pub out : List ℕ
  pub plain : List ℕ
  pub sends : encrypt_packet m buf len ≡ some (out, padded len + 8)
  pub accepts : decrypt_packet m out (padded len + 8) ≡ some (plain, true)
  pub same_length : length plain ≡ length buf
  pub same_bytes : take (padded len) plain ≡ take (padded len) buf

padded_mod : (len : ℕ) → (padded len + 8) % 8 ≡ 0
unfolding padded
padded_mod len = omega arith

padded_words : (len : ℕ) → 4 * (padded len / 2 ^ 2) ≡ padded len
unfolding padded
padded_words len = omega arith

minus_block : (len : ℕ) → padded len + 8 - 8 ≡ padded len
minus_block len = omega arith

verify_sealed :
    (buf plain : List ℕ) (len sum : ℕ)
    → xor_words (padded len / 2 ^ 2) 0 buf ≡ some sum
    → IsPut (padded len / 2 ^ 2) sum buf plain
    → verify plain (padded len + 8) ≡ some true
unfolding verify
verify_sealed buf plain len sum e put =
    rw (minus_block len, put.same_sum 0, e, put.reads) (ground arith)

exchange :
    (m : Matrix) (buf : List ℕ) (len : ℕ)
    → IsWords m.p
    → padded len + 8 ≤ length buf
    → IsBytes buf
    → IsExchanged m buf len
unfolding encrypt_packet decrypt_packet
exchange m buf len subkeys fits h =
    let (plain, sum, seals, e, put) = sealed-IsPut buf len fits h in
    let (out, encrypts, same, _, decrypts) =
      blowfish_decrypt-blowfish_encrypt m subkeys plain (padded len + 8) (rw put.same_length fits)
        put.are_bytes in
    record {
      out = out;
      plain = plain;
      sends = rw (seals, encrypts);
      accepts =
          rw (padded_mod len, decrypt_packet, decrypts, verify_sealed buf plain len sum e put);
      same_length = put.same_length;
      same_bytes = rw (padded_words len) at put.same_bytes;
    }

-- Under the matrix that any key of bytes is set up with, a packet of `len` bytes, in a buffer of
-- bytes that has room for the padding and one more block, is encrypted to `padded len + 8` bytes;
-- the receiver with the same key accepts these, and reads the packet and its padding as they were.
pub decrypt_packet-encrypt_packet :
    (key : List ℕ) (keybytes : ℕ) (buf : List ℕ) (len : ℕ)
    → IsBytes key
    → padded len + 8 ≤ length buf
    → IsBytes buf
    → IsExchanged (initialize_blowfish key keybytes) buf len
decrypt_packet-encrypt_packet key keybytes buf len k fits h =
    exchange (initialize_blowfish key keybytes) buf len (initialize_blowfish-IsWords key keybytes k)
      fits h
