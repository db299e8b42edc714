-- ===== src/Cipher/Stream.antt =====
-- `Encrypt` and `Decrypt` of src/AuthServer/util.cpp: the byte chain under an eight byte key that
-- moves on by the length of each packet. `none` is an access past the end of the buffer.
pub mod RoundTrip
use mathlib.Core.Option as Opt
use game_login.Base.{
  ℕ, zero, suc, ◌+◌, ◌-◌, ◌*◌, ◌/◌, ◌%◌, ◌^◌, bit_xor, Bool, true, false, List, [], ◌∷◌, Option,
  none, some,
}

-- `((char *)(&key))[i & 7]`, lowest byte first.
unfoldable pub key_byte : ℕ → ℕ → ℕ
key_byte key i = key / 2 ^ (8 * (i % 8)) % 256

-- The loop at index `i`; `prev` is `buf[i - 1]`, already encrypted.
unfoldable pub encrypt_rest : ℕ → ℕ → ℕ → ℕ → List ℕ → Option (List ℕ)
encrypt_rest key zero i prev buf = some buf
encrypt_rest key (suc left) i prev [] = none
encrypt_rest key (suc left) i prev (x ∷ xs) =
    let y = bit_xor (bit_xor x prev) (key_byte key i) in
    Opt.map (λ ys. y ∷ ys) (encrypt_rest key left (i + 1) y xs)

-- The loop at index `i`; `source` is `buf[i - 1]` as it was before it was decrypted.
pub decrypt_rest : ℕ → ℕ → ℕ → ℕ → List ℕ → Option (List ℕ)
decrypt_rest key zero i source buf = some buf
decrypt_rest key (suc left) i source [] = none
decrypt_rest key (suc left) i source (y ∷ ys) =
    let x = bit_xor (bit_xor y source) (key_byte key i) in
    Opt.map (λ xs. x ∷ xs) (decrypt_rest key left (i + 1) y ys)

-- `key += length` on an `__int64`.
unfoldable pub advance : ℕ → ℕ → ℕ
advance key len = (key + len) % 2 ^ 64

-- `buf[0]` is changed at every length, zero too.
unfoldable pub encrypt_bytes : ℕ → ℕ → List ℕ → Option (List ℕ)
encrypt_bytes key len [] = none
encrypt_bytes key len (x ∷ xs) =
    let y = bit_xor x (key_byte key 0) in Opt.map (λ ys. y ∷ ys) (encrypt_rest key (len - 1) 1 y xs)

pub decrypt_bytes : ℕ → ℕ → List ℕ → Option (List ℕ)
decrypt_bytes key len [] = none
decrypt_bytes key len (y ∷ ys) =
    let x = bit_xor y (key_byte key 0) in Opt.map (λ xs. x ∷ xs) (decrypt_rest key (len - 1) 1 y ys)

-- The first argument is `config.encrypt`; the result is the buffer and the key.
unfoldable pub encrypt : Bool → List ℕ → ℕ → ℕ → Option (List ℕ × ℕ)
encrypt false buf key len = some (buf, key)
encrypt true buf key len = Opt.map (λ out. (out, advance key len)) (encrypt_bytes key len buf)

-- `Decrypt` always answers `true`, so only the buffer and the key are kept.
pub decrypt : Bool → List ℕ → ℕ → ℕ → Option (List ℕ × ℕ)
decrypt false buf key len = some (buf, key)
decrypt true buf key len = Opt.map (λ out. (out, advance key len)) (decrypt_bytes key len buf)
