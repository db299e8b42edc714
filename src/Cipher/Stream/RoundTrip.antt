-- ===== src/Cipher/Stream/RoundTrip.antt =====
-- Decryption undoes encryption, for one packet and for a whole connection.
use mathlib.Core.Option as Opt
use game_login.Base.{
  ℕ, zero, suc, ◌+◌, ◌-◌, ◌≤◌, ◌<◌, bit_xor, ◌≡◌, refl, ap, Bool, true, false, List, [], ◌∷◌,
  Option, none, some, arith, length, All,
}
use game_login.Base.Xor.{bit_xor_cancel, bit_xor_assoc, bit_xor_comm}
use game_login.Cipher.Stream.{
  key_byte, encrypt_rest, decrypt_rest, advance, encrypt_bytes, decrypt_bytes, encrypt, decrypt,
}

unmask : (x prev k : ℕ) → bit_xor (bit_xor (bit_xor (bit_xor x prev) k) prev) k ≡ x
unmask x prev k =
    rw
      (
        bit_xor_assoc (bit_xor x prev) k prev,
        bit_xor_comm k prev,
        ← bit_xor_assoc (bit_xor x prev) prev k,
      )
      (rw (bit_xor_cancel x prev) (bit_xor_cancel x k))

-- The encrypted form of `buf`, and the way back.
abbrev Undone : Option (List ℕ) → (List ℕ → Option (List ℕ)) → List ℕ → Type 0
Undone sealed opens buf =
    (out : List ℕ) × (sealed ≡ some out) × (length out ≡ length buf) × (opens out ≡ some buf)

rest-Undone :
    (key left i prev : ℕ) (buf : List ℕ)
    → left ≤ length buf
    → Undone (encrypt_rest key left i prev buf) (decrypt_rest key left i prev) buf
unfolding encrypt_rest decrypt_rest
rest-Undone key zero i prev buf fits = (buf, refl, refl, refl)
rest-Undone key (suc left) i prev [] fits = absurd (omega arith)
rest-Undone key (suc left) i prev (x ∷ xs) fits =
    let y = bit_xor (bit_xor x prev) (key_byte key i) in
    let (out, e, len, d) = rest-Undone key left (i + 1) y xs (omega arith) in
    (y ∷ out, rw e, ap suc len, rw (d, unmask x prev (key_byte key i)))

bytes-Undone :
    (key len : ℕ) (buf : List ℕ)
    → 0 < length buf
    → len ≤ length buf
    → Undone (encrypt_bytes key len buf) (decrypt_bytes key len) buf
unfolding encrypt_bytes decrypt_bytes
bytes-Undone key len [] some_byte fits = absurd (omega arith)
bytes-Undone key len (x ∷ xs) some_byte fits =
    let y = bit_xor x (key_byte key 0) in
    let (out, e, same, d) = rest-Undone key (len - 1) 1 y xs (omega arith) in
    (y ∷ out, rw e, ap suc same, rw (d, bit_xor_cancel x (key_byte key 0)))

-- Whether or not the configuration encrypts, a packet that fits its buffer, of at least a byte, is
-- encrypted into a buffer of the same length, from which `decrypt` under the same key gets the
-- packet back; both sides are left with one key.
pub decrypt-encrypt :
    (on : Bool) (buf : List ℕ) (key len : ℕ)
    → 0 < length buf
    → len ≤ length buf
    → (out : List ℕ) × (next : ℕ) × (encrypt on buf key len ≡ some (out, next))
      × (length out ≡ length buf)
      × (decrypt on out key len ≡ some (buf, next))
unfolding encrypt decrypt
decrypt-encrypt false buf key len some_byte fits = (buf, key, refl, refl, refl)
decrypt-encrypt true buf key len some_byte fits =
    let (out, e, same, d) = bytes-Undone key len buf some_byte fits in
    (out, advance key len, rw e, same, rw d)

-- A connection: each packet goes under the key that the one before it left.
pub encrypt_all : Bool → ℕ → List (List ℕ) → Option (List (List ℕ) × ℕ)
encrypt_all on key [] = some ([], key)
encrypt_all on key (p ∷ ps) = elim (encrypt on p key (length p)) [
  | none ↦ none
  | some (out, next) ↦
      Opt.map (λ (r : List (List ℕ) × ℕ). (out ∷ r.0, r.1)) (encrypt_all on next ps)
]

pub decrypt_all : Bool → ℕ → List (List ℕ) → Option (List (List ℕ) × ℕ)
decrypt_all on key [] = some ([], key)
decrypt_all on key (p ∷ ps) = elim (decrypt on p key (length p)) [
  | none ↦ none
  | some (out, next) ↦
      Opt.map (λ (r : List (List ℕ) × ℕ). (out ∷ r.0, r.1)) (decrypt_all on next ps)
]

-- Over a whole connection of nonempty packets, the receiver that starts from the sender's key gets
-- every packet back, in order, and ends on the sender's key.
pub decrypt_all-encrypt_all :
    (on : Bool) (key : ℕ) (ps : List (List ℕ))
    → All (λ p. 0 < length p) ps
    → (sent : List (List ℕ)) × (last : ℕ) × (encrypt_all on key ps ≡ some (sent, last))
      × (decrypt_all on key sent ≡ some (ps, last))
unfolding encrypt_all decrypt_all
decrypt_all-encrypt_all on key [] h = ([], key, refl, refl)
decrypt_all-encrypt_all on key (p ∷ ps) h =
    let (out, next, e, same, d) = decrypt-encrypt on p key (length p) h.0 (omega arith) in
    let (sent, last, es, ds) = decrypt_all-encrypt_all on next ps h.1 in
    (out ∷ sent, last, rw (e, encrypt_all, es), rw (decrypt_all, same, d, ds))
