-- ===== src/Cipher/Blowfish/Feistel.antt =====
-- One block: deciphering undoes enciphering for every key, and words stay within 32 bits.
use game_login.Base.{
  ℕ, zero, suc, ◌^◌, ◌<◌, bit_xor, ◌≡◌, refl, ap, List, [], ◌∷◌, ◌++◌, arith, get_or, All,
}
use game_login.Base.Xor.{bit_xor_cancel, bit_xor-lt}
use game_login.Cipher.Blowfish.{Matrix, f, round, rounds, forward, backward, encipher, decipher}
use mathlib.Core.List.{reverse, reverse-cons}

rounds-append :
    (m : Matrix) (xs ys : List ℕ) (a b : ℕ)
    → rounds m (xs ++ ys) a b ≡ rounds m ys (rounds m xs a b).0 (rounds m xs a b).1
unfolding rounds
rounds-append m [] ys a b = refl
rounds-append m (x ∷ xs) ys a b = rounds-append m xs ys (round m b a x) a

-- The rounds in the opposite order, from the words the other way about, lead back.
rounds-reverse :
    (m : Matrix) (ns : List ℕ) (a b : ℕ)
    → rounds m (reverse ns) (rounds m ns a b).1 (rounds m ns a b).0 ≡ (b, a)
unfolding rounds round
rounds-reverse m [] a b = refl
rounds-reverse m (n ∷ ns) a b =
    rw
      (
        reverse-cons n ns,
        rounds-append m (reverse ns) (n ∷ []),
        rounds-reverse m ns (round m b a n) a,
      )
      (ap (λ t. (t, a)) (bit_xor_cancel b (bit_xor (f m a) (get_or m.p n 0))))

-- Every block: deciphering undoes enciphering under the same matrix, whatever its entries.
pub decipher-encipher :
    (m : Matrix) (xl xr : ℕ) → let (l, r) = encipher m xl xr in decipher m l r ≡ (xl, xr)
unfolding encipher decipher
decipher-encipher m xl xr =
    let start = bit_xor xl (get_or m.p 0 0) in
    let undone : rounds m backward (rounds m forward start xr).1 (rounds m forward start xr).0
        ≡ (xr, start) =
      rounds-reverse m forward start xr in
    rw (bit_xor_cancel (rounds m forward start xr).1 (get_or m.p 17 0), undone)
      (ap (λ t. (t, xr)) (bit_xor_cancel xl (get_or m.p 0 0)))

-- The subkeys are 32 bit words.
abbrev pub IsWords : List ℕ → Type 0
IsWords ws = All (λ w. w < 2 ^ 32) ws

pub get_or-lt : (ws : List ℕ) (n : ℕ) → IsWords ws → get_or ws n 0 < 2 ^ 32
get_or-lt [] n h = omega arith
get_or-lt (w ∷ ws) zero h = h.0
get_or-lt (w ∷ ws) (suc n) h = get_or-lt ws n h.1

f-lt : (m : Matrix) (x : ℕ) → f m x < 2 ^ 32
unfolding f
f-lt m x = omega arith

round-lt : (m : Matrix) (a b n : ℕ) → IsWords m.p → a < 2 ^ 32 → round m a b n < 2 ^ 32
unfolding round
round-lt m a b n h ha =
    bit_xor-lt 32 a _ ha (bit_xor-lt 32 (f m b) (get_or m.p n 0) (f-lt m b) (get_or-lt m.p n h))

rounds-lt :
    (m : Matrix) (ns : List ℕ) (a b : ℕ)
    → IsWords m.p
    → a < 2 ^ 32
    → b < 2 ^ 32
    → ((rounds m ns a b).0 < 2 ^ 32) × ((rounds m ns a b).1 < 2 ^ 32)
unfolding rounds
rounds-lt m [] a b h ha hb = (ha, hb)
rounds-lt m (n ∷ ns) a b h ha hb = rounds-lt m ns (round m b a n) a h (round-lt m b a n h hb) ha

pub encipher-lt :
    (m : Matrix) (xl xr : ℕ)
    → IsWords m.p
    → xl < 2 ^ 32
    → xr < 2 ^ 32
    → ((encipher m xl xr).0 < 2 ^ 32) × ((encipher m xl xr).1 < 2 ^ 32)
unfolding encipher
encipher-lt m xl xr h hl hr =
    let start = bit_xor xl (get_or m.p 0 0) in
    let (l, r) = rounds-lt m forward start xr h (bit_xor-lt 32 xl _ hl (get_or-lt m.p 0 h)) hr in
    (bit_xor-lt 32 _ _ r (get_or-lt m.p 17 h), l)
