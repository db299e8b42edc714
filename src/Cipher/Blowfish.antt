-- ===== src/Cipher/Blowfish.antt =====
-- src/AuthServer/Blowfish.cpp: the round function, one block each way, and the block loops over a
-- buffer of bytes. `none` is an access past the end of the buffer.
pub mod TablesLow
pub mod TablesHigh
pub mod Words
pub mod Feistel
pub mod Blocks
pub mod Init
use mathlib.Core.Option as Opt
use game_login.Base.{
  ℕ, zero, suc, ◌+◌, ◌/◌, ◌%◌, ◌^◌, bit_xor, List, [], ◌∷◌, ◌++◌, Option, none, some, get_or,
}
use Words.{word, bytes}

-- `bf_P` and `bf_S`.
pub record Matrix : Type 0 where
  pub p : List ℕ
  pub s0 : List ℕ
  pub s1 : List ℕ
  pub s2 : List ℕ
  pub s3 : List ℕ

-- `bf_F`: `byte0` of the little endian `aword` is the highest byte, and both sums wrap.
pub f : Matrix → ℕ → ℕ
f m x =
    let sum = (get_or m.s0 (x / 2 ^ 24) 0 + get_or m.s1 (x / 2 ^ 16 % 256) 0) % 2 ^ 32 in
    (bit_xor sum (get_or m.s2 (x / 2 ^ 8 % 256) 0) + get_or m.s3 (x % 256) 0) % 2 ^ 32

-- `ROUND(a, b, n)`, the new value of `a`.
pub round : Matrix → ℕ → ℕ → ℕ → ℕ
round m a b n = bit_xor a (bit_xor (f m b) (get_or m.p n 0))

-- A row of rounds: the word just changed is the source of the next round, which changes the other.
pub rounds : Matrix → List ℕ → ℕ → ℕ → ℕ × ℕ
rounds m [] source target = (source, target)
rounds m (n ∷ ns) source target = rounds m ns (round m target source n) source

abbrev pub forward : List ℕ
forward = 1 ∷ 2 ∷ 3 ∷ 4 ∷ 5 ∷ 6 ∷ 7 ∷ 8 ∷ 9 ∷ 10 ∷ 11 ∷ 12 ∷ 13 ∷ 14 ∷ 15 ∷ 16 ∷ []

abbrev pub backward : List ℕ
backward = 16 ∷ 15 ∷ 14 ∷ 13 ∷ 12 ∷ 11 ∷ 10 ∷ 9 ∷ 8 ∷ 7 ∷ 6 ∷ 5 ∷ 4 ∷ 3 ∷ 2 ∷ 1 ∷ []

-- The pair of results is `*xl` and `*xr`: the words change places at the end.
pub encipher : Matrix → ℕ → ℕ → ℕ × ℕ
encipher m xl xr =
    let (l, r) = rounds m forward (bit_xor xl (get_or m.p 0 0)) xr in
    (bit_xor r (get_or m.p 17 0), l)

pub decipher : Matrix → ℕ → ℕ → ℕ × ℕ
decipher m xl xr =
    let (l, r) = rounds m backward (bit_xor xl (get_or m.p 17 0)) xr in
    (bit_xor r (get_or m.p 0 0), l)

-- The body of both block loops, with the words of a block taken from and put back into its bytes.
pub each_block : (ℕ → ℕ → ℕ × ℕ) → ℕ → List ℕ → Option (List ℕ)
each_block g zero buf = some buf
each_block g (suc n) (a ∷ b ∷ c ∷ d ∷ a' ∷ b' ∷ c' ∷ d' ∷ rest) =
    let (l, r) = g (word a b c d) (word a' b' c' d') in
    Opt.map (λ out. bytes l (bytes r out)) (each_block g n rest)
each_block g (suc n) _ = none

pub blowfish_encrypt : Matrix → List ℕ → ℕ → Option (List ℕ)
blowfish_encrypt m buf len = each_block (encipher m) (len / 2 ^ 3) buf

pub blowfish_decrypt : Matrix → List ℕ → ℕ → Option (List ℕ)
blowfish_decrypt m buf len = each_block (decipher m) (len / 2 ^ 3) buf
