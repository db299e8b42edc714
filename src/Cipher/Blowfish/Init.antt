-- ===== src/Cipher/Blowfish/Init.antt =====
-- `InitializeBlowfish` of src/AuthServer/Blowfish.cpp: the key schedule, and the subkeys it leaves.
use game_login.Base.{
  ℕ, zero, suc, ◌+◌, ◌%◌, ◌^◌, ◌<◌, bit_xor, ◌≡◌, refl, ◌∙◌, List, [], ◌∷◌, arith, get_or, set,
}
use game_login.Base.Xor.{bit_xor-lt}
use game_login.Cipher.Blowfish.{Matrix, encipher}
use game_login.Cipher.Blowfish.TablesLow.{p_source, s_source0, s_source1}
use game_login.Cipher.Blowfish.TablesHigh.{s_source2, s_source3}
use game_login.Cipher.Blowfish.Words.{word, IsBytes, word-lt}
use game_login.Cipher.Blowfish.Feistel.{IsWords, encipher-lt, get_or-lt}

-- Four key bytes from `key[j]` on, around the end of the key; `byte0` is the highest.
pub key_word : List ℕ → ℕ → ℕ → ℕ
key_word key keybytes j =
    word (get_or key ((j + 3) % keybytes) 0) (get_or key ((j + 2) % keybytes) 0)
      (get_or key ((j + 1) % keybytes) 0) (get_or key j 0)

-- The first loop, at `i` and `j` with the rounds left.
pub mix_key : List ℕ → ℕ → ℕ → ℕ → ℕ → List ℕ → List ℕ
mix_key key keybytes zero i j p = p
mix_key key keybytes (suc left) i j p =
    mix_key key keybytes left (i + 1) ((j + 4) % keybytes)
      (set p i (bit_xor (get_or p i 0) (key_word key keybytes j)))

-- The matrix in the making, with `datal` and `datar`.
pub record Fill : Type 0 where
  pub m : Matrix
  pub datal : ℕ
  pub datar : ℕ

pub fill_p : ℕ → ℕ → Fill → Fill
fill_p zero i st = st
fill_p (suc left) i st =
    let (l, r) = encipher st.m st.datal st.datar in
    fill_p left (i + 2)
      (record { m = record (st.m) { p = set (set st.m.p i l) (i + 1) r }; datal = l; datar = r })

-- `bf_S[i][j] = l; bf_S[i][j + 1] = r`.
pub put_box : ℕ → ℕ → ℕ → ℕ → Matrix → Matrix
put_box zero j l r m = record m { s0 = set (set m.s0 j l) (j + 1) r }
put_box (suc zero) j l r m = record m { s1 = set (set m.s1 j l) (j + 1) r }
put_box (suc (suc zero)) j l r m = record m { s2 = set (set m.s2 j l) (j + 1) r }
put_box (suc (suc (suc i))) j l r m = record m { s3 = set (set m.s3 j l) (j + 1) r }

pub fill_box : ℕ → ℕ → ℕ → Fill → Fill
fill_box i zero j st = st
fill_box i (suc left) j st =
    let (l, r) = encipher st.m st.datal st.datar in
    fill_box i left (j + 2) (record { m = put_box i j l r st.m; datal = l; datar = r })

pub fill_boxes : ℕ → ℕ → Fill → Fill
fill_boxes zero i st = st
fill_boxes (suc left) i st = fill_boxes left (i + 1) (fill_box i 128 0 st)

-- The matrix with the key mixed into the subkeys, before the first block is enciphered.
pub keyed : List ℕ → ℕ → Fill
keyed key keybytes = record {
  m = record {
    p = mix_key key keybytes 18 0 0 p_source;
    s0 = s_source0;
    s1 = s_source1;
    s2 = s_source2;
    s3 = s_source3;
  };
  datal = 0;
  datar = 0;
}

pub initialize_blowfish : List ℕ → ℕ → Matrix
initialize_blowfish key keybytes = (fill_boxes 4 0 (fill_p 9 0 (keyed key keybytes))).m

set-IsWords : (ws : List ℕ) (i v : ℕ) → IsWords ws → v < 2 ^ 32 → IsWords (set ws i v)
set-IsWords [] i v h hv = h
set-IsWords (w ∷ ws) zero v h hv = (hv, h.1)
set-IsWords (w ∷ ws) (suc i) v h hv = (h.0, set-IsWords ws i v h.1 hv)

byte-lt : (key : List ℕ) (j : ℕ) → IsBytes key → get_or key j 0 < 256
byte-lt [] j h = omega arith
byte-lt (k ∷ key) zero h = h.0
byte-lt (k ∷ key) (suc j) h = byte-lt key j h.1

key_word-lt : (key : List ℕ) (keybytes j : ℕ) → IsBytes key → key_word key keybytes j < 2 ^ 32
unfolding key_word
key_word-lt key keybytes j h =
    word-lt _ _ _ _ (byte-lt key _ h) (byte-lt key _ h) (byte-lt key _ h) (byte-lt key j h)

mix_key-IsWords :
    (key : List ℕ) (keybytes left i j : ℕ) (p : List ℕ)
    → IsBytes key
    → IsWords p
    → IsWords (mix_key key keybytes left i j p)
unfolding mix_key
mix_key-IsWords key keybytes zero i j p k h = h
mix_key-IsWords key keybytes (suc left) i j p k h =
    mix_key-IsWords key keybytes left (i + 1) ((j + 4) % keybytes) _ k
      (set-IsWords p i _ h (bit_xor-lt 32 _ _ (get_or-lt p i h) (key_word-lt key keybytes j k)))

record FillInv (st : Fill) : Type 0 where
  subkeys : IsWords st.m.p
  left_word : st.datal < 2 ^ 32
  right_word : st.datar < 2 ^ 32

fill_p-FillInv : (left i : ℕ) (st : Fill) → FillInv st → FillInv (fill_p left i st)
unfolding fill_p
fill_p-FillInv zero i st v = v
fill_p-FillInv (suc left) i st v =
    let (l, r) = encipher st.m st.datal st.datar in
    let (hl, hr) = encipher-lt st.m st.datal st.datar v.subkeys v.left_word v.right_word in
    fill_p-FillInv left (i + 2) _ (record {
      subkeys = set-IsWords _ (i + 1) r (set-IsWords st.m.p i l v.subkeys hl) hr;
      left_word = hl;
      right_word = hr;
    })

put_box_keeps : (i j l r : ℕ) (m : Matrix) → (put_box i j l r m).p ≡ m.p
unfolding put_box
put_box_keeps zero j l r m = refl
put_box_keeps (suc zero) j l r m = refl
put_box_keeps (suc (suc zero)) j l r m = refl
put_box_keeps (suc (suc (suc i))) j l r m = refl

fill_box_keeps : (i left j : ℕ) (st : Fill) → (fill_box i left j st).m.p ≡ st.m.p
unfolding fill_box
fill_box_keeps i zero j st = refl
fill_box_keeps i (suc left) j st = fill_box_keeps i left (j + 2) _ ∙ put_box_keeps i j _ _ st.m

fill_boxes_keeps : (left i : ℕ) (st : Fill) → (fill_boxes left i st).m.p ≡ st.m.p
unfolding fill_boxes
fill_boxes_keeps zero i st = refl
fill_boxes_keeps (suc left) i st =
    fill_boxes_keeps left (i + 1) (fill_box i 128 0 st) ∙ fill_box_keeps i 128 0 st

p_source-IsWords : IsWords p_source
unfolding p_source
p_source-IsWords = omega arith

keyed-FillInv : (key : List ℕ) (keybytes : ℕ) → IsBytes key → FillInv (keyed key keybytes)
unfolding keyed
keyed-FillInv key keybytes h = record {
  subkeys = mix_key-IsWords key keybytes 18 0 0 p_source h p_source-IsWords;
  left_word = omega arith;
  right_word = omega arith;
}

-- Whatever the key, of bytes, and the length that is passed with it, the schedule leaves subkeys of
-- 32 bits.
pub initialize_blowfish-IsWords :
    (key : List ℕ) (keybytes : ℕ) → IsBytes key → IsWords (initialize_blowfish key keybytes).p
unfolding initialize_blowfish
initialize_blowfish-IsWords key keybytes h =
    rw (fill_boxes_keeps 4 0 (fill_p 9 0 (keyed key keybytes)))
      (fill_p-FillInv 9 0 (keyed key keybytes) (keyed-FillInv key keybytes h)).subkeys
