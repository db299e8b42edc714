-- ===== src/Settings/Load/Entries.antt =====
-- The settings that a file gives, one line for each, as the members of `Config` that they are for.
use game_login.Base.{
  ℕ, zero, suc, ◌≤◌, ◌<◌, ◌^◌, ◌≡◌, refl, subst, Bool, true, false, not, ◌&&◌, ◌||◌, List, [], ◌∷◌,
  Option, none, some, leb, ◌==◌, arith, if◌then◌else◌, length, All, get_elem?, Bool-cases, inl, inr,
}
use mathlib.Core.Option as Opt
use game_login.Settings.Tokens.{is_letter, max_token_len}
use game_login.Settings.Tokens.Pieces.{IsWordByte, IsQuotable}
use game_login.Settings.File.{same_text}
use game_login.Settings.File.Keys.{same_text-same}
use game_login.Settings.File.RoundTrip.{Line, quote, count, IsName, IsLine, value_of}
use game_login.Settings.Load.Digits.{decimal, decimal-IsDigit, length-decimal}

pub data Value : Type 0 where
  number : ℕ → Value
  flag : Bool → Value
  text : Option (List ℕ) → Value
  address : ℕ → Value

-- A setting, and the value that a file without its key leaves it with.
pub record Entry : Type 0 where
  pub key : List ℕ
  pub value : Value
  pub default : Value

abbrev pub yes : Bool → List ℕ
yes true = b'y' ∷ b'e' ∷ b's' ∷ []
yes false = b'n' ∷ b'o' ∷ []

-- Whether a text is one that names a setting.
abbrev word_bytes : List ℕ → Bool
word_bytes [] = true
word_bytes (c ∷ cs) = (is_letter c || c == b'_') && word_bytes cs

abbrev word_key : List ℕ → Bool
word_key [] = false
word_key (c ∷ cs) = is_letter c && word_bytes cs && leb (length (c ∷ cs)) max_token_len

abbrev pub word_keys : List Entry → Bool
word_keys [] = true
word_keys (e ∷ es) = word_key e.key && word_keys es

word_bytes-All : (cs : List ℕ) → word_bytes cs ≡ true → All IsWordByte cs
word_bytes-All [] h = tt
word_bytes-All (c ∷ cs) h = (ground arith, word_bytes-All cs (ground arith))

word_key-IsName : (k : List ℕ) → word_key k ≡ true → IsName k
word_key-IsName [] h = cc
word_key-IsName (c ∷ cs) h = ((ground arith, word_bytes-All cs (ground arith)), ground arith)

-- `inet_ntoa` writes an address, and the keys that are `kept` are in the file.
module _ (inet_ntoa : ℕ → List ℕ) (kept : List ℕ → Bool) where
  -- A value that can be written in a line.
  abbrev IsWritable : (List ℕ → ℕ) → Value → Type 0
  IsWritable inet_addr (number n) = n < 2 ^ 31
  IsWritable inet_addr (flag b) = Unit
  IsWritable inet_addr (text none) = Unit
  IsWritable inet_addr (text (some t)) = All IsQuotable t × (length t ≤ max_token_len)
  IsWritable inet_addr (address a) =
      All IsQuotable (inet_ntoa a)
      × (length (inet_ntoa a) ≤ max_token_len)
      × (inet_addr (inet_ntoa a) ≡ a)

  -- A setting is written, or it has its default.
  abbrev pub IsEntry : (List ℕ → ℕ) → Entry → Type 0
  IsEntry inet_addr e =
      (kept e.key ≡ true → IsWritable inet_addr e.value)
      × (kept e.key ≡ false → e.value ≡ e.default)

  -- The text of a value in the file.
  unfoldable pub text_of : Value → Option (List ℕ)
  text_of (number n) = let p = decimal n in some (p.0 ∷ p.1)
  text_of (flag b) = some (yes b)
  text_of (text t) = t
  text_of (address a) = some (inet_ntoa a)

  abbrev pub write : List ℕ → Value → List Line → List Line
  write k (number n) ls = let p = decimal n in count k p.0 p.1 ∷ ls
  write k (flag b) ls = quote k (yes b) ∷ ls
  write k (text none) ls = ls
  write k (text (some t)) ls = quote k t ∷ ls
  write k (address a) ls = quote k (inet_ntoa a) ∷ ls

  unfoldable pub lines_of : List Entry → List Line
  lines_of [] = []
  lines_of (e ∷ es) =
      let rest = lines_of es in if kept e.key then write e.key e.value rest else rest

  abbrev alone : List ℕ → List Entry → Bool
  alone k [] = true
  alone k (e ∷ es) = not (same_text e.key k) && alone k es

  -- The key of the setting with the index is that of no other.
  abbrev pub is_own : List ℕ → ℕ → List Entry → Bool
  is_own k i [] = false
  is_own k zero (e ∷ es) = alone k es
  is_own k (suc i) (e ∷ es) = not (same_text e.key k) && is_own k i es

  value_of-write :
      (k key : List ℕ) (v : Value) (ls : List Line)
      → value_of key (write k v ls) ≡ (
          if same_text k key
          then elim (text_of v) as (λ _. Option (List ℕ)) [
            | none ↦ value_of key ls
            | some t ↦ some t
          ]
          else value_of key ls)
  unfolding value_of text_of
  value_of-write k key (number n) ls = refl
  value_of-write k key (flag b) ls = refl
  value_of-write k key (text none) ls = ground arith
  value_of-write k key (text (some t)) ls = refl
  value_of-write k key (address a) ls = refl

  alone-value_of :
      (k : List ℕ) (es : List Entry) → alone k es ≡ true → value_of k (lines_of es) ≡ none
  unfolding lines_of
  alone-value_of k [] h = unfold value_of in refl
  alone-value_of k (e ∷ es) h =
      ground (arith, alone-value_of k es, value_of-write e.key k e.value (lines_of es))

  value_of-first :
      (e : Entry) (es : List Entry)
      → alone e.key es ≡ true
      → value_of e.key (lines_of (e ∷ es)) ≡ (if kept e.key then text_of e.value else none)
  unfolding lines_of
  value_of-first e es own = ground (
    arith,
    alone-value_of e.key es own,
    value_of-write e.key e.key e.value (lines_of es),
    same_text-same e.key,
  )

  pub value_of-lines_of :
      (i : ℕ) (es : List Entry) (e : Entry)
      → get_elem? es i ≡ some e
      → is_own e.key i es ≡ true
      → value_of e.key (lines_of es) ≡ (if kept e.key then text_of e.value else none)
  unfolding lines_of
  value_of-lines_of i [] e at own = cc
  value_of-lines_of zero (x ∷ es) e at own =
      subst
        (λ (e : Entry).
          alone e.key es ≡ true
          → value_of e.key (lines_of (x ∷ es)) ≡ (if kept e.key then text_of e.value else none))
        (Opt.some-injective x e at) (value_of-first x es) own
  value_of-lines_of (suc i) (x ∷ es) e at own =
      ground (arith, value_of-lines_of i es e at, value_of-write x.key e.key x.value (lines_of es))

  write-IsLine :
      (inet_addr : List ℕ → ℕ) (k : List ℕ) (v : Value) (ls : List Line)
      → IsName k
      → IsWritable inet_addr v
      → All IsLine ls
      → All IsLine (write k v ls)
  write-IsLine inet_addr k (number n) ls name h hs =
      ((name, decimal-IsDigit n h, omega (arith, length-decimal n)), hs)
  write-IsLine inet_addr k (flag true) ls name h hs = (
    (name, ((refl, refl, refl), ((refl, refl, refl), ((refl, refl, refl), tt))), omega arith),
    hs,
  )
  write-IsLine inet_addr k (flag false) ls name h hs =
      ((name, ((refl, refl, refl), ((refl, refl, refl), tt)), omega arith), hs)
  write-IsLine inet_addr k (text none) ls name h hs = hs
  write-IsLine inet_addr k (text (some t)) ls name h hs = ((name, h.0, h.1), hs)
  write-IsLine inet_addr k (address a) ls name h hs = ((name, h.0, h.1), hs)

  -- The lines are of the form that is read.
  pub lines_of-IsLine :
      (inet_addr : List ℕ → ℕ) (es : List Entry)
      → word_keys es ≡ true
      → All (IsEntry inet_addr) es
      → All IsLine (lines_of es)
  unfolding lines_of
  lines_of-IsLine inet_addr [] names h = tt
  lines_of-IsLine inet_addr (e ∷ es) names (h, hs) =
      let name : word_key e.key ≡ true = ground (arith, names) in
      elim (Bool-cases (kept e.key)) [
        | inl k ↦ rw k (
            write-IsLine inet_addr e.key e.value _ (word_key-IsName e.key name) (h.0 k)
              (lines_of-IsLine inet_addr es (ground (arith, names)) hs))
        | inr k ↦ rw k (lines_of-IsLine inet_addr es (ground (arith, names)) hs)
      ]
