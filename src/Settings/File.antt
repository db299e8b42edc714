-- ===== src/Settings/File.antt =====
-- `Config::Load` of src/AuthServer/Config.cpp as far as the map of the file's settings, and the
-- methods `Get`, `GetBool` and `GetInt` that read it. A text is its bytes without the NUL.
pub mod Ends
pub mod Keys
pub mod Comments
pub mod RoundTrip
use game_login.Base.{
  ℕ, zero, suc, ◌+◌, ◌%◌, ◌^◌, Bool, true, false, ◌&&◌, ◌||◌, List, [], ◌∷◌, ◌++◌, Option, none,
  some, ltb, leb, ◌==◌, if◌then◌else◌, length,
}
use game_login.Ip.Ranges.Parse.{strtol}
use game_login.Settings.Tokens.{
  Token, word, equal, semi_colon, new_line, is_eof, Scanned, max_token_len, get_token,
}

-- `iless`: texts that `_stricmp` finds equal are one key.
unfoldable pub lower : ℕ → ℕ
lower c = if leb b'A' c && leb c b'Z' then c + 32 else c

unfoldable pub same_text : List ℕ → List ℕ → Bool
same_text [] [] = true
same_text [] (b ∷ bs) = false
same_text (a ∷ as_) [] = false
same_text (a ∷ as_) (b ∷ bs) = (lower a == lower b) && same_text as_ bs

-- `StringMap`. The code looks keys up and inserts them, so their order does not show.
abbrev pub StringMap : Type 0
StringMap = List (List ℕ × List ℕ)

-- `map.find` and `Get`.
unfoldable pub get : List ℕ → StringMap → Option (List ℕ)
get key [] = none
get key ((k, v) ∷ map) = if same_text k key then some v else get key map

-- `map.insert` keeps the value of a key that is there.
pub insert : List ℕ → List ℕ → StringMap → StringMap
insert key value [] = (key, value) ∷ []
insert key value ((k, v) ∷ map) =
    if same_text k key then (k, v) ∷ map else (k, v) ∷ insert key value map

-- A text in an array ends at the first NUL.
pub c_str : List ℕ → List ℕ
c_str [] = []
c_str (c ∷ cs) = if c == 0 then [] else c ∷ c_str cs

-- `state`, which never is `eWaitEqual`.
pub data Phase : Type 0 where
  wait_key : Phase
  wait_value : Phase
  in_comment : Phase

pub record State : Type 0 where
  pub phase : Phase
  pub key : List ℕ
  pub map : StringMap

pub read_word : Phase → List ℕ → State → State
read_word wait_key value st = record st { key = c_str value }
read_word wait_value value st = record st { map = insert (c_str st.key) (c_str value) st.map }
read_word in_comment value st = st

-- The body of the loop outside a comment.
pub read_token : Token → List ℕ → State → State
read_token word value st = read_word st.phase value st
read_token equal value st = record st { phase = wait_value }
read_token semi_colon value st = record st { phase = in_comment }
read_token new_line value st = record st { phase = wait_key }
read_token _ value st = st

pub skip_token : Token → State → State
skip_token new_line st = record st { phase = wait_key }
skip_token _ st = st

pub step : Phase → Token → List ℕ → State → State
step in_comment token value st = skip_token token st
step wait_key token value st = read_token token value st
step wait_value token value st = read_token token value st

-- How the loop ends: with the map; with a word that goes past the end of `value`, or, of a file of no
-- bytes, with a read behind the buffer; or with a stream that has failed, from which `GetToken` has no
-- byte to go by: what follows is not defined. On fuel, it may not have ended yet.
pub data Loaded : Type 0 where
  done : StringMap → Loaded
  overflow : Loaded
  stream_failed : Loaded
  unfinished : Loaded

pub scan : ℕ → List ℕ → State → Loaded
scan zero cs st = unfinished
scan (suc fuel) cs st =
    let s = get_token true cs in
    elim (is_eof s.token) [
      | true ↦ done st.map
      | false ↦ elim (leb (length s.value) max_token_len) [
        | true ↦ elim s.failed [
          | true ↦ stream_failed
          | false ↦ scan fuel s.rest (step st.phase s.token s.value st)
        ]
        | false ↦ overflow
      ]
    ]

-- The loop from a state on.
pub run : List ℕ → State → Loaded
run cs st = scan (length cs + 1) cs st

-- The loop over the bytes of a file, into a map; `key` holds whatever the stack held. Of a file of no
-- bytes `istrstream` reads on behind the buffer.
pub load_map : List ℕ → StringMap → List ℕ → Loaded
load_map key map [] = overflow
load_map key map (c ∷ cs) = run (c ∷ cs) (record { phase = wait_key; key = key; map = map })

abbrev pub yes_text : List ℕ
yes_text = b'y' ∷ b'e' ∷ b's' ∷ []

abbrev pub true_text : List ℕ
true_text = b't' ∷ b'r' ∷ b'u' ∷ b'e' ∷ []

unfoldable pub get_bool : List ℕ → Bool → StringMap → Bool
get_bool key def map = elim (get key map) [
  | none ↦ def
  | some v ↦ same_text v yes_text || same_text v true_text || same_text v (b'1' ∷ [])
]

-- `atoi` of a compiler whose `int` and `long` have 32 bits.
unfoldable pub get_int : List ℕ → ℕ → StringMap → ℕ
get_int key def map = elim (get key map) [ none ↦ def | some v ↦ (strtol v).0 ]
