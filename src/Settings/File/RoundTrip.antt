-- ===== src/Settings/File/RoundTrip.antt =====
-- A file that is written in the form of src/AuthServer/etc/config.txt is read back.
use game_login.Base.{
  ℕ, suc, ◌+◌, ◌≤◌, ◌<◌, ◌≡◌, refl, ap, ◌∙◌, true, List, [], ◌∷◌, ◌++◌, Option, none, some, arith,
  if◌then◌else◌, length, length-append, All,
}
use game_login.Settings.Tokens.{bare, is_eof, max_token_len, equal, semi_colon, new_line, get_token}
use game_login.Settings.Tokens.Progress.{RunsFit}
use game_login.Settings.Tokens.Line.{IsPlain}
use game_login.Settings.Tokens.Pieces.{
  piece, IsKey, IsWordByte, IsQuotable, IsDigit, get_token_key, get_token_quoted, get_token_number,
  get_token_equal, get_token_new_line, get_token_semi_colon, get_token_nil,
}
use game_login.Settings.File.{
  State, StringMap, Phase, wait_key, wait_value, in_comment, done, same_text, get, insert, c_str,
  read_word, read_token, step, run, load_map,
}
use game_login.Settings.File.Keys.{get-insert, c_str-All}
use game_login.Settings.File.Comments.{run_comment}
use game_login.Settings.File.Ends.{run_end, run-get_token}

-- A line of a file: `key = "text"`, `key = 12`, or a comment.
pub data Line : Type 0 where
  quote : List ℕ → List ℕ → Line
  count : List ℕ → ℕ → List ℕ → Line
  comment : List ℕ → Line

-- The text of a setting, from the blank behind its key on.
abbrev pub assigned : List ℕ → List ℕ
assigned rest = b' ' ∷ b'=' ∷ b' ' ∷ rest

unfoldable pub print : List Line → List ℕ
print [] = []
print (quote k v ∷ ls) = k ++ assigned (b'"' ∷ (v ++ b'"' ∷ b'\n' ∷ print ls))
print (count k d ds ∷ ls) = k ++ assigned (d ∷ (ds ++ b'\n' ∷ print ls))
print (comment text ∷ ls) = b';' ∷ (text ++ b'\n' ∷ print ls)

abbrev pub IsName : List ℕ → Type 0
IsName k = IsKey k × (length k ≤ max_token_len)

abbrev pub IsLine : Line → Type 0
IsLine (quote k v) = IsName k × All IsQuotable v × (length v ≤ max_token_len)
IsLine (count k d ds) = IsName k × All IsDigit (d ∷ ds) × (length (d ∷ ds) ≤ max_token_len)
IsLine (comment text) = All IsPlain text × RunsFit text

-- What a reader of the lines takes for the value of a key: that of the first line with the key, in
-- capitals or small letters.
unfoldable pub value_of : List ℕ → List Line → Option (List ℕ)
value_of key [] = none
value_of key (quote k v ∷ ls) = if same_text k key then some v else value_of key ls
value_of key (count k d ds ∷ ls) = if same_text k key then some (d ∷ ds) else value_of key ls
value_of key (comment text ∷ ls) = value_of key ls

-- The map after the lines.
add : List Line → StringMap → StringMap
add [] map = map
add (quote k v ∷ ls) map = add ls (insert k v map)
add (count k d ds ∷ ls) map = add ls (insert k (d ∷ ds) map)
add (comment text ∷ ls) map = add ls map

IsKey-nonzero : (k : List ℕ) → IsKey k → c_str k ≡ k
IsKey-nonzero [] h = absurd h
IsKey-nonzero (c ∷ cs) h =
    c_str-All IsWordByte (λ b p. ground arith) (c ∷ cs) (ground (arith, h.0), h.1)

abbrev at : Phase → List ℕ → StringMap → State
at phase key map = record { phase = phase; key = key; map = map }

-- From a key to behind the sign.
run_key :
    (k rest old : List ℕ) (map : StringMap)
    → IsName k
    → run (k ++ assigned rest) (at wait_key old map) ≡ run (b' ' ∷ rest) (at wait_value k map)
unfolding step read_token read_word
run_key k rest old map name =
    run-get_token _ (at wait_key old map) (piece k (assigned rest)) (get_token_key k _ name.0) refl
      name.1 refl (omega (arith, length-append k (assigned rest), longer k name.0))
    ∙ ap (λ t. run (assigned rest) (at wait_key t map)) (IsKey-nonzero k name.0)
    ∙ run-get_token _ (at wait_key k map) (bare equal (b' ' ∷ rest)) (get_token_equal (b' ' ∷ rest))
        refl (omega arith) refl (omega arith)
  where
    longer : (k : List ℕ) → IsKey k → 0 < length k
    longer [] h = absurd h
    longer (c ∷ cs) h = omega arith

-- From behind a value to the next line.
run_new_line :
    (rest key : List ℕ) (map : StringMap)
    → run (b'\n' ∷ rest) (at wait_value key map) ≡ run rest (at wait_key key map)
unfolding step read_token
run_new_line rest key map =
    run-get_token _ (at wait_value key map) (bare new_line rest) (get_token_new_line rest) refl
      (omega arith) refl (omega arith)

-- A value that `GetToken` takes off whole goes into the map.
run_value :
    (v cs rest key : List ℕ) (map : StringMap)
    → get_token true cs ≡ piece v (b'\n' ∷ rest)
    → length v ≤ max_token_len
    → suc (length rest) < length cs
    → c_str key ≡ key
    → c_str v ≡ v
    → run cs (at wait_value key map) ≡ run rest (at wait_key key (insert key v map))
unfolding step read_token read_word
run_value v cs rest key map got few shorter whole_key whole =
    run-get_token cs (at wait_value key map) (piece v (b'\n' ∷ rest)) got refl few refl shorter
    ∙ rw (whole_key, whole) (run_new_line rest key (insert key v map))

run_comment_line :
    (text rest key : List ℕ) (map : StringMap)
    → All IsPlain text × RunsFit text
    → run (b';' ∷ (text ++ b'\n' ∷ rest)) (at wait_key key map) ≡ run rest (at wait_key key map)
unfolding step read_token
run_comment_line text rest key map h =
    run-get_token _ (at wait_key key map) (bare semi_colon (text ++ b'\n' ∷ rest))
      (get_token_semi_colon _) refl (omega arith) refl (omega arith)
    ∙ run_comment (length text + 1) text rest (at in_comment key map) (omega arith) refl h.0 h.1

run-print :
    (ls : List Line) (key : List ℕ) (map : StringMap)
    → All IsLine ls
    → run (print ls) (at wait_key key map) ≡ done (add ls map)
unfolding print add
run-print [] key map h = run_end [] (at wait_key key map) (ap (λ s. is_eof s.token) get_token_nil)
run-print (quote k v ∷ ls) key map (h, hs) =
    run_key k _ key map h.0
    ∙ run_value v _ (print ls) k map (get_token_quoted v _ h.2 h.1) h.2
        (omega (arith, length-append v (b'"' ∷ b'\n' ∷ print ls))) (IsKey-nonzero k h.0.0)
        (c_str-All IsQuotable (λ c q. q.2) v h.1)
    ∙ run-print ls k (insert k v map) hs
run-print (count k d ds ∷ ls) key map (h, hs) =
    run_key k _ key map h.0
    ∙ run_value (d ∷ ds) _ (print ls) k map (get_token_number d ds _ h.2 h.1) h.2
        (omega (arith, length-append ds (b'\n' ∷ print ls))) (IsKey-nonzero k h.0.0)
        (c_str-All IsDigit (λ c q. ground arith) (d ∷ ds) h.1)
    ∙ run-print ls k (insert k (d ∷ ds) map) hs
run-print (comment text ∷ ls) key map (h, hs) =
    run_comment_line text (print ls) key map h ∙ run-print ls key map hs

get-add :
    (key : List ℕ) (ls : List Line) (map : StringMap)
    → get key (add ls map)
      ≡ (elim (get key map) as (λ _. Option (List ℕ)) [ none ↦ value_of key ls | some v ↦ some v ])
unfolding add value_of
get-add key [] map = ground arith
get-add key (quote k v ∷ ls) map =
    get-add key ls (insert k v map) ∙ rw (get-insert key k v map) (ground arith)
get-add key (count k d ds ∷ ls) map =
    get-add key ls (insert k (d ∷ ds) map) ∙ rw (get-insert key k (d ∷ ds) map) (ground arith)
get-add key (comment text ∷ ls) map = get-add key ls map

load_map-some :
    (stack : List ℕ) (old : StringMap) (cs : List ℕ)
    → 0 < length cs
    → load_map stack old cs ≡ run cs (at wait_key stack old)
unfolding load_map
load_map-some stack old [] h = absurd (omega arith)
load_map-some stack old (c ∷ cs) h = refl

-- A file that has at least one line, of comments and of settings. A setting has a key that is a name, and a
-- text in quotes or a number, each of at most 70 bytes. A comment has blanks, letters, digits, `-`, quotes and
-- the marks that are tokens, no other byte, and nowhere more than 70 bytes together that a word can have.
-- Such a file is loaded, whatever the stack held; and `Get` gives for every key the value that the map had
-- before, and if it had none, that of the first line that sets the key, keys being alike in capitals and
-- small letters.
pub load_map-print :
    (stack : List ℕ) (old : StringMap) (ls : List Line)
    → All IsLine ls
    → 0 < length (print ls)
    → (map : StringMap) × (load_map stack old (print ls) ≡ done map)
      × ((key : List ℕ)
          → get key map ≡ (elim (get key old) as (λ _. Option (List ℕ)) [
            | none ↦ value_of key ls
            | some v ↦ some v
          ]))
load_map-print stack old ls h some_byte = (
  add ls old,
  load_map-some stack old (print ls) some_byte ∙ run-print ls stack old h,
  λ key. get-add key ls old,
)
