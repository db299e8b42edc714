-- ===== src/Examples/Files.antt =====
-- A file of settings.
use game_login.Base.{ℕ, Option, none, some, ◌≡◌, ◌≢◌, refl, List, [], ◌∷◌, arith, All}
use game_login.Settings.File.{StringMap, done, unfinished, stream_failed, get, load_map}
use game_login.Settings.File.Ends.{load_map-ends}
use game_login.Settings.File.RoundTrip.{
  Line, quote, count, comment, print, IsLine, value_of, load_map-print,
}
use game_login.Settings.Tokens.Progress.{RunsFit}
use game_login.Settings.Tokens.{single, letters}

-- `; ip`, `IP = "a.b"`, `port = 21` and `ip = "c"`.
abbrev file : List Line
file =
    comment (b' ' ∷ b'i' ∷ b'p' ∷ [])
    ∷ quote (b'I' ∷ b'P' ∷ []) (b'a' ∷ b'.' ∷ b'b' ∷ [])
    ∷ count (b'p' ∷ b'o' ∷ b'r' ∷ b't' ∷ []) b'2' (b'1' ∷ [])
    ∷ quote (b'i' ∷ b'p' ∷ []) (b'c' ∷ [])
    ∷ []

file-IsLine : All IsLine file
unfolding single letters
file-IsLine = (
  (
    ((refl, refl), ((refl, refl), ((refl, refl), tt))),
    (omega arith, (omega arith, (omega arith, tt))),
  ),
  (
    (
      ((refl, (refl, tt)), omega arith),
      ((refl, refl, refl), ((refl, refl, refl), ((refl, refl, refl), tt))),
      omega arith,
    ),
    (
      (((refl, (refl, (refl, (refl, tt)))), omega arith), (refl, (refl, tt)), omega arith),
      ((((refl, (refl, tt)), omega arith), ((refl, refl, refl), tt), omega arith), tt),
    ),
  ),
)

-- `ip = "z"`, as it was before.
abbrev old : StringMap
old = (b'i' ∷ b'p' ∷ [], b'z' ∷ []) ∷ []

load_map-print_example :
    (map : StringMap) × (load_map [] old (print file) ≡ done map)
    × ((key : List ℕ)
        → get key map ≡ (elim (get key old) as (λ _. Option (List ℕ)) [
          | none ↦ value_of key file
          | some v ↦ some v
        ]))
load_map-print_example = load_map-print [] old file file-IsLine (unfold print in omega arith)

load_map-ends_example :
    (load_map [] [] (b'a' ∷ b'=' ∷ b'"' ∷ []) ≢ unfinished)
    × (load_map [] [] (b'a' ∷ b'=' ∷ b'"' ∷ []) ≢ stream_failed)
    × (RunsFit (b'a' ∷ b'=' ∷ b'"' ∷ [])
        → (map : StringMap) × (load_map [] [] (b'a' ∷ b'=' ∷ b'"' ∷ []) ≡ done map))
load_map-ends_example = load_map-ends [] [] (b'a' ∷ b'=' ∷ b'"' ∷ []) (omega arith) refl
