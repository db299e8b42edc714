-- ===== src/Wire/Assemble/Layout.antt =====
-- What `Assemble` writes, and when it gives up.
use game_login.Base.{
  ℕ, ◌-◌, ◌≡◌, List, [], ◌∷◌, ◌++◌, none, some, leb, if◌then◌else◌, arith, length, length-append,
}
use game_login.Wire.Assemble.{Arg, arg_bytes, assemble, assemble_len}

abbrev pub all_bytes : List Arg → List ℕ
all_bytes [] = []
all_bytes (a ∷ args) = arg_bytes a ++ all_bytes args

-- `Assemble` writes the bytes of its arguments one behind the other if they all fit the room, and
-- otherwise overflows and returns 0, wherever among the arguments the room runs out.
pub assemble_lem :
    (room : ℕ) (args : List Arg)
    → (assemble room args
        ≡ (if leb (length (all_bytes args)) room then some (all_bytes args) else none))
      × (assemble_len (assemble room args)
          ≡ (if leb (length (all_bytes args)) room then length (all_bytes args) else 0))
unfolding assemble assemble_len
assemble_lem room [] = (ground arith, ground arith)
assemble_lem room (a ∷ args) =
    let n = length (arg_bytes a) in
    (
      ground (arith, assemble_lem (room - n) args, length-append (arg_bytes a) (all_bytes args)),
      ground (arith, assemble_lem (room - n) args, length-append (arg_bytes a) (all_bytes args)),
    )
