-- ===== src/Examples/Admins.antt =====
-- Commands of an administrator at concrete bytes.
use game_login.Base.{ℕ, ◌≡◌, refl, true, false, List, [], ◌∷◌, arith, length, All}
use game_login.Admin.{Settings, process_all}
use game_login.Admin.Lines.{receive, flatten}
use game_login.Admin.Commands.{
  Command, IsCommand, limit, gm_address, free, print, obey_all, process_all-receive,
}

-- A limit of 90, an address, and a free server.
abbrev commands : List Command
commands = limit (b'9' ∷ b'0' ∷ []) ∷ gm_address (b'1' ∷ []) ∷ free true ∷ []

abbrev segments : List (List ℕ)
segments =
    (b'1' ∷ b'\t' ∷ b'9' ∷ [])
    ∷ (b'0' ∷ b'\n' ∷ b'6' ∷ b'\t' ∷ b'1' ∷ b'\n' ∷ b'8' ∷ b'\t' ∷ [])
    ∷ (b'1' ∷ b'\n' ∷ [])
    ∷ []

abbrev at_first : Settings
at_first = record { gm_check_mode = false; socket_limit = 500; gm_ip = 0; free_server = false }

written : flatten segments ≡ print commands
unfolding print
written = refl

are_commands : All IsCommand commands
are_commands = (
  (((refl, refl, refl, refl), ((refl, refl, refl, refl), tt)), omega arith),
  ((((refl, refl, refl, refl), tt), omega arith), (tt, tt)),
)

process_all-receive_example :
    let r = receive (record { lines = []; left = [] }) segments in
    (process_all length 3 r.lines at_first ≡ obey_all length commands at_first) × (r.left ≡ [])
process_all-receive_example =
    process_all-receive length 3 commands segments at_first are_commands written
