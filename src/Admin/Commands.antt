-- ===== src/Admin/Commands.antt =====
-- A stream of commands, as an administrator's client writes them.
use game_login.Base.{
  ℕ, zero, suc, ◌-◌, ◌≤◌, ◌≡◌, refl, ap, ◌∙◌, Bool, true, false, ◌&&◌, List, [], ◌∷◌, ◌++◌, none,
  some, ltb, ◌==◌, arith, length, take, if◌then◌else◌, All,
}
use game_login.Ip.Ranges.Parse.{strtol}
use game_login.Settings.File.{c_str}
use game_login.Settings.File.Keys.{c_str-All}
use game_login.Admin.{
  Split, also_line, split, take_token, get_token, Settings, Handled, one_text, zero_text,
  set_gm_only_mode, change_limit_user, inaddr_none, set_gm_ip, set_free_server, handle,
  packet_number, process, process_all,
}
use game_login.Admin.Lines.{receive, flatten, receive_segments, split_line}

-- A limit is written in digits, an address as a text.
pub data Command : Type 0 where
  limit : List ℕ → Command
  gm_only : Bool → Command
  gm_address : List ℕ → Command
  free : Bool → Command

abbrev flag : Bool → List ℕ
flag true = one_text
flag false = zero_text

-- The number of the command, and its argument.
abbrev number_of : Command → ℕ
number_of (limit _) = b'1'
number_of (gm_only _) = b'4'
number_of (gm_address _) = b'6'
number_of (free _) = b'8'

abbrev argument : Command → List ℕ
argument (limit ds) = ds
argument (gm_only on) = flag on
argument (gm_address t) = t
argument (free on) = flag on

abbrev line_of : Command → List ℕ
line_of c = number_of c ∷ b'\t' ∷ argument c

unfoldable pub print : List Command → List ℕ
print [] = []
print (c ∷ cs) = line_of c ++ b'\n' ∷ print cs

abbrev IsPlainByte : ℕ → Type 0
IsPlainByte b =
    ((b == b'\n') ≡ false) × ((b == 0) ≡ false) × ((b == b'\t') ≡ false) × ((b == 13) ≡ false)

-- An argument fits the line, and an address is of at most 16 bytes.
abbrev pub IsCommand : Command → Type 0
IsCommand (limit ds) = All IsPlainByte ds × (length ds ≤ 253)
IsCommand (gm_only on) = Unit
IsCommand (gm_address t) = All IsPlainByte t × (length t ≤ 16)
IsCommand (free on) = Unit

-- What each command is for.
abbrev pub obey : (List ℕ → ℕ) → Command → Settings → Handled
obey inet_addr (limit ds) s =
    if ltb 0 (strtol ds).0 && ltb (strtol ds).0 12000
    then (record s { socket_limit = (strtol ds).0 }, one_text ∷ [])
    else (s, [])
obey inet_addr (gm_only on) s = (record s { gm_check_mode = on }, one_text ∷ [])
obey inet_addr (gm_address t) s =
    if inet_addr t == inaddr_none
    then (s, zero_text ∷ [])
    else (record s { gm_ip = inet_addr t }, one_text ∷ [])
obey inet_addr (free on) s = (record s { free_server = on }, one_text ∷ [])

abbrev pub obey_all : (List ℕ → ℕ) → List Command → Settings → Handled
obey_all inet_addr [] s = (s, [])
obey_all inet_addr (c ∷ cs) s =
    let (next, sent) = obey inet_addr c s in
    let (last, more) = obey_all inet_addr cs next in (last, sent ++ more)

take_token_whole :
    (n : ℕ) (text : List ℕ)
    → All IsPlainByte text
    → length text ≤ n
    → take_token n text ≡ (text, none)
unfolding take_token
take_token_whole zero [] p h = refl
take_token_whole (suc n) [] p h = refl
take_token_whole zero (c ∷ cs) p h = absurd (omega arith)
take_token_whole (suc n) (c ∷ cs) p h =
    rw (p.0.2, p.0.3) (rw (take_token_whole n cs p.1 (omega arith)) refl)

take_whole : (n : ℕ) (text : List ℕ) → length text ≤ n → take n text ≡ text
take_whole zero [] h = refl
take_whole (suc n) [] h = refl
take_whole zero (c ∷ cs) h = absurd (omega arith)
take_whole (suc n) (c ∷ cs) h = ap (λ t. c ∷ t) (take_whole n cs (omega arith))

argument_plain :
    (c : Command) → IsCommand c → All IsPlainByte (argument c) × (length (argument c) ≤ 253)
argument_plain (limit ds) h = h
argument_plain (gm_only true) h = (((refl, refl, refl, refl), tt), omega arith)
argument_plain (gm_only false) h = (((refl, refl, refl, refl), tt), omega arith)
argument_plain (gm_address t) h = (h.0, omega arith)
argument_plain (free true) h = (((refl, refl, refl, refl), tt), omega arith)
argument_plain (free false) h = (((refl, refl, refl, refl), tt), omega arith)

-- `handle` on the argument of a command.
handle_command :
    (inet_addr : List ℕ → ℕ) (c : Command) (s : Settings)
    → IsCommand c
    → handle inet_addr (number_of c - 48) (some (argument c)) s ≡ obey inet_addr c s
unfolding handle set_gm_only_mode change_limit_user set_gm_ip set_free_server get_token
handle_command inet_addr (limit ds) s h = rw (take_token_whole 255 ds h.0 (omega arith)) refl
handle_command inet_addr (gm_only true) s h = unfold take_token in refl
handle_command inet_addr (gm_only false) s h = unfold take_token in refl
handle_command inet_addr (gm_address t) s h =
    rw (take_token_whole 255 t h.0 (omega arith)) (rw (take_whole 16 t h.1) refl)
handle_command inet_addr (free true) s h = unfold take_token in refl
handle_command inet_addr (free false) s h = unfold take_token in refl

-- The number that `sscanf` reads on the line of a command, and what `getToken` leaves.
head_of_line :
    (raw : ℕ) (c : Command)
    → (packet_number raw (line_of c) ≡ number_of c - 48)
      × ((get_token (line_of c)).1 ≡ some (argument c))
unfolding packet_number strtol get_token take_token
head_of_line raw (limit ds) = (ground arith, refl)
head_of_line raw (gm_only on) = (ground arith, refl)
head_of_line raw (gm_address t) = (ground arith, refl)
head_of_line raw (free on) = (ground arith, refl)

line_whole : (c : Command) → IsCommand c → c_str (line_of c) ≡ line_of c
line_whole c h =
    c_str-All (λ b. (b == 0) ≡ false) (λ b z. z) (line_of c)
      (first c, (refl, zeros (argument c) (argument_plain c h).0))
  where
    first : (c : Command) → (number_of c == 0) ≡ false
    first (limit _) = refl
    first (gm_only _) = refl
    first (gm_address _) = refl
    first (free _) = refl

    zeros : (t : List ℕ) → All IsPlainByte t → All (λ b. (b == 0) ≡ false) t
    zeros [] p = tt
    zeros (b ∷ t) p = (p.0.1, zeros t p.1)

process_command :
    (inet_addr : List ℕ → ℕ) (raw : ℕ) (c : Command) (s : Settings)
    → IsCommand c
    → process inet_addr raw (line_of c) s ≡ obey inet_addr c s
unfolding process
process_command inet_addr raw c s h =
    let (n, rest) = head_of_line raw c in
    rw (line_whole c h) (rw (n, rest) (rw (known c) (handle_command inet_addr c s h)))
  where
    known : (c : Command) → ltb (number_of c - 48) 11 ≡ true
    known (limit _) = refl
    known (gm_only _) = refl
    known (gm_address _) = refl
    known (free _) = refl

abbrev lines_of : List Command → List (List ℕ)
lines_of [] = []
lines_of (c ∷ cs) = line_of c ∷ lines_of cs

process_all-lines_of :
    (inet_addr : List ℕ → ℕ) (raw : ℕ) (cs : List Command) (s : Settings)
    → All IsCommand cs
    → process_all inet_addr raw (lines_of cs) s ≡ obey_all inet_addr cs s
unfolding process_all
process_all-lines_of inet_addr raw [] s h = refl
process_all-lines_of inet_addr raw (c ∷ cs) s (h, hs) =
    rw (process_command inet_addr raw c s h)
      (rw (process_all-lines_of inet_addr raw cs (obey inet_addr c s).0 hs) refl)

no_line_feed : (c : Command) → IsCommand c → All (λ b. (b == b'\n') ≡ false) (line_of c)
no_line_feed c h = (first c, (refl, none_in (argument c) (argument_plain c h).0))
  where
    first : (c : Command) → (number_of c == b'\n') ≡ false
    first (limit _) = refl
    first (gm_only _) = refl
    first (gm_address _) = refl
    first (free _) = refl

    none_in : (t : List ℕ) → All IsPlainByte t → All (λ b. (b == b'\n') ≡ false) t
    none_in [] p = tt
    none_in (b ∷ t) p = (p.0.0, none_in t p.1)

split-print :
    (cs : List Command)
    → All IsCommand cs
    → split [] (print cs) ≡ record { lines = lines_of cs; left = [] }
unfolding print
split-print [] h = unfold split in refl
split-print (c ∷ cs) (h, hs) =
    split_line [] (line_of c) (print cs) (omega (arith, (argument_plain c h).1)) (no_line_feed c h)
    ∙ ap (also_line (line_of c)) (split-print cs hs)

-- Commands whose arguments have no tab, no line end and no NUL and are of at most 253 bytes, an
-- address of at most 16, are written one to a line. However the stream is cut into segments, the lines
-- that `OnRead` hands to `Process` change the settings and are answered as the commands, one after
-- another, call for, whatever the stack of `Process` holds; and no bytes are left over.
pub process_all-receive :
    (inet_addr : List ℕ → ℕ) (raw : ℕ) (cs : List Command) (segs : List (List ℕ)) (s : Settings)
    → All IsCommand cs
    → flatten segs ≡ print cs
    → let r = receive (record { lines = []; left = [] }) segs in
      (process_all inet_addr raw r.lines s ≡ obey_all inet_addr cs s) × (r.left ≡ [])
process_all-receive inet_addr raw cs segs s h e =
    let all = receive_segments segs ∙ ap (split []) e ∙ split-print cs h in
    (
      ap (λ (r : Split). process_all inet_addr raw r.lines s) all
          ∙ process_all-lines_of inet_addr raw cs s h,
      ap (λ (r : Split). r.left) all,
    )
