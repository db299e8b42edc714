-- ===== src/Admin.antt =====
-- `CSocketInt` of src/AuthServer/CSocketInt.cpp: the port for administration, whose packets are lines of
-- text with fields between tabs. A text is its bytes without the NUL.
pub mod Lines
pub mod Commands
use game_login.Base.{
  ℕ, zero, suc, ◌+◌, ◌-◌, Bool, true, false, not, ◌&&◌, ◌||◌, List, [], ◌∷◌, ◌++◌, Option, none,
  some, ltb, leb, ◌==◌, if◌then◌else◌, length, take,
}
use game_login.Ip.Ranges.Parse.{strtol}
use game_login.Settings.File.{c_str}

-- What the loop of `OnRead` comes to: the lines that it hands to `Process`, and the bytes that it
-- leaves in the buffer for the next `Read`.
pub record Split : Type 0 where
  pub lines : List (List ℕ)
  pub left : List ℕ

abbrev pub also_line : List ℕ → Split → Split
also_line line s = record s { lines = line ∷ s.lines }

-- The loop, at a byte behind the `ri` bytes of `line`. The byte that ends a line is overwritten, also
-- where 255 bytes have come with no line feed.
pub split : List ℕ → List ℕ → Split
split line [] = record { lines = []; left = line }
split line (b ∷ bs) =
    let fresh = split [] bs in
    let more = split (line ++ b ∷ []) bs in
    if leb 255 (length line) || b == b'\n' then also_line line fresh else more

-- `OnRead`, with the bytes left before in front of those received.
pub on_read : List ℕ → List ℕ → Split
on_read left received = split [] (left ++ received)

-- `getToken`: the token, and the text behind the tab or the carriage return that ends it. `none` is
-- `NULL`, when the text ends first or 255 bytes have been taken.
pub take_token : ℕ → List ℕ → List ℕ × Option (List ℕ)
take_token zero input = ([], none)
take_token (suc i) [] = ([], none)
take_token (suc i) (c ∷ input) =
    let (token, rest) = take_token i input in
    if c == b'\t' || c == 13 then ([], some input) else (c ∷ token, rest)

pub get_token : List ℕ → List ℕ × Option (List ℕ)
get_token input = take_token 255 input

-- The members of `config` that the commands change. `gm_ip` is the `in_addr` as a number.
pub record Settings : Type 0 where
  pub gm_check_mode : Bool
  pub socket_limit : ℕ
  pub gm_ip : ℕ
  pub free_server : Bool

-- The settings after a command, and the texts sent back.
abbrev pub Handled : Type 0
Handled = Settings × List (List ℕ)

abbrev pub one_text : List ℕ
one_text = b'1' ∷ []

abbrev pub zero_text : List ℕ
zero_text = b'0' ∷ []

-- `"0,Incorrect Format"`.
abbrev incorrect_format : List ℕ
incorrect_format =
    b'0' ∷ b',' ∷ b'I' ∷ b'n' ∷ b'c' ∷ b'o' ∷ b'r' ∷ b'r' ∷ b'e' ∷ b'c' ∷ b't' ∷ b' ' ∷ b'F' ∷ b'o'
    ∷ b'r' ∷ b'm' ∷ b'a' ∷ b't' ∷ []

-- `buffer[0]`.
abbrev first_byte : List ℕ → ℕ
first_byte [] = 0
first_byte (c ∷ cs) = c

-- `SetGMOnlyMode`, behind the first token.
pub set_gm_only_mode : Option (List ℕ) → Settings → Handled
set_gm_only_mode none s = (s, incorrect_format ∷ [])
set_gm_only_mode (some packet) s =
    let off = first_byte (get_token packet).0 == b'0' in
    (record s { gm_check_mode = not off }, one_text ∷ [])

-- `ChangeLimitUser`, with `atoi` as `strtol`.
pub change_limit_user : Option (List ℕ) → Settings → Handled
change_limit_user none s = (s, [])
change_limit_user (some packet) s =
    let limituser = (strtol (get_token packet).0).0 in
    if ltb 0 limituser && ltb limituser 12000
    then (record s { socket_limit = limituser }, one_text ∷ [])
    else (s, [])

-- `INADDR_NONE`.
abbrev pub inaddr_none : ℕ
inaddr_none = 0xffffffff

-- `SetGMIP`; the token is cut to 16 bytes. `inet_addr` is the system's.
pub set_gm_ip : (List ℕ → ℕ) → Option (List ℕ) → Settings → Handled
set_gm_ip inet_addr none s = (s, zero_text ∷ [])
set_gm_ip inet_addr (some packet) s =
    let ip = inet_addr (take 16 (get_token packet).0) in
    if ip == inaddr_none then (s, zero_text ∷ []) else (record s { gm_ip = ip }, one_text ∷ [])

pub set_free_server : Option (List ℕ) → Settings → Handled
set_free_server none s = (s, zero_text ∷ [])
set_free_server (some packet) s =
    let c = first_byte (get_token packet).0 in
    if c == b'0'
    then (record s { free_server = false }, one_text ∷ [])
    else if c == b'1'
    then (record s { free_server = true }, one_text ∷ [])
    else (s, zero_text ∷ [])

-- The handlers of `interactivePacketTable`; those that are not named do nothing.
pub handle : (List ℕ → ℕ) → ℕ → Option (List ℕ) → Settings → Handled
handle inet_addr packet_number packet s =
    if packet_number == 1
    then change_limit_user packet s
    else if packet_number == 4
    then set_gm_only_mode packet s
    else if packet_number == 6
    then set_gm_ip inet_addr packet s
    else if packet_number == 8
    then set_free_server packet s
    else (s, [])

-- `sscanf(buf, "%d", &packetNumber)` reads what `strtol` reads; where there is no number, the variable
-- keeps `raw`, whatever the stack held.
pub packet_number : ℕ → List ℕ → ℕ
packet_number raw buf = let (n, rest) = strtol buf in if length rest == length buf then raw else n

-- `Process`, of the text up to the first NUL.
pub process : (List ℕ → ℕ) → ℕ → List ℕ → Settings → Handled
process inet_addr raw line s =
    let buf = c_str line in
    let n = packet_number raw buf in
    if ltb n 11 then handle inet_addr n (get_token buf).1 s else (s, [])

pub process_all : (List ℕ → ℕ) → ℕ → List (List ℕ) → Settings → Handled
process_all inet_addr raw [] s = (s, [])
process_all inet_addr raw (line ∷ lines) s =
    let (next, sent) = process inet_addr raw line s in
    let (last, more) = process_all inet_addr raw lines next in (last, sent ++ more)
