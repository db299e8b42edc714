-- ===== src/Clients.antt =====
-- The handlers of the client protocol in src/AuthServer/SocketServerEx.cpp, `SendResource`, and the client
-- resources of Config.cpp. The files that `LoadBinary` reads, `none` for one that it cannot open, are a
-- parameter, and so is the answer of `forbiddenIPList.IpExists`.
pub mod Updates
use game_login.Base.{
  ℕ, zero, suc, ◌+◌, ◌/◌, ◌%◌, ◌^◌, Bool, true, false, ◌&&◌, List, [], ◌∷◌, ◌++◌, Option, none,
  some, ltb, if◌then◌else◌, length,
}
use game_login.Base.OrderedMap.{lookup, insert}
use game_login.Wire.Assemble.{Arg, char, short, get_short}
use game_login.Wire.Framing.{buffer_size}

-- `mapResource`; a file is its bytes.
abbrev pub Resources : Type 0
Resources = List (ℕ × List ℕ)

-- One round of the loop of `InitClientVersionRes`, and the loop from `i` on with the rounds left; the
-- answer is `isFinish`.
pub add_resource : ℕ → Option (List ℕ) → Bool × Resources → Bool × Resources
add_resource i none (is_finish, resources) = (false, resources)
add_resource i (some file) (is_finish, resources) = (is_finish, insert i file resources)

pub load_resources : (ℕ → Option (List ℕ)) → ℕ → ℕ → Bool × Resources → Bool × Resources
load_resources files zero i loaded = loaded
load_resources files (suc left) i loaded =
    load_resources files left (i + 1) (add_resource i (files i) loaded)

pub init_client_version_res : (ℕ → Option (List ℕ)) → ℕ → Bool × Resources
init_client_version_res files server_version = load_resources files server_version 1 (true, [])

-- `GetClientResourceById`; `none` is the null pointer.
pub get_client_resource_by_id : ℕ → Resources → Option (List ℕ)
get_client_resource_by_id key resources = lookup key resources

-- `SendResource` with the command 1: the bytes that it hands to `Write`; `none` is a copy past the end of
-- the buffer.
pub send_resource : ℕ → List ℕ → Option (List ℕ)
send_resource key file =
    let len = length file + 1 + 2 + 2 in
    if ltb buffer_size len
    then none
    else some ((len % 256) ∷ (len / 2 ^ 8 % 256) ∷ 1 ∷ (key % 256) ∷ (key / 2 ^ 8 % 256) ∷ file)

-- What a handler does: a packet for `Send` or bytes for `Write`, and whether the socket is closed.
pub data Reply : Type 0 where
  sends : List Arg → Reply
  writes : List ℕ → Reply

pub record Handled : Type 0 where
  pub reply : Reply
  pub closes : Bool

-- `ClientVersion` without the time in `m_lastIO`; `AC_LOGIN_FAIL` is 1 and `S_BLOCKED_IP` is 22.
pub client_version : Bool → Bool → ℕ → Handled
client_version use_forbidden_ip_list forbidden server_version =
    if use_forbidden_ip_list && forbidden
    then record { reply = sends (char 1 ∷ char 22 ∷ []); closes = false }
    else record { reply = sends (char 0 ∷ short server_version ∷ []); closes = false }

-- `SelectClientVersion` from the key on; `S_LIMIT_EXCEED` is 15. `none` is an access through the null
-- pointer or past the end of a buffer: the test for `fileBuff == NULL` reads through the pointer that
-- `GetClientResourceById` returns, and no file in the map has a `fileBuff` of `NULL`.
pub select_version : ℕ → Resources → ℕ → Option Handled
select_version server_version resources key =
    if ltb server_version key
    then some (record { reply = sends (char 255 ∷ char 15 ∷ []); closes = true })
    else elim (get_client_resource_by_id key resources) [
      | none ↦ none
      | some file ↦ elim (send_resource key file) [
        | none ↦ none
        | some out ↦ some (record { reply = writes out; closes = false })
      ]
    ]

pub select_client_version : ℕ → Resources → List ℕ → Option Handled
select_client_version server_version resources packet = elim (get_short packet) [
  | none ↦ none
  | some (key, rest) ↦ select_version server_version resources key
]
