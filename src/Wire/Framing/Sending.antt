-- ===== src/Wire/Framing/Sending.antt =====
-- `Send` of src/AuthServer/CSocketServer.cpp, SocketServerEx.cpp, IPSessionDB.cpp and LogSocket.cpp:
-- a packet of `Assemble` behind its length, and what an end that reads in the same way makes of it.
pub mod Delivery
use mathlib.Core.Option as Opt
use game_login.Base.{
  ℕ, ◌+◌, ◌-◌, ◌/◌, ◌%◌, ◌^◌, ◌≤◌, ◌<◌, ◌≡◌, refl, sym, ap, ◌∙◌, List, [], ◌∷◌, ◌++◌, ◌==◌,
  if◌then◌else◌, arith, length, take, drop, length-append, All, get_or,
}
use game_login.Wire.Assemble.{Arg, assemble, assemble_len}
use game_login.Wire.Assemble.Layout.{all_bytes, assemble_lem}
use game_login.Wire.Framing.{
  Protocol, read_len, Result, wait, post, loop, on_read, buffer_size, length_field,
}
use game_login.Wire.Framing.Segments.{flatten, receive, receive-flatten, step_len, step_body}

-- The header `buffer[0]`, `buffer[1]` in front of the packet.
unfoldable pub frame : ℕ → List ℕ → List ℕ
frame len body = (len % 256) ∷ (len / 2 ^ 8 % 256) ∷ body

-- `CSocketServer::Send` and `CSocketServerEx::NonEncSend`. The first argument is `PacketSizeType`, and
-- the second the bytes that the buffer of the pool holds besides those that the call writes.
unfoldable pub server_send : ℕ → List ℕ → List Arg → List ℕ
server_send size_type stale args =
    let out = assemble (buffer_size - 2) args in
    let len = assemble_len out in
    if len == 0
    then take (3 - size_type) stale
    else (let field = len - 1 + size_type in
        take (field + 3 - size_type) (frame field (Opt.get_or out []) ++ stale))

-- `CSocketServerEx::Send` writes nothing when the packet is too large.
pub client_send : ℕ → List ℕ → List Arg → List ℕ
client_send size_type stale args =
    let out = assemble (buffer_size - 2) args in
    let len = assemble_len out in
    let field = len - 1 + size_type in
    let tmplen = field + 1 - size_type in
    if len == 0
    then []
    else take (tmplen + 2) (frame (tmplen - 1 + size_type) (Opt.get_or out []) ++ stale)

-- `CIPSocket::Send`.
pub ip_send : List ℕ → List Arg → List ℕ
ip_send stale args =
    let out = assemble (buffer_size - 2) args in
    let len = assemble_len out in
    if len == 0
    then take 3 stale
    else take (len - 1 + 3) (frame (len - 1) (Opt.get_or out []) ++ stale)

-- `CLogSocket::Send` and `Send2`: the header counts itself, with a `PacketSizeType` of 3.
pub log_send : List ℕ → List Arg → List ℕ
log_send stale args =
    let out = assemble (buffer_size - 2) args in
    let len = assemble_len out in
    if len == 0 then [] else take (len - 1 + 3) (frame (len - 1 + 3) (Opt.get_or out []) ++ stale)

pub data Sender : Type 0 where
  to_server : ℕ → Sender
  to_client : ℕ → Sender
  to_ip_server : Sender
  to_log_server : Sender

unfoldable pub send : Sender → List ℕ → List Arg → List ℕ
send (to_server size_type) = server_send size_type
send (to_client size_type) = client_send size_type
send to_ip_server = ip_send
send to_log_server = log_send

-- An end that takes the length as the `OnRead` methods of the program do, with handlers for the kinds
-- below `kinds`.
abbrev pub peer : Sender → ℕ → Protocol
peer (to_server size_type) kinds = record {
  need = 3;
  extra = 1;
  less = size_type;
  max_kind = kinds;
}
peer (to_client size_type) kinds = record {
  need = 3;
  extra = 1;
  less = size_type;
  max_kind = kinds;
}
peer to_ip_server kinds = record { need = 3; extra = 1; less = 0; max_kind = kinds }
peer to_log_server kinds = record { need = 3; extra = 1; less = 3; max_kind = kinds }
