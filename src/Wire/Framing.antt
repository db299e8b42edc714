-- ===== src/Wire/Framing.antt =====
-- The `OnRead` methods of src/AuthServer/CSocketServer.cpp, SocketServerEx.cpp, IPSessionDB.cpp and
-- LogSocket.cpp: one loop, which cuts packets out of the read buffer, with the numbers that differ.
pub mod Progress
pub mod Segments
pub mod Sending
use game_login.Base.{
  ℕ, zero, suc, ◌+◌, ◌-◌, ◌*◌, ◌/◌, ◌%◌, ◌^◌, Bool, true, false, ◌&&◌, List, [], ◌∷◌, ◌++◌, ltb,
  leb, if◌then◌else◌, length, take, drop, get_or,
}

abbrev pub buffer_size : ℕ
buffer_size = 20480

-- A kind of socket. `need` bytes have to be there before a length is read; the packet has the length
-- read plus `extra` less `less` bytes; its first byte is below `max_kind`.
pub record Protocol : Type 0 where
  pub need : ℕ
  pub extra : ℕ
  pub less : ℕ
  pub max_kind : ℕ

-- `CSocketServer`, the game servers; the argument is `config.PacketSizeType`, and `AS_MAX` is 21.
abbrev pub game_server : ℕ → Protocol
game_server size_type = record { need = 3; extra = 1; less = size_type; max_kind = 21 }

-- `CSocketServerEx`, the clients; `AQ_MAX` is 2.
abbrev pub client : Protocol
client = record { need = 2; extra = 0; less = 2; max_kind = 2 }

-- `CIPSocket`, the IP server; `IA_MAX` is 14.
abbrev pub ip_server : Protocol
ip_server = record { need = 3; extra = 1; less = 0; max_kind = 14 }

-- `CLogSocket`, the log server: its test for an unknown kind is `inBuf[pi] >= 0`.
abbrev pub log_server : ℕ → Protocol
log_server size_type = record { need = 3; extra = 1; less = size_type; max_kind = 0 }

-- `SM_READ_LEN`, `SM_READ_BODY` with the member `packetLen`, and `SM_CLOSE`.
pub data Mode : Type 0 where
  read_len : Mode
  read_body : ℕ → Mode
  closed : Mode

-- What a call of `OnRead` comes to: the packets that it posts, the mode, and the bytes left in the
-- buffer for the `Read` that it ends with; a socket that it closes has mode `closed`.
pub record Result : Type 0 where
  pub posted : List (List ℕ)
  pub mode : Mode
  pub left : List ℕ

abbrev pub stop : Result
stop = record { posted = []; mode = closed; left = [] }

abbrev pub wait : Mode → List ℕ → Result
wait mode left = record { posted = []; mode = mode; left = left }

abbrev pub post : List ℕ → Result → Result
post packet r = record r { posted = packet ∷ r.posted }

-- `inBuf[pi] + (inBuf[pi + 1] << 8)`.
pub length_field : List ℕ → ℕ
length_field buf = get_or buf 0 0 + get_or buf 1 0 * 2 ^ 8

-- The loop at the bytes from `pi` on. Each round takes bytes off, so the count of them is fuel enough.
pub loop : Protocol → ℕ → Mode → List ℕ → Result
loop p zero mode rest = wait mode rest
loop p (suc fuel) mode [] = wait mode []
loop p (suc fuel) closed (b ∷ bs) = stop
loop p (suc fuel) read_len (b ∷ bs) =
    let rest = b ∷ bs in
    let total = length_field rest + p.extra in
    elim (leb p.need (length rest)) [
      | false ↦ wait read_len rest
      | true ↦ elim (ltb p.less total && leb (total - p.less) buffer_size) [
        | false ↦ stop
        | true ↦ loop p fuel (read_body (total - p.less)) (drop 2 rest)
      ]
    ]
loop p (suc fuel) (read_body len) (b ∷ bs) =
    let rest = b ∷ bs in
    elim (leb len (length rest)) [
      | false ↦ wait (read_body len) rest
      | true ↦ elim (ltb b p.max_kind) [
        | false ↦ stop
        | true ↦ post (take len rest) (loop p fuel read_len (drop len rest))
      ]
    ]

-- `OnRead` over the whole buffer.
pub on_read : Protocol → Mode → List ℕ → Result
on_read p closed buf = stop
on_read p read_len buf = loop p (length buf + 1) read_len buf
on_read p (read_body len) buf = loop p (length buf + 1) (read_body len) buf

-- `OnReadCallback`: the bytes received are behind those left; none at all means the peer has closed.
-- The test of the reference count is left out: whoever calls it holds a reference.
pub on_read_callback : Protocol → Mode → List ℕ → List ℕ → Result
on_read_callback p mode left [] = stop
on_read_callback p mode left (b ∷ bs) = on_read p mode (left ++ (b ∷ bs))
