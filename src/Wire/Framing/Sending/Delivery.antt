-- ===== src/Wire/Framing/Sending/Delivery.antt =====
-- What an end that reads as the program does makes of the packets that the `Send` methods frame.
use game_login.Base.{
  ℕ, ◌+◌, ◌-◌, ◌/◌, ◌%◌, ◌^◌, ◌≤◌, ◌<◌, ◌≡◌, refl, sym, ap, ◌∙◌, List, [], ◌∷◌, ◌++◌, arith, length,
  take, drop, length-append, All, get_or,
}
use game_login.Wire.Assemble.{Arg}
use game_login.Wire.Assemble.Layout.{all_bytes, assemble_lem}
use game_login.Wire.Framing.{
  Protocol, read_len, Result, wait, post, loop, on_read, buffer_size, length_field,
}
use game_login.Wire.Framing.Segments.{flatten, receive, receive-flatten, step_len, step_body}
use game_login.Wire.Framing.Sending.{
  frame, server_send, client_send, ip_send, log_send, Sender, to_server, to_client, to_ip_server,
  to_log_server, send, peer,
}

-- The number in the header of a packet of `n` bytes.
abbrev field : Sender → ℕ → ℕ
field (to_server size_type) n = n - 1 + size_type
field (to_client size_type) n = n - 1 + size_type
field to_ip_server n = n - 1
field to_log_server n = n - 1 + 3

abbrev pub IsSizeType : Sender → Type 0
IsSizeType (to_server size_type) = size_type ≤ 2 ^ 15
IsSizeType (to_client size_type) = size_type ≤ 2 ^ 15
IsSizeType to_ip_server = Unit
IsSizeType to_log_server = Unit

-- A packet that fits the buffer behind the header, and whose kind the other end knows.
abbrev pub IsMessage : ℕ → List Arg → Type 0
IsMessage kinds args =
    (0 < length (all_bytes args))
    × (length (all_bytes args) ≤ buffer_size - 2)
    × (get_or (all_bytes args) 0 0 < kinds)

take_all : (xs ys : List ℕ) → take (length xs) (xs ++ ys) ≡ xs
take_all [] ys = refl
take_all (x ∷ xs) ys = ap (λ t. x ∷ t) (take_all xs ys)

drop_all : (xs ys : List ℕ) → drop (length xs) (xs ++ ys) ≡ ys
drop_all [] ys = refl
drop_all (x ∷ xs) ys = drop_all xs ys

length-frame : (v : ℕ) (body : List ℕ) → length (frame v body) ≡ length body + 2
unfolding frame
length-frame v body = omega arith

take-frame :
    (n v : ℕ) (body stale : List ℕ)
    → n ≡ length body + 2
    → take n (frame v body ++ stale) ≡ frame v body
take-frame n v body stale h =
    ap (λ t. take t (frame v body ++ stale)) (h ∙ sym (length-frame v body))
    ∙ take_all (frame v body) stale

send-frame :
    (s : Sender) (kinds : ℕ) (stale : List ℕ) (args : List Arg)
    → IsMessage kinds args
    → send s stale args ≡ frame (field s (length (all_bytes args))) (all_bytes args)
unfolding send server_send client_send ip_send log_send
send-frame (to_server t) kinds stale args h =
    let body = all_bytes args in
    let v = length body - 1 + t in
    ground (arith, assemble_lem (buffer_size - 2) args, take-frame (v + 3 - t) v body stale)
send-frame (to_client t) kinds stale args h =
    let body = all_bytes args in
    let v = length body - 1 + t in
    let n = v + 1 - t in
    ground (arith, assemble_lem (buffer_size - 2) args, take-frame (n + 2) (n - 1 + t) body stale)
send-frame to_ip_server kinds stale args h =
    let body = all_bytes args in
    let v = length body - 1 in
    ground (arith, assemble_lem (buffer_size - 2) args, take-frame (v + 3) v body stale)
send-frame to_log_server kinds stale args h =
    let body = all_bytes args in
    let v = length body - 1 + 3 in
    ground (arith, assemble_lem (buffer_size - 2) args, take-frame v v body stale)

-- One frame at the front of the buffer.
pub on_read-frame :
    (p : Protocol) (v : ℕ) (body rest : List ℕ)
    → p.need ≤ 3
    → 0 < length body
    → length body ≤ buffer_size
    → v + p.extra ≡ length body + p.less
    → v < 2 ^ 16
    → get_or body 0 0 < p.max_kind
    → on_read p read_len (frame v body ++ rest) ≡ post body (on_read p read_len rest)
unfolding frame length_field
on_read-frame p v [] rest need pos fits e small known = absurd (omega arith)
on_read-frame p v (b ∷ bs) rest need pos fits e small known =
    let bytes = (v / 2 ^ 8 % 256) ∷ b ∷ bs ++ rest in
    ground (
      arith,
      step_len p (v % 256) bytes,
      step_body p (length (b ∷ bs)) b (bs ++ rest),
      length-append bs rest,
      take_all (b ∷ bs) rest,
      drop_all (b ∷ bs) rest,
    )

-- The calls of `Send` on one socket, each with the old bytes of the buffer that it takes.
unfoldable pub send_all : Sender → List (List ℕ × List Arg) → List ℕ
send_all s [] = []
send_all s ((stale, args) ∷ more) = send s stale args ++ send_all s more

pub bodies : List (List ℕ × List Arg) → List (List ℕ)
bodies [] = []
bodies ((stale, args) ∷ more) = all_bytes args ∷ bodies more

abbrev pub AreMessages : ℕ → List (List ℕ × List Arg) → Type 0
AreMessages kinds messages = All (λ m. IsMessage kinds m.1) messages

pub received : List (List ℕ) → Result
received packets = record { posted = packets; mode = read_len; left = [] }

on_read-send :
    (s : Sender) (kinds : ℕ) (stale : List ℕ) (args : List Arg) (rest : List ℕ)
    → IsSizeType s
    → IsMessage kinds args
    → let p = peer s kinds in
      on_read p read_len (send s stale args ++ rest)
      ≡ post (all_bytes args) (on_read p read_len rest)
on_read-send s kinds stale args rest size h =
    let body = all_bytes args in
    let p = peer s kinds in
    let v = field s (length body) in
    ap (λ t. on_read p read_len (t ++ rest)) (send-frame s kinds stale args h)
    ∙ on_read-frame p v body rest (need s) h.0 (omega (arith, h.1)) (agrees s (length body) h.0)
        (small s (length body) size h.1) (known s)
  where
    need : (s : Sender) → (peer s kinds).need ≤ 3
    need (to_server t) = omega arith
    need (to_client t) = omega arith
    need to_ip_server = omega arith
    need to_log_server = omega arith

    agrees :
        (s : Sender) (n : ℕ) → 0 < n → field s n + (peer s kinds).extra ≡ n + (peer s kinds).less
    agrees (to_server t) n pos = omega arith
    agrees (to_client t) n pos = omega arith
    agrees to_ip_server n pos = omega arith
    agrees to_log_server n pos = omega arith

    small : (s : Sender) (n : ℕ) → IsSizeType s → n ≤ buffer_size - 2 → field s n < 2 ^ 16
    small (to_server t) n size le = omega arith
    small (to_client t) n size le = omega arith
    small to_ip_server n size le = omega arith
    small to_log_server n size le = omega arith

    known : (s : Sender) → get_or (all_bytes args) 0 0 < (peer s kinds).max_kind
    known (to_server t) = h.2
    known (to_client t) = h.2
    known to_ip_server = h.2
    known to_log_server = h.2

on_read_all :
    (s : Sender) (kinds : ℕ) (messages : List (List ℕ × List Arg))
    → IsSizeType s
    → AreMessages kinds messages
    → on_read (peer s kinds) read_len (send_all s messages) ≡ received (bodies messages)
unfolding send_all bodies received
on_read_all s kinds [] size h = unfold on_read loop in refl
on_read_all s kinds ((stale, args) ∷ more) size h =
    on_read-send s kinds stale args (send_all s more) size h.0
    ∙ ap (post (all_bytes args)) (on_read_all s kinds more size h.1)

-- Packets that fit the buffer and whose kind the other end knows are sent one after another on a
-- socket by its `Send`, with a `PacketSizeType` of at most 2^15. However the stream is cut into
-- segments, none of them empty, an end that takes the length as `OnRead` does posts the packets in
-- the order of the calls, whole and with nothing added, whatever the buffers held before; and it
-- then waits for the next length with an empty buffer.
pub receive-send_all :
    (s : Sender) (kinds : ℕ) (messages : List (List ℕ × List Arg)) (segments : List (List ℕ))
    → IsSizeType s
    → AreMessages kinds messages
    → All (λ segment. 0 < length segment) segments
    → flatten segments ≡ send_all s messages
    → receive (peer s kinds) (wait read_len []) segments ≡ received (bodies messages)
receive-send_all s kinds messages segments size h full e =
    receive-flatten (peer s kinds) (two s) segments full
    ∙ ap (on_read (peer s kinds) read_len) e
    ∙ on_read_all s kinds messages size h
  where
    two : (s : Sender) → 2 ≤ (peer s kinds).need
    two (to_server t) = omega arith
    two (to_client t) = omega arith
    two to_ip_server = omega arith
    two to_log_server = omega arith
