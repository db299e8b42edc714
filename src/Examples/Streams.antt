-- ===== src/Examples/Streams.antt =====
-- Packets and streams at concrete inputs.
use game_login.Base.{
  ℕ, ◌+◌, ◌≤◌, ◌<◌, ◌≡◌, refl, sym, List, [], ◌∷◌, none, some, arith, length, if◌then◌else◌, leb,
}
use game_login.Wire.Assemble.{
  Arg, char, short, text, assemble, assemble_len, ln_str_n_cpy, copy_chars, arg_bytes, text_bytes,
}
use game_login.Wire.Assemble.Layout.{all_bytes, assemble_lem}
use game_login.Wire.Assemble.Reading.{
  Field, char_field, short_field, text_field, sent_args, sent_as, read_fields, read_fields-assemble,
  length-ln_str_n_cpy,
}
use game_login.Wire.Framing.{
  game_server, read_len, read_body, wait, on_read, on_read_callback, buffer_size,
}
use game_login.Wire.Framing.Progress.{IsServed, on_read_callback-IsServed}
use game_login.Wire.Framing.Segments.{receive, flatten, receive-flatten}
use game_login.Wire.Framing.Sending.{to_server, peer, frame, send, server_send}
use game_login.Wire.Framing.Sending.Delivery.{send_all, received, bodies, receive-send_all}

-- A packet of kind 2 with a number and a name.
abbrev fields : List Field
fields = char_field 2 ∷ short_field 700 ∷ text_field 8 (b'a' ∷ b'b' ∷ []) ∷ []

abbrev packet : List ℕ
packet = 2 ∷ 188 ∷ 2 ∷ b'a' ∷ b'b' ∷ 0 ∷ []

abbrev args : List Arg
args = char 2 ∷ short 700 ∷ text (some (b'a' ∷ b'b' ∷ [])) ∷ []

fields_laid_out : assemble 100 (sent_args fields) ≡ some packet
unfolding assemble sent_args sent_as arg_bytes text_bytes
fields_laid_out = refl

assemble_lem_example :
    (assemble 100 args
      ≡ (if leb (length (all_bytes args)) 100 then some (all_bytes args) else none))
    × (assemble_len (assemble 100 args)
        ≡ (if leb (length (all_bytes args)) 100 then length (all_bytes args) else 0))
assemble_lem_example = assemble_lem 100 args

read_fields-assemble_example : read_fields fields packet ≡ some (fields, [])
read_fields-assemble_example = read_fields-assemble 100 fields packet (omega arith) fields_laid_out

abbrev short_copy : List ℕ
short_copy = b'a' ∷ b'b' ∷ 0 ∷ []

copied : ln_str_n_cpy (b'a' ∷ b'b' ∷ b'c' ∷ 0 ∷ []) 3 ≡ some (short_copy, 4)
unfolding ln_str_n_cpy copy_chars
copied = refl

length-ln_str_n_cpy_example : (length short_copy ≤ 3) × (4 ≤ 3 + 1)
length-ln_str_n_cpy_example =
    length-ln_str_n_cpy (b'a' ∷ b'b' ∷ b'c' ∷ 0 ∷ []) short_copy 3 4 (omega arith) copied

on_read_callback-IsServed_example :
    let r = on_read_callback (game_server 3) (read_body 2) (1 ∷ []) (7 ∷ 9 ∷ []) in
    IsServed (game_server 3) r × (length r.left < buffer_size)
on_read_callback-IsServed_example =
    on_read_callback-IsServed (game_server 3) (read_body 2) (1 ∷ []) (7 ∷ 9 ∷ []) (omega arith)
      (omega arith) (omega arith, omega arith)

abbrev segments : List (List ℕ)
segments = (8 ∷ []) ∷ (0 ∷ 2 ∷ 188 ∷ []) ∷ (2 ∷ b'a' ∷ b'b' ∷ 0 ∷ []) ∷ []

receive-flatten_example :
    receive (game_server 3) (wait read_len []) segments
    ≡ on_read (game_server 3) read_len (flatten segments)
receive-flatten_example = receive-flatten (game_server 3) (omega arith) segments (omega arith)

-- The frame of the packet: 6 bytes and the size of the header, less 1.
frames : send_all (to_server 3) (([], args) ∷ []) ≡ flatten segments
unfolding send_all send server_send frame assemble assemble_len arg_bytes text_bytes
frames = refl

receive-send_all_example :
    receive (peer (to_server 3) 21) (wait read_len []) segments
    ≡ received (bodies (([], args) ∷ []))
unfolding arg_bytes text_bytes
receive-send_all_example =
    receive-send_all (to_server 3) 21 (([], args) ∷ []) segments (omega arith)
      ((omega arith, omega arith, omega arith), tt) (omega arith) (sym frames)
