-- ===== src/Tests/Packets.antt =====
-- Packets and handshakes at concrete inputs.
use linkedon_push.Common.{
  ℕ, ◌%◌, ◌≡◌, ◌≤◌, ◌↔◌, refl, true, [], ◌∷◌, ◌++◌, some, Bytes, length, All, StringMap, arith,
}
use linkedon_push.Errors.{error_success}
use linkedon_push.Wire.{split_int}
use linkedon_push.Math.Laws.{IsDigit}
use linkedon_push.Socket.{StSocket}
use linkedon_push.Socket.Stream.{Sent}
use linkedon_push.Socket.Pipe.{Ends, pipe, pipe-IsStream, pipe-IsLive, pipe-IsWriter}
use linkedon_push.FastBuffer.{FastBuffer}
use linkedon_push.FastBuffer.View.{advance}
use linkedon_push.Fmt.Json.{refused, decode_json}
use linkedon_push.Protocol.{
  Header, empty_header, empty_chunk, block, lpush_flag, handshake_data_max, read_header,
  read_fields, read_message, flag_found,
}
use linkedon_push.Protocol.Packet.{IsPacket, packet}
use linkedon_push.Protocol.Parse.{read_header_lem}
use linkedon_push.Protocol.Parse.{read_header_lem}
use linkedon_push.Protocol.Flag.{read_header_sound}
use linkedon_push.Protocol.Receive.{Delivers, read_message_lem}
use linkedon_push.Protocol.Send.{send_packet, send_packet_lem}
use linkedon_push.Protocol.Handshake.{
  HandshakeMessage, empty_message, check, signature, handshake, set_params, tomap,
}
use linkedon_push.Protocol.Authorised.{check_iff, handshake_sound}
use linkedon_push.Tests.Samples.{
  socket_of, buffer_of, hello, hello_body, zero_md5, alice, knows_alice, handshake_chunk,
}

abbrev incoming : Bytes
incoming = packet hello hello_body ++ (9 ∷ 9 ∷ [])

-- A buffer in which the packet has arrived whole.
abbrev arrived_packet : Bytes → FastBuffer
arrived_packet bs = record { mem = bs; p = 0; end = length bs; nb_buffer = length bs }

pub hello-IsPacket : IsPacket hello hello_body
hello-IsPacket = omega arith

read_message_lem_example :
    Delivers pipe
      (λ s. s.incoming)
      pipe-IsStream
      pipe-IsLive
      (read_message pipe empty_chunk (buffer_of 800) (socket_of incoming))
      (record { header = hello; body = block hello_body })
      (9 ∷ 9 ∷ [])
      800
read_message_lem_example =
    read_message_lem pipe (λ s. s.incoming) pipe-IsStream pipe-IsLive hello hello_body (9 ∷ 9 ∷ [])
      empty_chunk (socket_of incoming) hello-IsPacket (omega arith) (omega arith) refl

header_read :
    read_header empty_header (arrived_packet incoming)
    ≡ some (error_success, hello, advance 14 (arrived_packet incoming))
unfolding split_int
header_read =
    read_header_lem hello empty_header (hello_body ++ (9 ∷ 9 ∷ [])) (omega arith) (omega arith)
      (record { valid = omega arith; exact = refl })

read_header_sound_example :
    (flag_found (advance 5 (arrived_packet incoming)) 0 ≡ true)
    × (1 ≤ 3)
    × (3 ≤ 400)
    × (advance 14 (arrived_packet incoming) ≡ advance 14 (arrived_packet incoming))
unfolding split_int
read_header_sound_example =
    read_header_sound empty_header hello (arrived_packet incoming)
      (advance 14 (arrived_packet incoming)) header_read

send_packet_lem_example :
    (ret : ℕ) × (skt : StSocket Ends) × (send_packet pipe
        (record { header = hello; body = block (hello_body ++ (8 ∷ [])) })
        (socket_of [])
      ≡ some (ret, skt))
    × Sent (λ (e : Ends). e.outgoing) (packet hello hello_body) (socket_of []).io ret skt.io
send_packet_lem_example =
    send_packet_lem pipe (λ s. s.outgoing) pipe-IsWriter hello hello_body (8 ∷ []) (socket_of [])
      refl (omega arith)

check_iff_example :
    (check zero_md5 alice ≡ true)
    ↔ (All IsDigit alice.user_id × (alice.md5_data ≡ signature zero_md5 alice))
check_iff_example = check_iff zero_md5 alice

alice_enters :
    handshake zero_md5 knows_alice handshake_chunk empty_message ≡ some (error_success, alice)
unfolding handshake linkedon_push.Protocol.Handshake.handshake_data linkedon_push.Fmt.is_type
    decode_json linkedon_push.Wire.read_int split_int linkedon_push.Fmt.copy_block
    linkedon_push.Wire.join_int linkedon_push.Protocol.Handshake.handshake_params check
    linkedon_push.Math.is_interge_str set_params linkedon_push.Fmt.Json.insert_all tomap
    linkedon_push.Math.md5_encoder
alice_enters = refl

handshake_sound_example :
    (handshake_chunk.header.data_type % 16 ≡ 1)
    × All IsDigit alice.user_id
    × (alice.md5_data ≡ signature zero_md5 alice)
    × ((bs : Bytes) × (parms : StringMap) × (handshake_chunk.body ≡ block bs)
        × (decode_json knows_alice bs [] ≡ some (7, parms))
        × (alice ≡ set_params parms))
handshake_sound_example =
    handshake_sound zero_md5 knows_alice handshake_chunk empty_message alice alice_enters
