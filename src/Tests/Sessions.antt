-- ===== src/Tests/Sessions.antt =====
-- Connections at concrete inputs.
use linkedon_push.Common.{
  ℕ, ◌+◌, ◌≡◌, ◌≢◌, ◌≤◌, ◌<◌, refl, true, List, [], ◌∷◌, ◌++◌, Option, none, some, Bytes, codes,
  if◌then◌else◌, ◌==◌, All, find, nat_key, bytes_key, arith,
}
use linkedon_push.Errors.{error_success}
use linkedon_push.Math.Laws.{IsDigit}
use linkedon_push.Socket.{StSocket}
use linkedon_push.Socket.Stream.{Sent}
use linkedon_push.Socket.Pipe.{Ends, pipe, pipe-IsWriter}
use linkedon_push.Protocol.{Header, Chunk, null, block}
use linkedon_push.Protocol.Packet.{packet}
use linkedon_push.Protocol.Handshake.{HandshakeMessage, empty_message, signature}
use linkedon_push.Source.Message.{Members, to_json_string}
use linkedon_push.Source.Registry.{Client, empty_registry, instance_client, client_key, key_of}
use linkedon_push.Source.Registry.Inv.{IsValid}
use linkedon_push.Conn.{log, redis_lpush, Env, Session, check_user_message, is_expired}
use linkedon_push.Conn.Open.{make_entity, open_session, register}
use linkedon_push.Conn.Secret.{no_secret_enters}
use linkedon_push.Conn.Register.{connection_reply, register_first}
use linkedon_push.Conn.Authorised.{open_session_sound}
use linkedon_push.Conn.Forward.{forward_server, recv_push_callback}
use linkedon_push.Conn.Callback.{IsId, recv_push_callback_lem}
use linkedon_push.Fmt.RoundTrip.{string_value}
use linkedon_push.Conn.Push.{json_value, push_header, send_forward, send_forward_lem}
use linkedon_push.Tests.Samples.{env, session, alice, zero_md5, knows_alice, roomy, opening}
use linkedon_push.Tests.Sources.{empty-IsValid, with_alice, news}

some_secret : codes "secret key" ≢ []
some_secret e = cc

no_secret_test : check_user_message env empty_message ≡ error_success
no_secret_test = no_secret_enters env empty_message some_secret refl

register_first_example :
    (ret : ℕ) × (s : Session Ends) × (c : Client) × (register pipe env
        (session alice [] empty_registry)
      ≡ some (ret, s))
    × IsValid s.registry
    × (s.client ≡ some c)
    × (instance_client (codes "12") (codes "app") (codes "key") s.registry ≡ some c)
    × (find c.source s.registry.queues ≡ some [])
    × Sent
        (λ (e : Ends). e.outgoing)
        (connection_reply 1000 1)
        (session alice [] empty_registry).skt.io
        ret
        s.skt.io
    × (s.mie ≡ (if ret == error_success then some (make_entity env alice) else none))
unfolding instance_client
register_first_example =
    register_first pipe env (λ s. s.outgoing) pipe-IsWriter (session alice [] empty_registry)
      empty-IsValid refl refl

-- A printer that knows one text.
abbrev pub printer : Members → Bytes
printer ms = codes "{}"

send_forward_lem_example :
    let json = to_json_string printer news in
    (ret : ℕ) × (skt : StSocket Ends) × (send_forward pipe env printer news
        (session alice [] with_alice)
      ≡ some (ret, record (session alice [] with_alice) { skt = skt }))
    × Sent
        (λ (e : Ends). e.outgoing)
        (packet (push_header 1000 json) (json_value json))
        (session alice [] with_alice).skt.io
        ret
        skt.io
unfolding to_json_string
send_forward_lem_example =
    send_forward_lem pipe env (λ s. s.outgoing) pipe-IsWriter printer news
      (session alice [] with_alice) (omega arith)

-- A message of a type that the connection ignores.
abbrev tick : ℕ → Chunk
tick t = record { header = record { timestamp = t; data_type = 9; datalenght = 1 }; body = null }

abbrev after : ℕ → Session Ends → Session Ends
after t s = record s { before_data_time = s.now_data_time; now_data_time = t }

tick_forwarded :
    (forward_server env roomy (tick 100) (session alice [] with_alice)
      ≡ some (error_success, after 100 (session alice [] with_alice)))
    × (forward_server env roomy (tick 161) (after 100 (session alice [] with_alice))
        ≡ some (error_success, after 161 (after 100 (session alice [] with_alice))))
unfolding forward_server linkedon_push.Conn.Forward.dispatch linkedon_push.Conn.sign_extend
tick_forwarded = (refl, refl)

abbrev callback_header : Header
callback_header = record { timestamp = 7; data_type = 8; datalenght = 12 }

one-IsId : IsId (1 ∷ [])
one-IsId = record { no_nul = omega arith; some_text = λ e. cc; fits = omega arith }

recv_push_callback_lem_example :
    recv_push_callback env roomy
      (record {
        header = callback_header;
        body = block (string_value (1 ∷ []) ++ (string_value (1 ∷ []) ++ []));
      })
      (session alice [] with_alice)
    ≡ some (
      error_success,
      log (redis_lpush (env.result_list ++ (1 ∷ [])) (1 ∷ []) ∷ []) (session alice [] with_alice),
    )
recv_push_callback_lem_example =
    recv_push_callback_lem env roomy callback_header (1 ∷ []) (1 ∷ []) []
      (session alice [] with_alice) one-IsId one-IsId

-- The state that alice's opening leaves.
abbrev opened : Session Ends
opened =
    elim (open_session pipe env zero_md5 knows_alice roomy
      (session empty_message opening empty_registry)) [
        | none ↦ session empty_message [] empty_registry
        | some answer ↦ answer.1
      ]

opening_succeeds :
    open_session pipe env zero_md5 knows_alice roomy (session empty_message opening empty_registry)
    ≡ some (error_success, opened)
unfolding open_session linkedon_push.Conn.Open.conn_handshake linkedon_push.Protocol.read_message
    linkedon_push.FastBuffer.grow linkedon_push.FastBuffer.fill linkedon_push.Socket.read
    linkedon_push.Socket.set_send_timeout linkedon_push.Socket.set_recv_timeout
    linkedon_push.Wire.split_int linkedon_push.Protocol.read_header
    linkedon_push.FastBuffer.read_slice linkedon_push.Protocol.flag_found
    linkedon_push.Common.splice linkedon_push.Protocol.read_fields linkedon_push.Protocol.int_at
    linkedon_push.Wire.read_int linkedon_push.FastBuffer.read_1byte linkedon_push.Wire.join_int
    linkedon_push.Conn.Open.accept linkedon_push.Conn.Open.announce
    linkedon_push.Conn.Open.create_connection linkedon_push.Conn.Open.decide_client
    linkedon_push.Conn.Open.dismiss linkedon_push.Conn.Open.insert_member
    linkedon_push.Conn.Open.make_entity linkedon_push.Conn.Open.refuse register
    linkedon_push.Conn.Open.welcome linkedon_push.Conn.check_secret check_user_message
    linkedon_push.FastBuffer.compact linkedon_push.Fmt.Json.decode_json
    linkedon_push.Fmt.Json.finish_json linkedon_push.Fmt.Json.insert_all
    linkedon_push.Fmt.copy_block linkedon_push.Fmt.is_type linkedon_push.Math.count_digits
    linkedon_push.Math.digit_matches linkedon_push.Math.hex linkedon_push.Math.hex_digit
    linkedon_push.Math.is_interge_str linkedon_push.Math.md5_encoder
    linkedon_push.Protocol.Handshake.check linkedon_push.Protocol.Handshake.create_connection
    linkedon_push.Protocol.Handshake.create_string linkedon_push.Protocol.Handshake.handshake
    linkedon_push.Protocol.Handshake.handshake_data
    linkedon_push.Protocol.Handshake.handshake_params linkedon_push.Protocol.Handshake.set_params
    linkedon_push.Protocol.Handshake.to_mongomap linkedon_push.Protocol.Handshake.tomap
    linkedon_push.Protocol.Send.body_vector linkedon_push.Protocol.Send.header_block
    linkedon_push.Protocol.Send.send_byte linkedon_push.Protocol.Send.send_create_connection
    linkedon_push.Protocol.Send.send_handshake linkedon_push.Protocol.Send.send_packet
    linkedon_push.Protocol.new_chunk linkedon_push.Protocol.no_body linkedon_push.Protocol.read_body
    linkedon_push.Protocol.set_block linkedon_push.Protocol.set_data
    linkedon_push.Socket.finish_read linkedon_push.Socket.finish_write linkedon_push.Socket.writev
    linkedon_push.Source.Keys.make_app_key linkedon_push.Source.Keys.make_platform
    linkedon_push.Source.Keys.platform_part linkedon_push.Source.Registry.create_client
    linkedon_push.Source.Registry.create_source instance_client
    linkedon_push.Source.Registry.make_client
opening_succeeds = refl

open_session_sound_example :
    All IsDigit opened.handshake_msg.user_id
    × (opened.handshake_msg.md5_data ≡ signature zero_md5 opened.handshake_msg)
    × (check_user_message env opened.handshake_msg ≡ error_success)
    × ((c : Client) × (opened.client ≡ some c)
        × (c.user_id ≡ opened.handshake_msg.user_id)
        × (c.app_id ≡ opened.handshake_msg.app_id)
        × (c.screte_key ≡ opened.handshake_msg.screte_key))
open_session_sound_example =
    open_session_sound pipe env zero_md5 knows_alice roomy
      (session empty_message opening empty_registry) opened opening_succeeds
