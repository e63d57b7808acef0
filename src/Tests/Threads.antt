-- ===== src/Tests/Threads.antt =====
-- The two threads of a connection at concrete inputs.
use linkedon_push.Common.{
  ℕ, ◌+◌, ◌≡◌, ◌≤◌, refl, Bool, true, false, List, [], ◌∷◌, ◌++◌, Option, none, some, Bytes, codes,
  find, nat_key, arith, ◌>>=◌,
}
use linkedon_push.Errors.{error_success}
use linkedon_push.Socket.{StSocket}
use linkedon_push.Socket.Pipe.{Ends, pipe, pipe-IsStream, pipe-IsLive, pipe-IsWriter}
use linkedon_push.FastBuffer.{FastBuffer, unread}
use linkedon_push.FastBuffer.Inv.{IsValid}
use linkedon_push.Protocol.{block}
use linkedon_push.Protocol.Packet.{packet}
use linkedon_push.Source.Registry.{Registry}
use linkedon_push.Conn.{Session}
use linkedon_push.Conn.Forward.{forward_server}
use linkedon_push.Conn.Cycle.{Round, Turn, finish_round, recv_round, consume_rounds}
use linkedon_push.Conn.Cycle.Receive.{Ended, recv_round_lem, recv_round_ends}
use linkedon_push.Conn.Cycle.Consume.{Consumed, consume_rounds_lem}
use linkedon_push.Tests.Samples.{env, session, alice, roomy, hello, hello_body}
use linkedon_push.Tests.Packets.{hello-IsPacket}
use linkedon_push.Tests.Sources.{with_alice, alice_client, news}
use linkedon_push.Tests.Sessions.{printer}

abbrev running : Session Ends
running = record (session alice (packet hello hello_body ++ (9 ∷ [])) with_alice) {
  redis_app = some (record { app_key = codes "a"; key = codes "k"; value = codes "v" });
  redis_platform = some (record { platform_key = codes "p"; key = codes "k"; value = codes "v" });
}

recv_round_lem_example :
    (fb : FastBuffer) × (skt : StSocket Ends) × IsValid fb
    × (fb.nb_buffer ≡ 800)
    × (unread fb ++ skt.io.incoming ≡ 9 ∷ [])
    × (recv_round pipe env true roomy running ≡ (
        forward_server env roomy
          (record { header = hello; body = block hello_body })
          (record running { buffer = fb; skt = skt })
        >>= λ reply. finish_round reply))
recv_round_lem_example =
    recv_round_lem pipe env roomy (λ s. s.incoming) pipe-IsStream pipe-IsLive hello hello_body
      (9 ∷ []) running hello-IsPacket (omega arith) (omega arith) refl

-- A round of a connection that is not active.
abbrev stopped : Round Ends
stopped = elim (recv_round pipe env false roomy running) [
  | none ↦ (true, error_success, running)
  | some r ↦ r
]

round_stops : recv_round pipe env false roomy running ≡ some stopped
unfolding recv_round linkedon_push.Conn.Cycle.receive_chunk linkedon_push.Protocol.read_message
    linkedon_push.FastBuffer.grow linkedon_push.FastBuffer.fill linkedon_push.Socket.read
    linkedon_push.Wire.split_int linkedon_push.Protocol.read_header
    linkedon_push.FastBuffer.read_slice linkedon_push.Protocol.flag_found
    linkedon_push.Common.splice linkedon_push.Protocol.read_fields linkedon_push.Protocol.int_at
    linkedon_push.Wire.read_int linkedon_push.FastBuffer.read_1byte linkedon_push.Wire.join_int
    linkedon_push.Protocol.read_body linkedon_push.Protocol.set_data linkedon_push.Conn.Cycle.answer
    finish_round linkedon_push.Conn.Cycle.handler linkedon_push.Conn.Forward.callback_data
    linkedon_push.Conn.Forward.callback_ids linkedon_push.Conn.Forward.dispatch
    linkedon_push.Conn.Forward.do_dispose forward_server linkedon_push.Conn.Forward.hreatbeat
    linkedon_push.Conn.Forward.recv_push_callback linkedon_push.Conn.sign_extend
    linkedon_push.FastBuffer.compact linkedon_push.Fmt.copy_block linkedon_push.Fmt.decode_string
    linkedon_push.Fmt.decode_string_body linkedon_push.Protocol.copy
    linkedon_push.Protocol.copy_data linkedon_push.Protocol.new_chunk linkedon_push.Protocol.no_body
    linkedon_push.Protocol.set_block linkedon_push.Socket.finish_read
round_stops = refl

recv_round_ends_example : Ended stopped
recv_round_ends_example = recv_round_ends pipe env roomy false running stopped round_stops

-- Two messages wait for alice, who was registered, and one comes.
abbrev waiting : Registry
waiting = record with_alice { queues = (0, news ∷ news ∷ []) ∷ [] }

abbrev consuming : Session Ends
consuming = record running { registry = waiting }

abbrev turns : List Turn
turns = (env, news ∷ []) ∷ (env, []) ∷ []

consume_rounds_lem_example :
    (r : Round Ends) × (consume_rounds pipe printer alice_client turns consuming ≡ some r)
    × Consumed pipe
        (λ (s : Ends). s.outgoing)
        pipe-IsWriter
        printer
        alice_client
        turns
        (news ∷ news ∷ [])
        consuming
        r
unfolding linkedon_push.Source.Message.to_json_string
consume_rounds_lem_example =
    consume_rounds_lem pipe (λ s. s.outgoing) pipe-IsWriter printer alice_client turns
      (news ∷ news ∷ []) consuming refl (omega arith) refl refl
