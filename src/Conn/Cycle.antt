-- ===== src/Conn/Cycle.antt =====
-- The loops of a connection's two threads, one round each: `LPushRecvThread::cycle` of
-- src/app/lpushRecvThread.cpp with `LPushConn::readMessage`, and `LPushConsumThread::cycle` of
-- src/app/lpushConsumThread.cpp. A round is what runs between two sleeps; whether the loop goes on
-- is the first component of its result.
pub mod Receive
pub mod Single
pub mod Consume
use linkedon_push.Common.{
  ℕ, Bool, true, false, not, List, [], ◌∷◌, Option, none, some, ◌==◌, if◌then◌else◌, Bytes, ◌>>=◌,
}
use linkedon_push.Errors.{error_success, error_not_active}
use linkedon_push.Heap.{Allocator}
use linkedon_push.Socket.{StIo}
use linkedon_push.Protocol.{Chunk, empty_chunk, read_message}
use linkedon_push.Protocol
use linkedon_push.Source.Message.{WorkerMessage, Members}
use linkedon_push.Source.Registry.{Registry, Client, can_loop, push}
use linkedon_push.Conn.{Env, Session}
use linkedon_push.Conn.Forward.{do_dispose, forward_server}
use linkedon_push.Conn.Push.{playing}

-- What a round leaves: whether the loop goes on, the return code, the session.
abbrev pub Round : Type 0 → Type 0
Round S = Bool × ℕ × Session S

-- The end of a round of the receive thread: an error ends the loop and disposes of the session.
unfoldable pub finish_round : {S : Type 0} → ℕ × Session S → Option (Round S)
finish_round answer =
    if not (answer.0 == error_success)
    then (do_dispose answer.1 >>= λ s. some (false, answer.0, s))
    else some (true, answer.0, answer.1)

module _ (rt : StIo) (env : Env) where
  -- `LPushConn::readMessage`: the caller gets a copy of the chunk.
  unfoldable pub receive_chunk : Session rt.State → Option (ℕ × Option Chunk × Session rt.State)
  receive_chunk s = read_message rt empty_chunk s.buffer s.skt >>= λ got.
      let s' = record s { buffer = got.2; skt = got.3 } in
      if not (got.0 == error_success)
      then some (got.0, none, s')
      else (Protocol.copy got.1 >>= λ c. some (error_success, some c, s'))

  -- `handler`; without a chunk it follows a null pointer.
  unfoldable pub handler :
      Allocator → Option Chunk → Session rt.State → Option (ℕ × Session rt.State)
  handler heap none s = none
  handler heap (some lc) s = forward_server env heap lc s

  -- What the round makes of the reading: an error, or the handler's answer.
  unfoldable pub answer :
      Bool → Allocator → ℕ × Option Chunk × Session rt.State → Option (ℕ × Session rt.State)
  answer active heap got =
      let ret = if active then got.0 else error_not_active in
      if ret == error_success then handler heap got.1 got.2 else some (ret, got.2)

  -- One round of the receive thread; `active` is the answer of `is_active`.
  unfoldable pub recv_round : Bool → Allocator → Session rt.State → Option (Round rt.State)
  recv_round active heap s =
      receive_chunk s >>= λ got. answer active heap got >>= λ reply. finish_round reply

  -- One round of the consume thread, for a client that exists.
  unfoldable pub consume_round :
      (Members → Bytes) → Client → Session rt.State → Option (Round rt.State)
  consume_round to_styled_string client s = can_loop client.source s.registry >>= λ waiting.
      if not waiting
      then some (true, error_success, s)
      else (playing rt env to_styled_string client s >>= λ reply.
          if not (reply.0 == error_success)
          then some (false, reply.0, reply.1)
          else some (true, error_success, reply.1))

-- Messages that come for a client, each by `push`.
unfoldable pub arrive : ℕ → List WorkerMessage → Registry → Option Registry
arrive source [] reg = some reg
arrive source (m ∷ ms) reg = push source m reg >>= λ reg'. arrive source ms reg'

-- What a round of the consume thread meets: the clock and the store as it finds them, and the messages that other
-- threads push for its client while it writes or sleeps. A round reads the queue before it writes only.
abbrev pub Turn : Type 0
Turn = Env × List WorkerMessage

-- The first rounds of the consume thread, as long as the loop goes on.
unfoldable pub consume_rounds :
    (rt : StIo)
    → (Members → Bytes)
    → Client
    → List Turn
    → Session rt.State
    → Option (Round rt.State)
unfolding arrive
consume_rounds rt to_styled_string client [] s = some (true, error_success, s)
consume_rounds rt to_styled_string client ((env, ms) ∷ turns) s =
    consume_round rt env to_styled_string client s >>= λ r.
    (if r.0
      then (arrive client.source ms r.2.registry >>= λ reg.
          consume_rounds rt to_styled_string client turns (record r.2 { registry = reg }))
      else some r)
