-- ===== src/Conn/Register.antt =====
-- `LPushConn::createConnection` behind the request: the registration of a client.
use linkedon_push.Common.{
  ℕ, ◌≡◌, refl, ap, sym, ◌==◌, ==_iff, if◌then◌else◌, Bool-cases, inl, inr, [], ◌∷◌, Option, none,
  some, Bytes, find, bytes_key, nat_key,
}
use linkedon_push.Errors.{error_success}
use linkedon_push.Socket.{StIo}
use linkedon_push.Socket.Stream.{IsWriter, Sent}
use linkedon_push.Protocol.Packet.{packet}
use linkedon_push.Protocol.Handshake.{HandshakeMessage}
use linkedon_push.Protocol.Send.{send_reply_lem}
use linkedon_push.Source.Registry.{Registry, Client, create_client, instance_client}
use linkedon_push.Source.Registry.Inv.{IsValid, create_client-IsValid}
use linkedon_push.Conn.{Env, Session, log, history_push}
use linkedon_push.Conn.Open.{register, announce, accept, make_entity}

abbrev registered : HandshakeMessage → Registry → Option Client
registered msg reg = instance_client msg.user_id msg.app_id msg.screte_key reg

-- The one-byte answer to a request for a connection.
abbrev pub connection_reply : ℕ → ℕ → Bytes
connection_reply time verdict =
    packet (record { timestamp = time; data_type = 4; datalenght = 1 }) (verdict ∷ [])

module _ (rt : StIo) (env : Env) (sent : rt.State → Bytes) (writer : IsWriter rt sent) where
  -- The first connection of a client, on a well-formed registry in which its descriptor and its key are free, the
  -- runtime writing all or failing behind a first part: the registry stays well formed and finds
  -- the session's new client under the client's key, with an empty queue. Either the call
  -- succeeds, the answer 1 is on the stream, and the client's entity is kept; or it reports the
  -- error of the socket, no more than a first part of the answer is there, and no entity is kept
  -- that was not there before.
  pub register_first :
      (s : Session rt.State)
      → IsValid s.registry
      → find s.stfd s.registry.sources ≡ none
      → instance_client s.handshake_msg.user_id s.handshake_msg.app_id s.handshake_msg.screte_key
          s.registry
        ≡ none
      → (ret : ℕ) × (s' : Session rt.State) × (c : Client) × (register rt env s ≡ some (ret, s'))
        × IsValid s'.registry
        × (s'.client ≡ some c)
        × (instance_client s.handshake_msg.user_id s.handshake_msg.app_id s.handshake_msg.screte_key
              s'.registry
            ≡ some c)
        × (find c.source s'.registry.queues ≡ some [])
        × Sent sent (connection_reply env.time 1) s.skt.io ret s'.skt.io
        × (s'.mie
            ≡ (if ret == error_success then some (make_entity env s.handshake_msg) else s.mie))
  unfolding register announce accept instance_client
  register_first s v no_fd absent =
      let (ret, skt', answered, out) = (send_reply_lem rt sent writer env.time 1 s.skt).1 in
      let (v', found, empty) =
        create_client-IsValid v s.stfd s.handshake_msg env.this_conn no_fd absent in
      let entered = record (announce rt env s) {
        client = some (create_client s.stfd s.handshake_msg env.this_conn s.registry).0;
        registry = (create_client s.stfd s.handshake_msg env.this_conn s.registry).1;
        skt = skt';
      } in
      let c = (create_client s.stfd s.handshake_msg env.this_conn s.registry).0 in
      let entity = make_entity env s.handshake_msg in
      let kept = log (history_push entity ∷ []) (record entered { mie = some entity }) in
      elim (Bool-cases (ret == error_success)) [
        | inl ok ↦ (
          ret,
          kept,
          c,
          rw (absent, answered, ok)
              (ap (λ r. some (r, kept)) (sym ((==_iff ret error_success).0 ok))),
          v',
          refl,
          found,
          empty,
          out,
          rw ok refl,
        )
        | inr bad ↦ (
          ret,
          entered,
          c,
          rw (absent, answered, bad) refl,
          v',
          refl,
          found,
          empty,
          out,
          rw bad refl,
        )
      ]
