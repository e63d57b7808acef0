-- ===== src/Conn/Open.antt =====
-- The opening of a connection: `do_cycle` up to the start of its threads, `handshake`,
-- `createConnection` and `userInsertMongodb` of src/app/lpushAppLpushConn.cpp.
use linkedon_push.Common.{
  ℕ, ◌/◌, not, List, [], ◌∷◌, ◌++◌, Option, none, some, ◌==◌, if◌then◌else◌, Bytes, codes,
  insert_new, bytes_key, ◌>>=◌,
}
use linkedon_push.Errors.{error_success, error_user_is_exist}
use linkedon_push.Heap.{Allocator}
use linkedon_push.Socket.{StIo, set_recv_timeout, set_send_timeout}
use linkedon_push.Fmt.Json.{Parsed}
use linkedon_push.Protocol.{empty_chunk, read_message}
use linkedon_push.Protocol.Send.{send_handshake, send_create_connection}
use linkedon_push.Protocol.Handshake.{
  HandshakeMessage, empty_message, set_params, tomap, to_mongomap, handshake,
}
use linkedon_push.Protocol.Handshake
use linkedon_push.Source.Keys.{make_app_key, make_platform}
use linkedon_push.Source.Registry.{Client, create_client, instance_client}
use linkedon_push.Conn.{
  Env, Entity, Session, Command, redis_set, redis_expire, redis_zadd, mongo_insert, history_push,
  log, check_user_message,
}

-- `userInsertMongodb`: the member is entered if the query finds no document.
unfoldable pub insert_member : Env → HandshakeMessage → List Command
insert_member env msg =
    if env.member_exists (codes "MEMBER_" ++ msg.app_id)
      (insert_new (codes "appKey") msg.app_id (insert_new (codes "userId") msg.user_id []))
    then []
    else mongo_insert (codes "MEMBER_" ++ msg.app_id)
        (insert_new (codes "time") (env.decimal env.time) (to_mongomap msg))
      ∷ []

unfoldable pub make_entity : Env → HandshakeMessage → Entity
make_entity env msg = record {
  db = env.mongodb_db;
  collection_name = codes "TASK_PULL_" ++ msg.app_id;
  app_key = msg.app_id;
  user_id = msg.user_id;
  secrete_key = msg.screte_key;
}

module _ (rt : StIo) (env : Env) where
  abbrev pub State : Type 0
  State = Session rt.State

  -- What `createConnection` enters into the store before it looks for a client of the same key.
  unfoldable pub announce : State → State
  announce s =
      let msg = s.handshake_msg in
      let key = msg.app_id ++ msg.user_id in
      let host = env.localhost ++ (codes ":" ++ env.decimal env.port) in
      let app = make_app_key env.decimal msg.app_id msg.user_id env.localhost env.port in
      let platform =
        make_platform env.decimal msg.client_flag msg.app_id msg.user_id env.localhost env.port in
      record s {
        client_key = key;
        hostname = host;
        redis_app = some app;
        redis_platform = some platform;
        commands =
            s.commands
            ++ (redis_set key host
                ∷ redis_expire key 60
                ∷ (insert_member env msg
                    ++ (redis_zadd app.app_key (env.utime / 1000) app.key
                        ∷ redis_zadd platform.platform_key (env.utime / 1000) platform.key
                        ∷ [])));
      }

  -- The answer of a reply that ends the call with `ret`.
  unfoldable pub refuse : ℕ → State → Option (ℕ × State)
  refuse ret s = do
    (sent, skt') ← send_create_connection rt env.time 2 s.skt
    some (ret, record s { skt = skt' })

  -- The last steps, for a key that is free.
  unfoldable pub accept : State → Option (ℕ × State)
  accept s =
      let msg = s.handshake_msg in
      let (c, reg) = create_client s.stfd msg env.this_conn s.registry in
      (send_create_connection rt env.time 1 s.skt >>= λ reply.
      let s' = record s { client = some c; registry = reg; skt = reply.1 } in
      let entity = make_entity env msg in
      if not (reply.0 == error_success)
      then some (reply.0, s')
      else some (error_success, log (history_push entity ∷ []) (record s' { mie = some entity })))

  unfoldable pub decide_client : Option Client → State → Option (ℕ × State)
  decide_client (some other) s = refuse error_user_is_exist s
  decide_client none s = accept s

  -- `createConnection` behind the request that was read.
  unfoldable pub register : State → Option (ℕ × State)
  unfolding decide_client
  register s =
      let s' = announce s in
      let msg = s.handshake_msg in
      decide_client (instance_client msg.user_id msg.app_id msg.screte_key s'.registry) s'

  unfoldable pub create_connection : Allocator → State → Option (ℕ × State)
  create_connection heap s = read_message rt empty_chunk s.buffer s.skt >>= λ got.
      let s1 = record s { buffer = got.2; skt = got.3 } in
      if not (got.0 == error_success)
      then some (got.0, s1)
      else (Handshake.create_connection heap got.1 [] >>= λ request.
          if not (request.0 == error_success) then some (request.0, s1) else register s1)

  module _ (md5 : Bytes → Bytes) (parse : Bytes → Parsed) where
    -- `LPushConn::handshake`; the message is `lpsm` as the call leaves it.
    unfoldable pub conn_handshake : State → Option (ℕ × HandshakeMessage × State)
    conn_handshake s = read_message rt empty_chunk s.buffer s.skt >>= λ got.
        let s1 = record s { buffer = got.2; skt = got.3 } in
        if not (got.0 == error_success)
        then some (got.0, empty_message, s1)
        else (handshake md5 parse got.1 empty_message >>= λ answer. some (answer.0, answer.1, s1))

    -- A verdict is sent, and the call ends with `ret` whatever became of the reply.
    unfoldable pub dismiss : ℕ → ℕ → State → Option (ℕ × State)
    dismiss verdict ret s = do
      (sent, skt') ← send_handshake rt env.time verdict s.skt
      some (ret, record s { skt = skt' })

    unfoldable pub welcome : Allocator → State → Option (ℕ × State)
    welcome heap s = send_handshake rt env.time 1 s.skt >>= λ reply.
        let s' = record s { skt = reply.1 } in
        if not (reply.0 == error_success) then some (reply.0, s') else create_connection heap s'

    -- `do_cycle` up to the start of the two threads.
    unfoldable pub open_session : Allocator → State → Option (ℕ × State)
    open_session heap s0 =
        let s = record s0 { skt = set_send_timeout 60000000 (set_recv_timeout 60000000 s0.skt) } in
        (conn_handshake s >>= λ answer.
        if not (answer.0 == error_success)
        then dismiss 0 answer.0 answer.2
        else let s' = record answer.2 { handshake_msg = set_params (tomap answer.1) } in
          let checked = check_user_message env answer.1 in
          if not (checked == error_success) then dismiss 2 checked s' else welcome heap s')
