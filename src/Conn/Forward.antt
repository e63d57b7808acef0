-- ===== src/Conn/Forward.antt =====
-- `forwardServer` and what it dispatches to: heartbeat, close, push callback.
use linkedon_push.Common.{
  ℕ, ◌/◌, true, ◌||◌, [], ◌∷◌, ◌++◌, Option, none, some, ◌==◌, if◌then◌else◌, Bytes, drop, ◌>>=◌,
  is_nil,
}
use linkedon_push.Errors.{error_success, error_object_not_exist, minus_two}
use linkedon_push.Heap.{Allocator}
use linkedon_push.Fmt.{decode_string}
use linkedon_push.Protocol.{Chunk, Data, null, block, uninit}
use linkedon_push.Conn.{
  Env, Session, redis_expire, redis_zadd, redis_zrem, redis_del, redis_lpush, log, sign_extend,
}

module _ {S : Type 0} where
  -- `hreatbeat`; `hreat_data_time` is 0 from the constructor on, and nothing else sets it.
  unfoldable pub hreatbeat : Session S → Option (ℕ × Session S)
  hreatbeat s = do
    app ← s.redis_app
    platform ← s.redis_platform
    some (
      error_success,
      log
          (redis_zadd app.app_key (s.hreat_data_time / 1000) app.key
            ∷ redis_zadd platform.platform_key (s.hreat_data_time / 1000) platform.key
            ∷ redis_expire s.client_key 60
            ∷ [])
          s,
    )

  -- `do_dispose`.
  unfoldable pub do_dispose : Session S → Option (Session S)
  do_dispose s = do
    app ← s.redis_app
    platform ← s.redis_platform
    some (
        log
          (redis_del s.client_key
            ∷ redis_zrem app.app_key app.key
            ∷ redis_zrem platform.platform_key platform.key
            ∷ [])
          (record s { dispose = true }))

-- The two strings of a push callback: task, then message. A decoder's count is an `int`, never
-- negative here, so `<= 0` is `== 0`.
unfoldable pub callback_ids : Allocator → Bytes → Option (ℕ × Bytes × Bytes)
callback_ids heap buf = decode_string heap buf [] >>= λ first.
    (if first.0 == 0
      then some (minus_two, [], [])
      else (decode_string heap (drop first.0 buf) [] >>= λ second.
          if second.0 == 0
          then some (minus_two, first.1, [])
          else if is_nil second.1 || is_nil first.1
          then some (error_object_not_exist, first.1, second.1)
          else some (error_success, first.1, second.1)))

module _ {S : Type 0} (env : Env) (heap : Allocator) where
  unfoldable pub callback_data : Data → Session S → Option (ℕ × Session S)
  callback_data null s = none
  callback_data uninit s = none
  callback_data (block buf) s = callback_ids heap buf >>= λ ids.
      if ids.0 == error_success
      then some (error_success, log (redis_lpush (env.result_list ++ ids.2) ids.1 ∷ []) s)
      else some (ids.0, s)

  unfoldable pub recv_push_callback : Chunk → Session S → Option (ℕ × Session S)
  unfolding callback_data
  recv_push_callback message s = callback_data message.body s

  -- The `switch` on the whole type byte.
  unfoldable pub dispatch : Chunk → Session S → Option (ℕ × Session S)
  unfolding recv_push_callback
  dispatch message s =
      if message.header.data_type == 5
      then hreatbeat s
      else if message.header.data_type == 6
      then (do_dispose s >>= λ s'. some (error_success, s'))
      else if message.header.data_type == 8
      then recv_push_callback message s
      else some (error_success, s)

  unfoldable pub forward_server : Chunk → Session S → Option (ℕ × Session S)
  forward_server message s = do
    (ret, s') ← dispatch message s
    some (
      ret,
      record s' {
        before_data_time = s'.now_data_time;
        now_data_time = sign_extend message.header.timestamp;
      },
    )
