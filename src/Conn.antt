-- ===== src/Conn.antt =====
-- src/app/lpushAppLpushConn.{h,cpp}: one client connection. The store (Redis) and the database
-- (MongoDB) are behind clients of other libraries: what is sent to them is the log `commands`, and
-- what they answer is part of `Env`. `none` is a fault, as in the protocol.
pub mod Open
pub mod Forward
pub mod Secret
pub mod Register
pub mod Authorised
pub mod Heartbeat
pub mod Push
pub mod Callback
pub mod Cycle
pub mod Threads
use linkedon_push.Common.{
  ℕ, ◌+◌, ◌-◌, ◌*◌, ◌/◌, ◌%◌, ◌^◌, Bool, true, false, not, ◌&&◌, ◌||◌, List, [], ◌∷◌, ◌++◌, Option,
  none, some, ◌==◌, if◌then◌else◌, Bytes, length, codes, StringMap, ltb, leb, ◌>>=◌, contains,
  c_str, is_nil,
}
use linkedon_push.Errors.{error_success, error_user_screte_no_exist, error_user_screte_mismatch}
use linkedon_push.Wire.{is_negative}
use linkedon_push.Socket.{StIo, StSocket}
use linkedon_push.FastBuffer.{FastBuffer}
use linkedon_push.Protocol.Handshake.{HandshakeMessage}
use linkedon_push.Source.Keys.{AppKey, Platform}
use linkedon_push.Source.Registry.{Registry, Client}

-- `MongoIOEntity`, with `setDate`.
pub record Entity : Type 0 where
  pub db : Bytes
  pub collection_name : Bytes
  pub app_key : Bytes
  pub user_id : Bytes
  pub secrete_key : Bytes

-- A call of `redis_client`, an insertion into a collection, or an entity for the history thread.
pub data Command : Type 0 where
  redis_set : Bytes → Bytes → Command
  redis_expire : Bytes → ℕ → Command
  redis_zadd : Bytes → ℕ → Bytes → Command
  redis_zrem : Bytes → Bytes → Command
  redis_del : Bytes → Command
  redis_lpush : Bytes → Bytes → Command
  mongo_insert : Bytes → StringMap → Command
  history_push : Entity → Command

-- The configuration, and what the outside answers during a call.
pub record Env : Type 0 where
  pub localhost : Bytes
  pub port : ℕ
  pub mongodb_db : Bytes
  pub app_keys : Bytes
  pub result_list : Bytes
  pub decimal : ℕ → Bytes
  pub redis_hget : Bytes → Bytes → Bytes
  -- Whether `queryToListJson` finds a document.
  pub member_exists : Bytes → StringMap → Bool
  -- `getCurrentTime()` as an `int`, and `st_utime()`.
  pub time : ℕ
  pub utime : ℕ
  -- The address of the connection itself.
  pub this_conn : ℕ

-- The fields of `LPushConn` that the operations read or write, and the objects that they reach.
-- A `long long` is its 64-bit pattern; a pointer is an option.
pub record Session (S : Type 0) : Type 0 where
  pub before_data_time : ℕ
  pub hreat_data_time : ℕ
  pub now_data_time : ℕ
  pub dispose : Bool
  pub client_key : Bytes
  pub hostname : Bytes
  pub stfd : ℕ
  pub handshake_msg : HandshakeMessage
  pub client : Option Client
  pub redis_app : Option AppKey
  pub redis_platform : Option Platform
  pub mie : Option Entity
  pub buffer : FastBuffer
  pub skt : StSocket S
  pub registry : Registry
  pub commands : List Command

module _ {S : Type 0} where
  abbrev pub log : List Command → Session S → Session S
  log cs s = record s { commands = s.commands ++ cs }

-- `checkUserMessage`: the stored secret must contain the client's.
unfoldable pub check_secret : Bytes → Bytes → ℕ
check_secret stored given =
    if is_nil stored
    then error_user_screte_no_exist
    else if not (contains (c_str given) stored)
    then error_user_screte_mismatch
    else error_success

unfoldable pub check_user_message : Env → HandshakeMessage → ℕ
unfolding check_secret
check_user_message env msg = check_secret (env.redis_hget env.app_keys msg.app_id) msg.screte_key

-- `(long long)` of an `int`.
unfoldable pub sign_extend : ℕ → ℕ
sign_extend w = if is_negative w then w + (2 ^ 64 - 2 ^ 32) else w

-- `now_data_time - before_data_time > LP_HREAT_TIMEOUT_US`, on `long long`.
unfoldable pub is_expired : {S : Type 0} → Session S → Bool
is_expired s =
    let internal = (s.now_data_time + 2 ^ 64 - s.before_data_time) % 2 ^ 64 in
    ltb 60 internal && ltb internal (2 ^ 63)
