-- ===== src/Redis.antt =====
-- src/core/lpushRedis.cpp: the client of the store. hiredis is the argument `redis_command`, on a state of its own
-- (the connection and the store behind it); it answers NULL when the connection is lost. A member
-- function is `none` where it reads through a NULL pointer.
pub mod Sorted
pub mod Laws
use linkedon_push.Common.{
  ℕ, ◌%◌, ◌^◌, Bool, true, false, not, ◌&&◌, List, [], ◌∷◌, ◌++◌, Option, none, some, if◌then◌else◌,
  Bytes, codes, c_str, insert_new, bytes_key, nat_key, StringMap, ◌>>=◌, ◌==◌,
}

-- An argument of a command: `%s`, `%d` and `%lld`; a number is its bit pattern.
pub data Arg : Type 0 where
  word : Bytes → Arg
  int : ℕ → Arg
  long : ℕ → Arg

-- What the code reads of a `redisReply` and of the elements of one. `str` is NULL where the reply is no string.
pub record Item : Type 0 where
  pub str : Option Bytes
  pub integer : ℕ

pub record Reply : Type 0 where
  pub is_array : Bool
  pub item : Item
  pub elements : List Item

-- `std::string(reply->str)`.
unfoldable pub text_of : Item → Option Bytes
text_of i = elim i.str [ none ↦ none | some s ↦ some (c_str s) ]

unfoldable pub texts_of : List Item → Option (List Bytes)
unfolding text_of
texts_of [] = some []
texts_of (i ∷ is) = do t ← text_of i; ts ← texts_of is; some (t ∷ ts)

-- The loop of `hgetall`: elements two by two, a key that is there keeps its value.
unfoldable pub pairs_of : List Item → StringMap → Option StringMap
unfolding text_of
pairs_of [] m = some m
pairs_of (i ∷ []) m = none
pairs_of (i ∷ j ∷ is) m = do k ← text_of i; v ← text_of j; pairs_of is (insert_new k v m)

-- `-1` as an `int`.
abbrev pub minus_one : ℕ
minus_one = 4294967295

module _ {S : Type 0} where
  -- `reply->…`, which faults on NULL.
  unfoldable pub answered : Option Reply × S → Option (Reply × S)
  answered (none, s) = none
  answered (some r, s) = some (r, s)

module _ {S : Type 0} (redis_command : List Arg → S → Option Reply × S) where
  -- A command whose reply is read.
  unfoldable pub ask : List Arg → S → Option (Reply × S)
  unfolding answered
  ask args s = answered (redis_command args s)

  -- A command whose reply is only freed, which `freeReplyObject` does with NULL, too.
  unfoldable pub tell : List Arg → S → S
  tell args s = let (reply, s') = redis_command args s in s'

  -- `reply->str` and `reply->integer`.
  unfoldable pub ask_text : List Arg → S → Option (Bytes × S)
  unfolding ask text_of
  ask_text args s = do (r, s') ← ask args s; t ← text_of r.item; some (t, s')

  unfoldable pub ask_integer : List Arg → S → Option (ℕ × S)
  unfolding ask
  ask_integer args s = do (r, s') ← ask args s; some (r.item.integer, s')

  -- The elements of an array; another reply gives none.
  unfoldable pub ask_texts : List Arg → S → Option (List Bytes × S)
  unfolding ask texts_of
  ask_texts args s = do
    (r, s') ← ask args s
    ts ← if r.is_array then texts_of r.elements else some []
    some (ts, s')

  unfoldable pub select_db : ℕ → S → S
  unfolding tell
  select_db dbnum s = tell (word (codes "select") ∷ int dbnum ∷ []) s

  -- The reply is read for the log; `%s` of a NULL `str` is printed as such.
  unfoldable pub auth : Bytes → S → Option S
  unfolding ask
  auth pass s = do (r, s') ← ask (word (codes "AUTH") ∷ word (c_str pass) ∷ []) s; some s'

  unfoldable pub set : Bytes → Bytes → S → Option (Bytes × S)
  unfolding ask_text
  set key value s = ask_text (word (codes "SET") ∷ word (c_str key) ∷ word (c_str value) ∷ []) s

  unfoldable pub set_int : Bytes → ℕ → S → Option (Bytes × S)
  unfolding ask_text
  set_int key value s = ask_text (word (codes "SET") ∷ word (c_str key) ∷ int value ∷ []) s

  unfoldable pub get : Bytes → S → Option (Bytes × S)
  unfolding ask_text
  get key s = ask_text (word (codes "GET") ∷ word (c_str key) ∷ []) s

  unfoldable pub del : Bytes → S → S
  unfolding tell
  del key s = tell (word (codes "DEL") ∷ word (c_str key) ∷ []) s

  unfoldable pub incr : S → Option (ℕ × S)
  unfolding ask_integer
  incr s = ask_integer (word (codes "INCR") ∷ word (codes "counter") ∷ []) s

  unfoldable pub list : Bytes → ℕ → ℕ → S → Option (List Bytes × S)
  unfolding ask_texts
  list key begin end s =
      ask_texts (word (codes "LRANGE") ∷ word (c_str key) ∷ int begin ∷ int end ∷ []) s

  unfoldable pub l_push_for_list : Bytes → Bytes → S → S
  unfolding tell
  l_push_for_list key value s =
      tell (word (codes "LPUSH") ∷ word (c_str key) ∷ word (c_str value) ∷ []) s

  unfoldable pub r_push_for_list : Bytes → Bytes → S → S
  unfolding tell
  r_push_for_list key value s =
      tell (word (codes "RPUSH") ∷ word (c_str key) ∷ word (c_str value) ∷ []) s

  unfoldable pub lpop : Bytes → S → S
  unfolding tell
  lpop key s = tell (word (codes "lpop") ∷ word (c_str key) ∷ []) s

  unfoldable pub rpop : Bytes → S → S
  unfolding tell
  rpop key s = tell (word (codes "rpop") ∷ word (c_str key) ∷ []) s

  unfoldable pub lrem : Bytes → ℕ → Bytes → S → S
  unfolding tell
  lrem key count value s =
      tell (word (codes "lrem") ∷ word (c_str key) ∷ int count ∷ word (c_str value) ∷ []) s

  unfoldable pub ltrim : Bytes → ℕ → ℕ → S → S
  unfolding tell
  ltrim key begin end s =
      tell (word (codes "ltrim") ∷ word (c_str key) ∷ int begin ∷ int end ∷ []) s

  unfoldable pub llen : Bytes → S → Option (ℕ × S)
  unfolding ask_integer
  llen key s = do
    (n, s') ← ask_integer (word (codes "llen") ∷ word (c_str key) ∷ []) s
    some (n % 2 ^ 32, s')

  unfoldable pub set_for_binary : Bytes → Bytes → S → Option (Bytes × S)
  unfolding ask_text
  set_for_binary buf value s = ask_text (word (codes "SET") ∷ word buf ∷ word value ∷ []) s

  unfoldable pub hset : Bytes → Bytes → Bytes → S → S
  unfolding tell
  hset key field value s =
      tell (word (codes "hset") ∷ word (c_str key) ∷ word (c_str field) ∷ word (c_str value) ∷ []) s

  -- A field that is missing is the empty string.
  unfoldable pub hget : Bytes → Bytes → S → Option (Bytes × S)
  unfolding ask
  hget key field s = do
    (r, s') ← ask (word (codes "hget") ∷ word (c_str key) ∷ word (c_str field) ∷ []) s
    some (elim r.item.str [ none ↦ [] | some t ↦ c_str t ], s')

  unfoldable pub hsetnx : Bytes → Bytes → Bytes → S → S
  unfolding tell
  hsetnx key field value s =
      tell (word (codes "hsetnx") ∷ word (c_str key) ∷ word (c_str field) ∷ word (c_str value) ∷ [])
        s

  unfoldable pub hgetall : Bytes → S → Option (StringMap × S)
  unfolding ask pairs_of
  hgetall key s = do
    (r, s') ← ask (word (codes "hgetall") ∷ word (c_str key) ∷ []) s
    m ← if r.is_array then pairs_of r.elements [] else some []
    some (m, s')

  unfoldable pub hdel : Bytes → Bytes → S → S
  unfolding tell
  hdel key field s = tell (word (codes "hdel") ∷ word (c_str key) ∷ word (c_str field) ∷ []) s

  unfoldable pub expire : Bytes → ℕ → S → S
  unfolding tell
  expire key time s = tell (word (codes "expire") ∷ word (c_str key) ∷ int time ∷ []) s
