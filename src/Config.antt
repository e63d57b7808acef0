-- ===== src/Config.antt =====
-- `LPushConfig` of src/kernel/lpushJson.cpp: how it is read from its file, and the JSON forms of a map of strings.
-- The JSON library is not part of the repository: what it makes of a text is an argument. An `int` is
-- its 32-bit pattern.
pub mod Entries
pub mod Texts
use linkedon_push.Common.{
  ℕ, Bool, true, false, List, [], ◌∷◌, ◌++◌, Option, none, some, if◌then◌else◌, Bytes, codes, c_str,
  is_nil, StringMap, insert_new, bytes_key, ◌>>=◌,
}
use linkedon_push.Source.Message.{Members, text}
use linkedon_push.Utils.{trim}

pub record RedisConfig : Type 0 where
  pub host : Bytes
  pub port : ℕ
  pub pass : Bytes
  pub db : ℕ

pub record MongodbConfig : Type 0 where
  pub url : Bytes
  pub db : Bytes

pub record Config : Type 0 where
  pub ip : Bytes
  pub port : ℕ
  pub maxconnect : ℕ
  pub isdaemon : ℕ
  pub logdir : Bytes
  pub logfilename : Bytes
  pub loglevel : ℕ
  pub localhost : Bytes
  pub result_list : Bytes
  pub app_keys : Bytes
  pub server_list : Bytes
  pub task_prefix : Bytes
  pub project_dir : Bytes
  pub pid_file : Bytes
  pub redis_config : RedisConfig
  pub mongodb_config : MongodbConfig

-- What the memory of the two fields held that the constructor does not set.
pub record Garbage : Type 0 where
  pub isdaemon : ℕ
  pub loglevel : ℕ

-- The constructor: `new LPushRedisConfig()` sets the numbers in it to 0.
abbrev pub make_config : Garbage → Config
make_config g = record {
  ip = [];
  port = 0;
  maxconnect = 0;
  isdaemon = g.isdaemon;
  logdir = [];
  logfilename = [];
  loglevel = g.loglevel;
  localhost = [];
  result_list = [];
  app_keys = [];
  server_list = [];
  task_prefix = [];
  project_dir = [];
  pid_file = [];
  redis_config = record { host = []; port = 0; pass = []; db = 0 };
  mongodb_config = record { url = []; db = [] };
}

-- An object of the JSON library, by the calls that the code makes of it. A conversion is `none` where it throws.
pub record Root : Type 0 where
  pub is_member : Bytes → Bool
  pub as_int : Bytes → Option ℕ
  pub as_string : Bytes → Option Bytes
  pub as_cstring : Bytes → Option Bytes
  pub member_names : List Bytes

-- The text is no JSON, a JSON value that is no object, or an object.
pub data Parsed : Type 0 where
  unreadable : Parsed
  not_object : Parsed
  read : Root → Parsed

-- `if(root.isMember(key)) field = root[key].asInt()`, and so for the other types.
unfoldable pub get_int : Root → Bytes → ℕ → Option ℕ
get_int root key old = if root.is_member key then root.as_int key else some old

unfoldable pub get_string : Root → Bytes → Bytes → Option Bytes
get_string root key old = if root.is_member key then root.as_string key else some old

unfoldable pub get_cstring : Root → Bytes → Bytes → Option Bytes
get_cstring root key old =
    if root.is_member key then (do s ← root.as_cstring key; some (c_str s)) else some old

unfoldable pub read_redis : Root → RedisConfig → Option RedisConfig
unfolding get_int get_string
read_redis root old = do
  host ← get_string root (codes "redis.host") old.host
  pass ← get_string root (codes "redis.pass") old.pass
  port ← get_int root (codes "redis.port") old.port
  db ← get_int root (codes "redis.db") old.db
  some (record { host = host; port = port; pass = pass; db = db })

unfoldable pub read_mongodb : Root → MongodbConfig → Option MongodbConfig
unfolding get_string
read_mongodb root old = do
  url ← get_string root (codes "mongo.url") old.url
  db ← get_string root (codes "mongo.db") old.db
  some (record { url = url; db = db })

unfoldable pub read_members : Root → Config → Option Config
unfolding get_int get_string get_cstring read_redis read_mongodb
read_members root old = do
  maxconnect ← get_int root (codes "maxconnect") old.maxconnect
  isdaemon ← get_int root (codes "isdaemon") old.isdaemon
  port ← get_int root (codes "port") old.port
  pid_file ← get_string root (codes "pid_file") old.pid_file
  loglevel ← get_int root (codes "loglevel") old.loglevel
  ip ← get_string root (codes "ip") old.ip
  logdir ← get_string root (codes "logdir") old.logdir
  logfilename ← get_string root (codes "logfilename") old.logfilename
  localhost ← get_string root (codes "localhost") old.localhost
  result_list ← get_string root (codes "resultList") old.result_list
  app_keys ← get_string root (codes "lpushkey.db") old.app_keys
  server_list ← get_cstring root (codes "serversKey") old.server_list
  task_prefix ← get_cstring root (codes "task_prefix") old.task_prefix
  project_dir ← get_string root (codes "project_dir") old.project_dir
  redis_config ← read_redis root old.redis_config
  mongodb_config ← read_mongodb root old.mongodb_config
  some (record {
    ip = ip;
    port = port;
    maxconnect = maxconnect;
    isdaemon = isdaemon;
    logdir = logdir;
    logfilename = logfilename;
    loglevel = loglevel;
    localhost = localhost;
    result_list = result_list;
    app_keys = app_keys;
    server_list = server_list;
    task_prefix = task_prefix;
    project_dir = project_dir;
    pid_file = pid_file;
    redis_config = redis_config;
    mongodb_config = mongodb_config;
  })

-- What `parse` comes to: its assertion fails, it throws, it returns NULL, or it returns an object.
pub data Loading : Type 0 where
  unopened threw null : Loading
  loaded : Config → Loading

unfoldable pub loading : Option Config → Loading
loading none = threw
loading (some c) = loaded c

unfoldable pub parse_text : Garbage → Parsed → Loading
unfolding read_members loading
parse_text g unreadable = null
parse_text g not_object = threw
parse_text g (read root) = loading (read_members root (make_config g))

-- The files that can be read, and `Json::Reader::parse`.
module _ (files : Bytes → Option Bytes) (reader : Bytes → Parsed) where
  unfoldable pub parse : Garbage → Bytes → Loading
  unfolding parse_text
  parse g conf_name = elim (files (c_str conf_name)) [
    | none ↦ unopened
    | some json ↦ parse_text g (reader json)
  ]

  -- `initConfig`, and the name of the file that it opens.
  unfoldable pub config_file : Bytes → Bytes
  config_file file = if is_nil file then codes "conf/lpush.conf" else file

  unfoldable pub init_config : Garbage → Bytes → Loading
  unfolding config_file parse
  init_config g file = parse g (config_file file)

-- `writeConf` prints `root` before anything is in it, and puts the numbers into another value: what the
-- file holds afterwards is `FastWriter`'s text of the null value. `none` is the assertion that the file could be
-- opened.
unfoldable pub write_conf : Bool → Bytes → Config → Option (ℕ × Bytes)
write_conf opened null_text config = if opened then some (0, null_text) else none

-- The loop of `jsonStrToMap`.
unfoldable pub insert_members : Root → List Bytes → StringMap → Option StringMap
insert_members root [] result = some result
insert_members root (key ∷ keys) result = do
  s ← root.as_string key
  insert_members root keys (insert_new key s result)

unfoldable pub map_of : Parsed → Option StringMap
unfolding insert_members
map_of unreadable = some []
map_of not_object = none
map_of (read root) = insert_members root root.member_names []

unfoldable pub json_str_to_map : (Bytes → Parsed) → Bytes → Option StringMap
unfolding map_of
json_str_to_map reader str = map_of (reader str)

-- `person[key] = value`, in the order of the map.
unfoldable pub person_of : StringMap → Members
person_of [] = []
person_of ((k, v) ∷ m) = (k, text v) ∷ person_of m

-- `mapToJsonStr`: what `Trim` returns is not used.
unfoldable pub map_to_json_str : (Members → Bytes) → StringMap → Bytes
unfolding person_of trim
map_to_json_str to_styled_string params =
    let ret = to_styled_string (person_of params) in let unused = trim ret in ret

-- `LPushSystemStatus::statusToJson` of src/app/lpushSource.cpp.
unfoldable pub status_to_json : (Members → Bytes) → (ℕ → Bytes) → Config → ℕ → ℕ → ℕ → Bytes
unfolding map_to_json_str
status_to_json to_styled_string decimal conf pid conns time =
    let m1 = insert_new (codes "localhost") conf.localhost [] in
    let m2 = insert_new (codes "processId") (decimal pid) m1 in
    let m3 = insert_new (codes "serverConnectionNO") (decimal conns) m2 in
    let m4 = insert_new (codes "serverBeforeHreatTime") (decimal time) m3 in
    map_to_json_str to_styled_string m4
