-- ===== src/Config/Entries.antt =====
-- The members of a configuration file, and the fields that they set.
use linkedon_push.Common.{
  ℕ, ◌≡◌, refl, ap, ◌∙◌, ◌⊎◌, inl, inr, Bool, true, false, [], Option, some, Bytes, codes, c_str,
}
use linkedon_push.Config.{
  Config, Garbage, make_config, Root, read, get_int, get_string, get_cstring, read_redis,
  read_mongodb, read_members, loaded, loading, parse_text,
}

-- A file shows `v` for a key if its member is read as `v`, or if it has none and `v` is the default.
abbrev pub Shows : {A : Type 0} → Bool → Option A → A → A → Type 0
Shows member value v default =
    ((member ≡ true) × (value ≡ some v)) ⊎ ((member ≡ false) × (v ≡ default))

module _ (root : Root) where
  abbrev pub ShowsInt : Bytes → ℕ → ℕ → Type 0
  ShowsInt key v default = Shows (root.is_member key) (root.as_int key) v default

  abbrev pub ShowsString : Bytes → Bytes → Bytes → Type 0
  ShowsString key v default = Shows (root.is_member key) (root.as_string key) v default

  -- A member that is read as a C string holds no NUL.
  abbrev pub ShowsCstring : Bytes → Bytes → Bytes → Type 0
  ShowsCstring key v default =
      Shows (root.is_member key) (root.as_cstring key) v default × (c_str v ≡ v)

  -- The file shows each field of `c` under its key, with the defaults of the constructor.
  pub record ShowsConfig (g : Garbage) (c : Config) : Type 0 where
    pub maxconnect : ShowsInt (codes "maxconnect") c.maxconnect 0
    pub isdaemon : ShowsInt (codes "isdaemon") c.isdaemon g.isdaemon
    pub port : ShowsInt (codes "port") c.port 0
    pub pid_file : ShowsString (codes "pid_file") c.pid_file []
    pub loglevel : ShowsInt (codes "loglevel") c.loglevel g.loglevel
    pub ip : ShowsString (codes "ip") c.ip []
    pub logdir : ShowsString (codes "logdir") c.logdir []
    pub logfilename : ShowsString (codes "logfilename") c.logfilename []
    pub localhost : ShowsString (codes "localhost") c.localhost []
    pub result_list : ShowsString (codes "resultList") c.result_list []
    pub app_keys : ShowsString (codes "lpushkey.db") c.app_keys []
    pub server_list : ShowsCstring (codes "serversKey") c.server_list []
    pub task_prefix : ShowsCstring (codes "task_prefix") c.task_prefix []
    pub project_dir : ShowsString (codes "project_dir") c.project_dir []
    pub redis_host : ShowsString (codes "redis.host") c.redis_config.host []
    pub redis_pass : ShowsString (codes "redis.pass") c.redis_config.pass []
    pub redis_port : ShowsInt (codes "redis.port") c.redis_config.port 0
    pub redis_db : ShowsInt (codes "redis.db") c.redis_config.db 0
    pub mongo_url : ShowsString (codes "mongo.url") c.mongodb_config.url []
    pub mongo_db : ShowsString (codes "mongo.db") c.mongodb_config.db []

  get_int_lem : (key : Bytes) (v old : ℕ) → ShowsInt key v old → get_int root key old ≡ some v
  unfolding get_int
  get_int_lem key v old (inl (m, e)) = rw m e
  get_int_lem key v old (inr (m, e)) = rw (m, e) refl

  get_string_lem : (key v old : Bytes) → ShowsString key v old → get_string root key old ≡ some v
  unfolding get_string
  get_string_lem key v old (inl (m, e)) = rw m e
  get_string_lem key v old (inr (m, e)) = rw (m, e) refl

  get_cstring_lem : (key v old : Bytes) → ShowsCstring key v old → get_cstring root key old ≡ some v
  unfolding get_cstring
  get_cstring_lem key v old (inl (m, e), s) = rw (m, e) (ap some s)
  get_cstring_lem key v old (inr (m, e), s) = rw (m, e) refl

  module _ {g : Garbage} {c : Config} (s : ShowsConfig g c) where
    read_redis_lem : read_redis root (make_config g).redis_config ≡ some c.redis_config
    unfolding read_redis
    read_redis_lem =
        rw
          (
            get_string_lem (codes "redis.host") c.redis_config.host [] s.redis_host,
            get_string_lem (codes "redis.pass") c.redis_config.pass [] s.redis_pass,
            get_int_lem (codes "redis.port") c.redis_config.port 0 s.redis_port,
            get_int_lem (codes "redis.db") c.redis_config.db 0 s.redis_db,
          )
          refl

    read_mongodb_lem : read_mongodb root (make_config g).mongodb_config ≡ some c.mongodb_config
    unfolding read_mongodb
    read_mongodb_lem =
        rw
          (
            get_string_lem (codes "mongo.url") c.mongodb_config.url [] s.mongo_url,
            get_string_lem (codes "mongo.db") c.mongodb_config.db [] s.mongo_db,
          )
          refl

    read_members_lem : read_members root (make_config g) ≡ some c
    unfolding read_members
    read_members_lem =
        rw
          (
            get_int_lem (codes "maxconnect") c.maxconnect 0 s.maxconnect,
            get_int_lem (codes "isdaemon") c.isdaemon g.isdaemon s.isdaemon,
            get_int_lem (codes "port") c.port 0 s.port,
            get_string_lem (codes "pid_file") c.pid_file [] s.pid_file,
            get_int_lem (codes "loglevel") c.loglevel g.loglevel s.loglevel,
            get_string_lem (codes "ip") c.ip [] s.ip,
            get_string_lem (codes "logdir") c.logdir [] s.logdir,
            get_string_lem (codes "logfilename") c.logfilename [] s.logfilename,
            get_string_lem (codes "localhost") c.localhost [] s.localhost,
            get_string_lem (codes "resultList") c.result_list [] s.result_list,
            get_string_lem (codes "lpushkey.db") c.app_keys [] s.app_keys,
            get_cstring_lem (codes "serversKey") c.server_list [] s.server_list,
            get_cstring_lem (codes "task_prefix") c.task_prefix [] s.task_prefix,
            get_string_lem (codes "project_dir") c.project_dir [] s.project_dir,
            read_redis_lem,
            read_mongodb_lem,
          )
          refl

-- If the document is an object that shows each field of `c` under the field's key, `parse` loads
-- `c`: every member reaches its own field, and a field without a member has the constructor's value,
-- which is 0 or empty but for `isdaemon` and `loglevel`, where it is what the memory held.
pub parse_text_lem :
    (g : Garbage) (root : Root) (c : Config)
    → ShowsConfig root g c
    → parse_text g (read root) ≡ loaded c
unfolding parse_text
parse_text_lem g root c s = ap loading (read_members_lem root s) ∙ (unfold loading in refl)
