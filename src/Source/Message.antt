-- ===== src/Source/Message.antt =====
-- `LPushWorkerMessage`: its fields, and its forms as JSON. The JSON library is not part of the
-- repository; its printer and its parser are arguments. An `int64_t` is its 64-bit pattern.
pub mod RoundTrip
use linkedon_push.Common.{
  ℕ, ◌%◌, ◌^◌, ◌≡◌, Bool, true, false, List, [], ◌∷◌, Option, none, some, if◌then◌else◌, Bytes,
  codes, find, value_of, StringMap, bytes_key, ◌>>=◌,
}
use linkedon_push.Math.{empty_int, empty_string}

pub record WorkerMessage : Type 0 where
  pub task_id : Bytes
  pub msg_id : Bytes
  pub app_key : Bytes
  pub app_secret : Bytes
  pub user_id : Bytes
  pub title : Bytes
  pub content : Bytes
  pub ext : Bytes
  pub create_time : ℕ
  pub expires_time : ℕ

-- The default constructor.
abbrev pub empty_worker_message : WorkerMessage
empty_worker_message = record {
  task_id = [];
  msg_id = [];
  app_key = [];
  app_secret = [];
  user_id = [];
  title = [];
  content = [];
  ext = [];
  create_time = 0;
  expires_time = 0;
}

-- A member of a `Json::Value` object that the code stores.
pub data JsonValue : Type 0 where
  text : Bytes → JsonValue
  number : ℕ → JsonValue

abbrev pub Members : Type 0
Members = List (Bytes × JsonValue)

-- What a parsed document answers to `json[key].asString()` and `json[key].asInt64()`.
pub record JsonObject : Type 0 where
  pub as_string : Bytes → Bytes
  pub as_int64 : Bytes → ℕ

-- The text is no JSON, a member has a type that throws, or an object.
pub data Document : Type 0 where
  unreadable : Document
  mistyped : Document
  object : JsonObject → Document

unfoldable pub of_document : Document → Option WorkerMessage
of_document unreadable = some empty_worker_message
of_document mistyped = none
of_document (object json) = some (record {
  task_id = json.as_string (codes "TaskId");
  msg_id = json.as_string (codes "MsgId");
  app_key = json.as_string (codes "AppKey");
  app_secret = json.as_string (codes "AppSecret");
  user_id = json.as_string (codes "UserId");
  title = json.as_string (codes "Title");
  content = json.as_string (codes "Content");
  ext = json.as_string (codes "Ext");
  create_time = json.as_int64 (codes "CreateTime");
  expires_time = json.as_int64 (codes "ExpiresTime");
})

-- The constructor with a JSON text; `none` is an exception.
unfoldable pub of_json : (Bytes → Document) → Bytes → Option WorkerMessage
of_json parse json_str = of_document (parse json_str)

-- The constructor with a map. `StringToLong` asserts that its text is not empty; `stoll` throws on
-- a text that is no number: both are `none`.
unfoldable pub string_to_long : (Bytes → Option ℕ) → Bytes → Option ℕ
string_to_long stoll [] = none
string_to_long stoll (c ∷ cs) = stoll (c ∷ cs)

unfoldable pub of_map : (Bytes → Option ℕ) → StringMap → Option WorkerMessage
of_map stoll params = do
  created ← string_to_long stoll (value_of params (codes "CreateTime"))
  expires ← string_to_long stoll (value_of params (codes "ExpiresTime"))
  some (record {
    task_id = value_of params (codes "TaskId");
    msg_id = value_of params (codes "MsgId");
    app_key = value_of params (codes "AppKey");
    app_secret = value_of params (codes "AppSecret");
    user_id = value_of params (codes "UserId");
    title = value_of params (codes "Title");
    content = value_of params (codes "Content");
    ext = value_of params (codes "Ext");
    create_time = created;
    expires_time = expires;
  })

-- `if(!empty(s)) pjson[key] = s`; the latest member stands first.
unfoldable pub put_text : Bytes → Bytes → Members → Members
put_text key s ms = if empty_string s then ms else (key, text s) ∷ ms

-- `if(!empty(t)) pjson[key] = t`: of the overloads of `empty` an `int64_t` can only reach
-- `empty(int)`, so the test sees its low 32 bits.
unfoldable pub put_time : Bytes → ℕ → Members → Members
put_time key t ms = if empty_int (t % 2 ^ 32) then ms else (key, number t) ∷ ms

unfoldable pub to_all_members : WorkerMessage → Members
to_all_members m = put_time (codes "ExpiresTime") m.expires_time (
    put_time (codes "CreateTime") m.create_time (
      put_text (codes "Ext") m.ext (
        put_text (codes "Content") m.content (
          put_text (codes "Title") m.title (
            put_text (codes "TaskId") m.task_id (
              put_text (codes "AppSecret") m.app_secret (
                put_text (codes "MsgId") m.msg_id (
                  put_text (codes "AppKey") m.app_key
                    (put_text (codes "UserId") m.user_id [])))))))))

unfoldable pub to_json_members : WorkerMessage → Members
to_json_members m = put_time (codes "ExpiresTime") m.expires_time (
    put_time (codes "CreateTime") m.create_time (
      put_text (codes "Ext") m.ext (
        put_text (codes "Content") m.content (
          put_text (codes "Title") m.title
            (put_text (codes "MsgId") m.msg_id (put_text (codes "TaskId") m.task_id []))))))

module _ (to_styled_string : Members → Bytes) where
  unfoldable pub to_all_string : WorkerMessage → Bytes
  to_all_string m = to_styled_string (to_all_members m)

  -- What a client is sent: without the application's key and secret and the user's id.
  unfoldable pub to_json_string : WorkerMessage → Bytes
  to_json_string m = to_styled_string (to_json_members m)

-- `copy`, field by field.
unfoldable pub copy : WorkerMessage → WorkerMessage
copy m = record empty_worker_message {
  app_key = m.app_key;
  app_secret = m.app_secret;
  content = m.content;
  create_time = m.create_time;
  expires_time = m.expires_time;
  ext = m.ext;
  msg_id = m.msg_id;
  task_id = m.task_id;
  user_id = m.user_id;
  title = m.title;
}
