-- ===== src/Mongo.antt =====
-- src/core/lpushMongoClient.cpp: the client of the database. The driver is the argument `Driver`; a document is the
-- list of the members that an iterator of the driver visits.
pub mod Client
pub mod Maps
use linkedon_push.Common.{
  ℕ, ◌+◌, ◌-◌, ◌*◌, ◌/◌, ◌%◌, ◌^◌, Bool, true, false, not, List, [], ◌∷◌, ◌++◌, Option, none, some,
  if◌then◌else◌, Bytes, c_str, take, insert_new, bytes_key, StringMap,
}
use linkedon_push.Errors.{
  error_success, error_mongodb_insert, error_mongodb_update, error_mongodb_delete,
}
use linkedon_push.Math.{hex_digit}

-- The types of a member that the code tells apart; a number is its bit pattern.
pub data BsonValue : Type 0 where
  utf8 : Bytes → BsonValue
  oid : Bytes → BsonValue
  int32 : ℕ → BsonValue
  int64 : ℕ → BsonValue
  other : BsonValue

abbrev pub Document : Type 0
Document = List (Bytes × BsonValue)

-- What a cursor yields, and whether it ends in an error.
pub record Cursor : Type 0 where
  pub docs : List Document
  pub failed : Bool

-- Database, collection and query of a call. The query is the map that `excute` copies into a BSON document.
pub record Query : Type 0 where
  pub db : Bytes
  pub collection_name : Bytes
  pub params : StringMap

pub record Driver : Type 0 where
  -- `mongoc_collection_find` with `skip` and `limit`, and `mongoc_collection_find_with_opts`.
  pub find : Query → ℕ → ℕ → Cursor
  pub find_with_opts : Query → Cursor
  -- Whether an insertion, a deletion by query or by id, and an update succeed.
  pub insert : Query → Bool
  pub delete : Query → Bool
  pub delete_oid : Bytes → Bytes → Bytes → Bool
  pub update : Bytes → Query → Bool
  -- `bson_as_json` and `bson_new_from_json`.
  pub as_json : Document → Bytes
  pub from_json : Bytes → Document
  -- The decimal texts of an `int` and of a `long long`.
  pub print_int : ℕ → Bytes
  pub print_long : ℕ → Bytes

unfoldable pub is_nonempty : List Document → Bool
is_nonempty [] = false
is_nonempty (d ∷ ds) = true

-- `queryFromCollectionToJson`: an error of the cursor clears the result.
unfoldable pub json_texts : (Document → Bytes) → List Document → List Bytes
json_texts as_json [] = []
json_texts as_json (d ∷ ds) = c_str (as_json d) ∷ json_texts as_json ds

unfoldable pub collect : (Document → Bytes) → Cursor → List Bytes
unfolding json_texts
collect as_json c = if c.failed then [] else json_texts as_json c.docs

-- `uint8To2Char`: its closing NUL goes behind its buffer of two characters, and the text is what stands before it.
unfoldable pub uint8_to_2char : ℕ → Bytes
uint8_to_2char src = hex_digit (src / 16 % 16) ∷ hex_digit (src % 16) ∷ []

unfoldable pub oid_text : Bytes → Bytes
unfolding uint8_to_2char
oid_text [] = []
oid_text (b ∷ bs) = uint8_to_2char b ++ oid_text bs

module _ (mongo : Driver) where
  unfoldable pub select_one_is_exist : Query → Bool
  unfolding is_nonempty
  select_one_is_exist q = is_nonempty (mongo.find q 0 1).docs

  unfoldable pub skip_params_is_exist : Query → ℕ → Bool
  unfolding is_nonempty
  skip_params_is_exist q skipnum = is_nonempty (mongo.find q skipnum 1).docs

  unfoldable pub query_to_list_json : Query → List Bytes
  unfolding collect
  query_to_list_json q = collect mongo.as_json (mongo.find_with_opts q)

  -- `(page-1)*pageSize` is an `int`, which the driver takes as a `uint32_t`.
  unfoldable pub query_to_list_json_limit : Query → ℕ → ℕ → List Bytes
  unfolding collect
  query_to_list_json_limit q page page_size =
      collect mongo.as_json (
        mongo.find q ((page * page_size % 2 ^ 32 + 2 ^ 32 - page_size % 2 ^ 32) % 2 ^ 32) page_size)

  unfoldable pub insert_from_collection_to_json : Query → ℕ
  insert_from_collection_to_json q =
      if not (mongo.insert q) then error_mongodb_insert else error_success

  unfoldable pub del_from_query : Query → ℕ
  del_from_query q = if not (mongo.delete q) then error_mongodb_delete else error_success

  unfoldable pub del_from_collection_to_json : Bytes → Bytes → Bytes → ℕ
  del_from_collection_to_json db collection_name id =
      if not (mongo.delete_oid db collection_name id) then error_mongodb_delete else error_success

  unfoldable pub update_from_collection_to_json : Bytes → Query → ℕ
  update_from_collection_to_json id q =
      if not (mongo.update id q) then error_mongodb_update else error_success

  -- The text of a member, where its type has one; an id has twelve bytes.
  unfoldable pub value_text : BsonValue → Option Bytes
  unfolding oid_text
  value_text (utf8 s) = some (c_str s)
  value_text (oid bytes) = some (oid_text (take 12 bytes))
  value_text (int32 n) = some (mongo.print_int n)
  value_text (int64 n) = some (mongo.print_long n)
  value_text other = none

  unfoldable pub members_map : Document → StringMap → StringMap
  unfolding value_text
  members_map [] m = m
  members_map ((k, v) ∷ ms) m = elim (value_text v) [
    | none ↦ members_map ms m
    | some t ↦ members_map ms (insert_new (c_str k) t m)
  ]

  unfoldable pub json_to_map : Bytes → StringMap
  unfolding members_map
  json_to_map json = members_map (mongo.from_json json) []
