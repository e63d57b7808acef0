-- ===== src/Mongo/Client.antt =====
-- src/core/lpushMongoClient.cpp and src/core/lpushMongoPool.cpp: the documents that are sent to the database, ids, and
-- the objects of the driver that a client and the pool hold, by numbers.
use linkedon_push.Common.{
  ℕ, Bool, true, false, [], ◌∷◌, Option, none, some, Bytes, codes, find, bytes_key, StringMap,
}
use linkedon_push.Mongo.{BsonValue, utf8, oid, Document, Query, Driver}

-- `excute(params)`: the members in the order of the map.
unfoldable pub excute : StringMap → Document
excute [] = []
excute ((key, value) ∷ params) = (key, utf8 value) ∷ excute params

-- `count`, with the answer of `mongoc_collection_count`.
unfoldable pub count : (Query → ℕ) → Query → ℕ
count collection_count q = collection_count q

-- `getOidByJsonStr`: where there is no member `_id`, or it is no id, what is returned was never set.
unfoldable pub oid_of : Bytes → Option BsonValue → Bytes
oid_of garbage (some (oid bytes)) = bytes
oid_of garbage _ = garbage

unfoldable pub get_oid_by_json_str : Driver → Bytes → Bytes → Bytes
unfolding oid_of
get_oid_by_json_str mongo garbage json = oid_of garbage (find (codes "_id") (mongo.from_json json))

-- The fields of `LPushMongodbClient`; `_pool` is set by one of the two initialisers only.
pub record MongodbClient : Type 0 where
  pub client : Option ℕ
  pub pool : Option ℕ

-- `initMongodbClient`, of a pool and of a URL, with the answer of the driver.
unfoldable pub init_of_pool : ℕ → Option ℕ → MongodbClient → Bool × MongodbClient
init_of_pool pool none c = (false, record c { client = none; pool = some pool })
init_of_pool pool (some client) c = (true, record c { client = some client; pool = some pool })

unfoldable pub init_of_url : Option ℕ → MongodbClient → Bool × MongodbClient
init_of_url none c = (false, record c { client = none })
init_of_url (some client) c = (true, record c { client = some client })

-- `close`: the client that is destroyed.
unfoldable pub close : MongodbClient → Option ℕ × MongodbClient
close c = (c.client, record c { client = none })

-- `closePool`: the pool and the client that are handed to the driver; the fields stay.
unfoldable pub close_pool : MongodbClient → Option ℕ × Option ℕ
close_pool c = (c.pool, c.client)

-- `LPushMongoPool`.
pub record MongoPool : Type 0 where
  pub uri : Option ℕ
  pub pool : Option ℕ

unfoldable pub make_pool : MongoPool
make_pool = record { uri = none; pool = none }

-- `initialzer`: with a bad URL it returns EXIT_FAILURE, which is true as a `bool`; otherwise it returns nothing.
unfoldable pub initialzer : Option ℕ → ℕ → MongoPool → Option Bool × MongoPool
initialzer none pool p = (some true, record p { uri = none })
initialzer (some uri) pool p = (none, record p { uri = some uri; pool = some pool })

unfoldable pub destroy : MongoPool → MongoPool
destroy p = record p { uri = none; pool = none }
