-- ===== src/History.antt =====
-- src/app/lpushMongoIOThread.cpp: the thread that brings a client the messages of the database when it has come
-- back. The queue holds pointers: an entity stands in it with its address.
pub mod Texts
pub mod Page
pub mod Endless
pub mod Queue
pub mod Sharing
pub mod Success
use linkedon_push.Common.{
  ℕ, zero, suc, Bool, true, false, not, List, [], ◌∷◌, ◌++◌, Option, none, some, if◌then◌else◌,
  ◌==◌, Bytes, codes, insert_new, bytes_key, ◌>>=◌, length, StringMap,
}
use linkedon_push.Errors.{error_success, error_object_not_exist, minus_two}
use linkedon_push.Conn.{Entity}
use linkedon_push.Mongo.{
  Driver, Query, select_one_is_exist, skip_params_is_exist, query_to_list_json_limit, json_to_map,
}
use linkedon_push.Source.Message.{WorkerMessage, of_map, copy}
use linkedon_push.Source.Registry.{Registry, Client, instance_client, push}

abbrev pub Pending : Type 0
Pending = List (ℕ × Entity)

-- `push`, with the address of the entity.
unfoldable pub push_entity : ℕ → Entity → Pending → Pending
push_entity address mie queue = queue ++ ((address, mie) ∷ [])

-- `MongoIOEntity::copy`.
unfoldable pub copy_entity : Entity → Entity
copy_entity e = record {
  db = e.db;
  collection_name = e.collection_name;
  app_key = e.app_key;
  user_id = e.user_id;
  secrete_key = e.secrete_key;
}

-- `pop`: a copy of the first entity, which is deleted; `none` is `*itr` at the end of an empty queue.
unfoldable pub pop_entity : Pending → Option (Entity × Pending)
unfolding copy_entity
pop_entity [] = none
pop_entity ((address, mie) ∷ queue) = some (copy_entity mie, queue)

unfoldable pub erase_entity : ℕ → Pending → Option Pending
erase_entity address [] = none
erase_entity address ((a, e) ∷ queue) =
    let rest = erase_entity address queue in
    if a == address then some queue else elim rest [ none ↦ none | some q ↦ some ((a, e) ∷ q) ]

-- `findPop`, which compares pointers.
unfoldable pub find_pop : ℕ → Pending → ℕ × Pending
unfolding erase_entity
find_pop address queue = elim (erase_entity address queue) [
  | none ↦ (minus_two, queue)
  | some q ↦ (error_success, q)
]

unfoldable pub can_loop : Pending → Bool
can_loop [] = false
can_loop (x ∷ queue) = true

-- `getLength`.
unfoldable pub get_length : Pending → ℕ
get_length queue = length queue

-- The loop of the destructor, which deletes the entities that are left: their addresses, the first one first.
unfoldable pub delete_all : Pending → List ℕ
delete_all [] = []
delete_all ((address, mie) ∷ queue) = address ∷ delete_all queue

-- How many documents `selectMongoHistoryWork` takes at a time.
abbrev pub page_size : ℕ
page_size = 50000

-- The documents that are asked for.
unfoldable pub history_query : Entity → Query
history_query mie = record {
  db = mie.db;
  collection_name = mie.collection_name;
  params = insert_new (codes "UserId") mie.user_id [];
}

-- What comes of `selectMongoHistoryWork`: it has returned, or it is in its loop.
pub data Work : Type 0 where
  finished : ℕ → Registry → Work
  looping : Registry → Work

-- `do_cycle` behind `selectMongoHistoryWork`: the code of a client that has gone is no error.
unfoldable pub end_work : Work → Work
end_work (looping reg) = looping reg
end_work (finished ret reg) =
    finished (if ret == error_object_not_exist then error_success else ret) reg

-- What a round of `cycle` comes to.
pub data Round : Type 0 where
  sleeps : Round
  worked : Work → Pending → Round
  stops : ℕ → Round

unfoldable pub round_of : Work × Pending → Option Round
round_of (looping reg, queue) = some (worked (looping reg) queue)
round_of (finished ret reg, queue) =
    if ret == error_success then some (worked (finished ret reg) queue) else some (stops ret)

module _ (stoll : Bytes → Option ℕ) where
  -- The loop of `selectMongoHistoryLimit` over the texts of the documents.
  unfoldable pub push_history : (Bytes → StringMap) → ℕ → List Bytes → Registry → Option Registry
  push_history to_map source [] reg = some reg
  push_history to_map source (json ∷ result) reg = do
    lpwm ← of_map stoll (to_map json)
    reg' ← push source (copy lpwm) reg
    push_history to_map source result reg'

  module _ (mongo : Driver) where
    unfoldable pub select_limit : Entity → Query → ℕ → ℕ → Registry → Option (ℕ × Registry)
    unfolding push_history instance_client
    select_limit mie q page size reg =
        elim (instance_client mie.user_id mie.app_key mie.secrete_key reg) [
          | none ↦ some (error_object_not_exist, reg)
          | some client ↦
              push_history (json_to_map mongo) client.source
                (query_to_list_json_limit mongo q page size) reg
              >>= λ reg'. some (error_success, reg')
        ]

    -- `while(isup)` for a number of rounds, then the last page. The collection does not change meanwhile: the
    -- loop has no call that lets another thread of the process run.
    unfoldable pub select_loop : ℕ → Entity → Query → Bool → Registry → Option Work
    unfolding select_limit
    select_loop rounds mie q false reg = do
      (ret, reg') ← select_limit mie q 1 page_size reg
      some (finished ret reg')
    select_loop zero mie q true reg = some (looping reg)
    select_loop (suc rounds) mie q true reg = do
      (ret, reg') ← select_limit mie q 1 page_size reg
      elim (ret == error_success) [
        | false ↦ some (finished ret reg')
        | true ↦ select_loop rounds mie q (skip_params_is_exist mongo q page_size) reg'
      ]

    unfoldable pub select_work : ℕ → Entity → Registry → Option Work
    unfolding select_loop history_query
    select_work rounds mie reg =
        let q = history_query mie in
        if not (select_one_is_exist mongo q)
        then some (finished error_success reg)
        else select_loop rounds mie q (skip_params_is_exist mongo q page_size) reg

    unfoldable pub do_cycle : ℕ → Pending → Registry → Option (Work × Pending)
    unfolding can_loop pop_entity select_work end_work
    do_cycle rounds queue reg =
        if not (can_loop queue)
        then some (finished error_success reg, queue)
        else pop_entity queue >>= λ next.
            select_work rounds next.0 reg >>= λ work. some (end_work work, next.1)

    -- A round of the loop of `cycle`: it sleeps for want of work, or it does some; behind an error it would
    -- stop its own thread.
    unfoldable pub cycle_round : ℕ → Pending → Registry → Option Round
    unfolding can_loop do_cycle round_of
    cycle_round rounds queue reg =
        if not (can_loop queue) then some sleeps else do_cycle rounds queue reg >>= round_of
