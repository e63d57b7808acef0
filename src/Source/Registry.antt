-- ===== src/Source/Registry.antt =====
-- The static maps of `LPushSource`, and the objects that they point to. A source is known by a number that
-- stands for its address; its queue lies in `queues` while it is allocated. `none` is a use of a
-- source that was deleted, or `*itr` at the end of an empty queue.
pub mod Inv
use linkedon_push.Common.{
  ℕ, suc, ◌+◌, Bool, true, false, List, [], ◌∷◌, ◌++◌, Option, none, some, if◌then◌else◌, Bytes,
  find, insert_new, erase_key, replace, bytes_key, nat_key, ◌>>=◌,
}
use linkedon_push.Errors.{error_success, error_object_not_exist}
use linkedon_push.Protocol.Handshake.{HandshakeMessage}
use linkedon_push.Source.Message.{WorkerMessage, copy, of_json, Document}

-- `LPushFastQueue`.
abbrev pub Queue : Type 0
Queue = List WorkerMessage

unfoldable pub queue_push : WorkerMessage → Queue → Queue
queue_push msg q = q ++ (msg ∷ [])

-- The caller gets a copy of the first message, which is then deleted.
unfoldable pub queue_pop : Queue → Option (WorkerMessage × Queue)
queue_pop [] = none
queue_pop (m ∷ q) = some (copy m, q)

unfoldable pub queue_empty : Queue → Bool
queue_empty [] = true
queue_empty (m ∷ q) = false

-- `LPushClient`; `conn` stands for the address of the connection.
pub record Client : Type 0 where
  pub cstfd : ℕ
  pub app_id : Bytes
  pub screte_key : Bytes
  pub user_id : Bytes
  pub client_flag : Bytes
  pub can_play : Bool
  pub source : ℕ
  pub conn : ℕ

-- `userId + appId + screteKey`, with nothing between them.
abbrev pub client_key : Bytes → Bytes → Bytes → Bytes
client_key user_id app_id screte_key = user_id ++ (app_id ++ screte_key)

abbrev pub key_of : Client → Bytes
key_of c = client_key c.user_id c.app_id c.screte_key

pub record Registry : Type 0 where
  pub sources : List (ℕ × ℕ)
  pub clients : List (Bytes × Client)
  pub queues : List (ℕ × Queue)
  pub next : ℕ

abbrev pub empty_registry : Registry
empty_registry = record { sources = []; clients = []; queues = []; next = 0 }

-- `LPushSource::create(stfd, &source)`.
unfoldable pub create_source : ℕ → Registry → ℕ × Registry
create_source stfd reg = (
  reg.next,
  record reg {
    sources = insert_new stfd reg.next reg.sources;
    queues = insert_new reg.next [] reg.queues;
    next = suc reg.next;
  },
)

-- `LPushSource::instance(stfd)`.
unfoldable pub instance_source : ℕ → Registry → Option ℕ
instance_source stfd reg = find stfd reg.sources

-- The constructor of `LPushClient`.
unfoldable pub make_client : ℕ → HandshakeMessage → ℕ → ℕ → Client
make_client cstfd message conn source = record {
  cstfd = cstfd;
  app_id = message.app_id;
  screte_key = message.screte_key;
  user_id = message.user_id;
  client_flag = message.client_flag;
  can_play = true;
  source = source;
  conn = conn;
}

-- `LPushSource::create(stfd, message, conn)`.
unfoldable pub create_client : ℕ → HandshakeMessage → ℕ → Registry → Client × Registry
unfolding create_source make_client
create_client cstfd message conn reg =
    let (source, reg') = create_source cstfd reg in
    let client = make_client cstfd message conn source in
    (
      client,
      record reg' {
        clients =
            insert_new (client_key message.user_id message.app_id message.screte_key) client
              reg'.clients;
      },
    )

-- `LPushSource::instance(userId, appId, screteKey)`.
unfoldable pub instance_client : Bytes → Bytes → Bytes → Registry → Option Client
instance_client user_id app_id screte_key reg =
    find (client_key user_id app_id screte_key) reg.clients

-- `LPushSource::destroy(key)`.
unfoldable pub destroy_client : Bytes → Registry → Registry
destroy_client key reg = record reg { clients = erase_key key reg.clients }

-- `LPushSource::destroy(stfd)`.
unfoldable pub drop_source : ℕ → Option ℕ → Registry → Registry
drop_source stfd none reg = reg
drop_source stfd (some id) reg = record reg {
  sources = erase_key stfd reg.sources;
  queues = erase_key id reg.queues;
}

unfoldable pub destroy_source : ℕ → Registry → Registry
unfolding drop_source
destroy_source stfd reg = drop_source stfd (find stfd reg.sources) reg

-- What the destructor of a connection does with its client: out of the map, then deleted, which
-- destroys the source of its descriptor.
unfoldable pub dispose_client : Client → Registry → Registry
unfolding destroy_client destroy_source
dispose_client c reg = destroy_source c.cstfd (destroy_client (key_of c) reg)

-- `destroyAll`: every source of the map is deleted.
unfoldable pub drop_sources : List (ℕ × ℕ) → List (ℕ × Queue) → List (ℕ × Queue)
drop_sources [] queues = queues
drop_sources ((stfd, id) ∷ ss) queues = drop_sources ss (erase_key id queues)

unfoldable pub destroy_all : Registry → Registry
unfolding drop_sources
destroy_all reg = record reg { sources = []; queues = drop_sources reg.sources reg.queues }

-- `destroyClientAll`: every client is deleted, its source with it, and the map is cleared.
unfoldable pub destroy_clients : List (Bytes × Client) → Registry → Registry
unfolding destroy_source
destroy_clients [] reg = record reg { clients = [] }
destroy_clients ((k, c) ∷ cs) reg = destroy_clients cs (destroy_source c.cstfd reg)

unfoldable pub destroy_client_all : Registry → Registry
unfolding destroy_clients
destroy_client_all reg = destroy_clients reg.clients reg

-- `LPushClient::push` and `LPushSource::push`.
unfoldable pub push : ℕ → WorkerMessage → Registry → Option Registry
unfolding queue_push
push source msg reg = do
  q ← find source reg.queues
  some (record reg { queues = replace source (queue_push msg q) reg.queues })

-- `LPushClient::pop` and `LPushSource::pop`.
unfoldable pub pop : ℕ → Registry → Option (WorkerMessage × Registry)
unfolding queue_pop
pop source reg = do
  q ← find source reg.queues
  (m, q') ← queue_pop q
  some (m, record reg { queues = replace source q' reg.queues })

-- `LPushClient::can_loop`.
unfoldable pub can_loop : ℕ → Registry → Option Bool
unfolding queue_empty
can_loop source reg = do
  q ← find source reg.queues
  some (elim (queue_empty q) [ true ↦ false | false ↦ true ])

-- One round of `cycle_all` for a parsed message.
unfoldable pub deliver : WorkerMessage → Option Client → Registry → Option Registry
deliver lwm none reg = some reg
deliver lwm (some client) reg = push client.source (copy lwm) reg

-- The loop of `cycle_all` over the texts that the store returned; the number is `index`.
unfoldable pub cycle_works : (Bytes → Document) → List Bytes → ℕ → Registry → Option (ℕ × Registry)
cycle_works parse [] index reg = some (index, reg)
cycle_works parse (str ∷ works) index reg = of_json parse str >>= λ lwm.
    deliver lwm (instance_client lwm.user_id lwm.app_key lwm.app_secret reg) reg >>= λ reg'.
    cycle_works parse works (index + 1) reg'

-- `cycle_all`: `works` is the answer to `list(queueName, 0, 1000)`, and the number returned is the first
-- index that `ltrim(queueName, index, -1)` keeps.
unfoldable pub cycle_all : (Bytes → Document) → List Bytes → Registry → Option (ℕ × Registry)
cycle_all parse works reg = cycle_works parse works 0 reg
