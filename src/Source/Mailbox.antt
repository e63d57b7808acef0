-- ===== src/Source/Mailbox.antt =====
-- What the registry promises: a mailbox for each key, in which messages wait in their order. The other half of the
-- file is the operations of the registry as its callers make them.
pub mod Queues
pub mod Members
pub mod Steps
pub mod Refine
use linkedon_push.Common.{
  ℕ, Bool, true, false, not, List, [], ◌∷◌, ◌++◌, Option, none, some, if◌then◌else◌, Bytes,
  bytes_eq, find, bytes_key, nat_key, ◌>>=◌, ◌≡◌,
}
use linkedon_push.Protocol.Handshake.{HandshakeMessage}
use linkedon_push.Source.Message.{WorkerMessage}
use linkedon_push.Source.Registry.{
  Registry, Client, Queue, client_key, create_client, dispose_client, instance_client, deliver,
  can_loop, pop,
}
use linkedon_push.Source.Deliver.{target}

-- A client comes with a descriptor and the address of its connection, the client of a key goes, a worker's message
-- comes, or the consumer of a key looks for its next message.
pub data Op : Type 0 where
  joins : ℕ → HandshakeMessage → ℕ → Op
  leaves : Bytes → Op
  posts : WorkerMessage → Op
  takes : Bytes → Op

abbrev pub key_of_message : HandshakeMessage → Bytes
key_of_message m = client_key m.user_id m.app_id m.screte_key

-- The mailbox of each key that is registered.
abbrev pub Boxes : Type 0
Boxes = Bytes → Option Queue

abbrev pub put_box : Bytes → Option Queue → Boxes → Boxes
put_box k box boxes j = if bytes_eq k j then box else boxes j

-- An operation on the mailboxes, given what stands under its key, and the message that it hands out.
unfoldable pub spec_join : Bytes → Option Queue → Boxes → Option WorkerMessage × Boxes
spec_join k none boxes = (none, put_box k (some []) boxes)
spec_join k (some q) boxes = (none, boxes)

unfoldable pub spec_post : WorkerMessage → Option Queue → Boxes → Option WorkerMessage × Boxes
spec_post m none boxes = (none, boxes)
spec_post m (some q) boxes = (none, put_box (target m) (some (q ++ (m ∷ []))) boxes)

unfoldable pub spec_take : Bytes → Option Queue → Boxes → Option WorkerMessage × Boxes
spec_take k none boxes = (none, boxes)
spec_take k (some []) boxes = (none, boxes)
spec_take k (some (m ∷ q)) boxes = (some m, put_box k (some q) boxes)

unfoldable pub spec : Op → Boxes → Option WorkerMessage × Boxes
unfolding spec_join spec_post spec_take
spec (joins fd m conn) boxes = spec_join (key_of_message m) (boxes (key_of_message m)) boxes
spec (leaves k) boxes = (none, put_box k none boxes)
spec (posts m) boxes = spec_post m (boxes (target m)) boxes
spec (takes k) boxes = spec_take k (boxes k) boxes

-- What the consumer of a source does: `can_loop`, then `pop`.
unfoldable pub consume : ℕ → Registry → Option (Option WorkerMessage × Registry)
unfolding can_loop pop
consume source reg = can_loop source reg >>= λ more. elim more [
  | false ↦ some (none, reg)
  | true ↦ pop source reg >>= λ popped. some (some popped.0, popped.1)
]

-- The same operations on the registry, given the client of the key. A client whose key is there is refused.
unfoldable pub join_client :
    ℕ → HandshakeMessage → ℕ → Option Client → Registry → Option WorkerMessage × Registry
unfolding create_client
join_client fd m conn none reg = (none, (create_client fd m conn reg).1)
join_client fd m conn (some c) reg = (none, reg)

unfoldable pub leave_client : Option Client → Registry → Option WorkerMessage × Registry
unfolding dispose_client
leave_client none reg = (none, reg)
leave_client (some c) reg = (none, dispose_client c reg)

unfoldable pub take_client : Option Client → Registry → Option (Option WorkerMessage × Registry)
unfolding consume
take_client none reg = some (none, reg)
take_client (some c) reg = consume c.source reg

unfoldable pub step : Op → Registry → Option (Option WorkerMessage × Registry)
unfolding join_client leave_client take_client instance_client deliver
step (joins fd m conn) reg =
    some (join_client fd m conn (instance_client m.user_id m.app_id m.screte_key reg) reg)
step (leaves k) reg = some (leave_client (find k reg.clients) reg)
step (posts m) reg =
    deliver m (instance_client m.user_id m.app_key m.app_secret reg) reg >>= λ reg'.
    some (none, reg')
step (takes k) reg = take_client (find k reg.clients) reg

-- The mailbox that a registry holds for a key.
abbrev pub view : Registry → Boxes
view reg k = elim (find k reg.clients) [ none ↦ none | some c ↦ find c.source reg.queues ]

-- The operating system hands out descriptors that are not in use.
unfoldable pub Fits : Op → Registry → Type 0
Fits (joins fd m conn) reg = find fd reg.sources ≡ none
Fits (leaves k) reg = Unit {0}
Fits (posts m) reg = Unit {0}
Fits (takes k) reg = Unit {0}
