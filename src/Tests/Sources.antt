-- ===== src/Tests/Sources.antt =====
-- Clients, sources and the delivery of messages at concrete inputs.
use linkedon_push.Common.{
  ◌≡◌, ◌≢◌, refl, true, value_of, [], ◌∷◌, none, some, Bytes, codes, find, bytes_key, nat_key,
}
use linkedon_push.Source.Message.{
  WorkerMessage, empty_worker_message, Document, object, of_json, copy,
}
use linkedon_push.Source.Registry.{
  Registry, Client, empty_registry, create_client, dispose_client, cycle_all,
}
use linkedon_push.Source.Registry.Inv.{IsValid, create_client-IsValid, dispose_client-IsValid}
use linkedon_push.Source.Deliver.{read_all, Delivered, cycle_all_lem}
use linkedon_push.Tests.Samples.{alice}

pub empty-IsValid : IsValid empty_registry
empty-IsValid = record {
  fresh = λ i h. refl;
  alive = λ fd i h. cc;
  one_source = λ fd fd' i h h'. cc;
  keyed = λ k c h. cc;
  bound = λ k c h. cc;
  one_client = λ k k' c c' h h' e. cc;
}

-- Alice, registered under descriptor 3 by the connection at 4.
abbrev pub alice_client : Client
alice_client = record {
  cstfd = 3;
  app_id = codes "app";
  screte_key = codes "key";
  user_id = codes "12";
  client_flag = [];
  can_play = true;
  source = 0;
  conn = 4;
}

abbrev pub alice_key : Bytes
alice_key = codes "12appkey"

abbrev pub with_alice : Registry
with_alice = record {
  sources = (3, 0) ∷ [];
  clients = (alice_key, alice_client) ∷ [];
  queues = (0, []) ∷ [];
  next = 1;
}

create_client-IsValid_example :
    let (c, reg) = create_client 3 alice 4 empty_registry in
    IsValid reg × (find alice_key reg.clients ≡ some c) × (find c.source reg.queues ≡ some [])
create_client-IsValid_example = create_client-IsValid empty-IsValid 3 alice 4 refl refl

pub with_alice-IsValid : IsValid with_alice
unfolding create_client
with_alice-IsValid = (create_client-IsValid empty-IsValid 3 alice 4 refl refl).0

dispose_client-IsValid_example :
    let reg = dispose_client alice_client with_alice in
    IsValid reg
    × (find alice_key reg.clients ≡ none)
    × (find 0 reg.queues ≡ none)
    × ((k : Bytes) (c : Client)
        → alice_key ≢ k
        → find k with_alice.clients ≡ some c
        → (find k reg.clients ≡ some c)
          × (find c.source reg.queues ≡ find c.source with_alice.queues))
dispose_client-IsValid_example =
    dispose_client-IsValid with_alice-IsValid alice_key alice_client refl

-- A message for alice.
abbrev pub news : WorkerMessage
news = record empty_worker_message {
  app_key = codes "app";
  app_secret = codes "key";
  user_id = codes "12";
  title = codes "hi";
}

-- A parser that takes every text for alice's message.
abbrev pub reader : Bytes → Document
reader s = object (record {
  as_string = λ k.
      value_of
        ((codes "AppKey", codes "app")
          ∷ (codes "AppSecret", codes "key")
          ∷ (codes "UserId", codes "12")
          ∷ (codes "Title", codes "hi")
          ∷ [])
        k;
  as_int64 = λ k. 0;
})

pub texts_read : read_all reader (codes "t" ∷ []) ≡ some (news ∷ [])
unfolding read_all of_json linkedon_push.Source.Message.of_document
texts_read = refl

cycle_all_lem_example :
    (reg : Registry) × (cycle_all reader (codes "t" ∷ []) with_alice ≡ some (1, reg))
    × Delivered with_alice reg (news ∷ [])
cycle_all_lem_example =
    cycle_all_lem reader (codes "t" ∷ []) (news ∷ []) with_alice-IsValid texts_read
