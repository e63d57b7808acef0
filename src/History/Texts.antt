-- ===== src/History/Texts.antt =====
-- The texts of documents, the messages in them, and their way into the queue of a client.
use mathlib.Core.Path.{subst}
use linkedon_push.Common.{
  ℕ, zero, suc, ◌≤◌, ◌<◌, ◌≡◌, ◌≢◌, refl, sym, ap, ◌∙◌, true, false, List, [], ◌∷◌, ◌++◌, Option,
  some, Bytes, StringMap, c_str, length, take, drop, arith, ◌>>=◌, >>=-eq-some, find, bytes_key,
  nat_key, append_assoc, append-nil,
}
use linkedon_push.Errors.{error_success}
use linkedon_push.Conn.{Entity}
use linkedon_push.Mongo.{
  Document, Query, Driver, is_nonempty, json_texts, query_to_list_json_limit, json_to_map,
}
use linkedon_push.Source.Message.{WorkerMessage, of_map, copy}
use linkedon_push.Source.Message.RoundTrip.{copy_lem}
use linkedon_push.Source.Registry.{Registry, Client, Queue, instance_client}
use linkedon_push.Source.Registry.Inv.{IsValid, push-IsValid}
use linkedon_push.History.{push_history, select_limit}

-- What the driver documents of a find in a collection that has `docs` for the query.
pub record IsCollection (mongo : Driver) (q : Query) (docs : List Document) : Type 0 where
  pub found :
      (skip limit : ℕ)
      → 0 < limit
      → mongo.find q skip limit ≡ record { docs = take limit (drop skip docs); failed = false }

-- The messages that the texts hold; `none` if one of them cannot be read.
unfoldable pub read_texts :
    (Bytes → Option ℕ) → (Bytes → StringMap) → List Bytes → Option (List WorkerMessage)
read_texts stoll to_map [] = some []
read_texts stoll to_map (t ∷ ts) =
    of_map stoll (to_map t) >>= λ m. read_texts stoll to_map ts >>= λ ms. some (m ∷ ms)

-- A registry in which one queue has grown by `ms`.
pub record Grown (reg reg' : Registry) (source : ℕ) (q : Queue) (ms : List WorkerMessage)
    : Type 0 where
  pub valid : IsValid reg'
  pub same_clients : reg'.clients ≡ reg.clients
  pub same_sources : reg'.sources ≡ reg.sources
  pub grown : find source reg'.queues ≡ some (q ++ ms)
  pub others : (j : ℕ) → j ≢ source → find j reg'.queues ≡ find j reg.queues

pub none-Grown :
    {reg : Registry} (source : ℕ) (q : Queue)
    → IsValid reg
    → find source reg.queues ≡ some q
    → Grown reg reg source q []
none-Grown source q v e = record {
  valid = v;
  same_clients = refl;
  same_sources = refl;
  grown = e ∙ ap some (sym (append-nil q));
  others = λ j ne. refl;
}

pub then-Grown :
    {reg reg1 reg2 : Registry} (source : ℕ) (q : Queue) (ms ns : List WorkerMessage)
    → Grown reg reg1 source q ms
    → Grown reg1 reg2 source (q ++ ms) ns
    → Grown reg reg2 source q (ms ++ ns)
then-Grown source q ms ns g1 g2 = record {
  valid = g2.valid;
  same_clients = g2.same_clients ∙ g1.same_clients;
  same_sources = g2.same_sources ∙ g1.same_sources;
  grown = g2.grown ∙ ap some (append_assoc q ms ns);
  others = λ j ne. g2.others j ne ∙ g1.others j ne;
}

pub push_history_lem :
    (stoll : Bytes → Option ℕ) (to_map : Bytes → StringMap) (source : ℕ) (q : Queue)
    (texts : List Bytes) (ms : List WorkerMessage) {reg : Registry}
    → IsValid reg
    → find source reg.queues ≡ some q
    → read_texts stoll to_map texts ≡ some ms
    → (reg' : Registry) × (push_history stoll to_map source texts reg ≡ some reg')
      × Grown reg reg' source q ms
unfolding push_history read_texts
push_history_lem stoll to_map source q [] ms {reg} v at e =
    (reg, refl, subst (Grown reg reg source q) (cc e) (none-Grown source q v at))
push_history_lem stoll to_map source q (t ∷ texts) ms {reg} v at e =
    let (m, read_t, e1) = >>=-eq-some (of_map stoll (to_map t)) _ e in
    let (ms', read_ts, e2) = >>=-eq-some (read_texts stoll to_map texts) _ e1 in
    let (reg1, pushed, v1, clients, sources, here, others) = push-IsValid v source (copy m) q at in
    let here' : find source reg1.queues ≡ some (q ++ (m ∷ [])) =
      here ∙ ap (λ (n : WorkerMessage). some (q ++ (n ∷ []))) (copy_lem m) in
    let (reg2, rest, g) =
      push_history_lem stoll to_map source (q ++ (m ∷ [])) texts ms' v1 here' read_ts in
    let g1 : Grown reg reg1 source q (m ∷ []) = record {
      valid = v1;
      same_clients = clients;
      same_sources = sources;
      grown = here';
      others = others;
    } in
    (
      reg2,
      rw (read_t, pushed) rest,
      subst (Grown reg reg2 source q) (cc e2) (then-Grown source q (m ∷ []) ms' g1 g),
    )

pub json_texts-take :
    (as_json : Document → Bytes) (n : ℕ) (docs : List Document)
    → json_texts as_json (take n docs) ≡ take n (json_texts as_json docs)
unfolding json_texts
json_texts-take as_json zero docs = refl
json_texts-take as_json (suc n) [] = refl
json_texts-take as_json (suc n) (d ∷ docs) =
    ap (λ ts. c_str (as_json d) ∷ ts) (json_texts-take as_json n docs)

pub read_texts-take :
    (stoll : Bytes → Option ℕ) (to_map : Bytes → StringMap) (n : ℕ) (ts : List Bytes)
    (ms : List WorkerMessage)
    → read_texts stoll to_map ts ≡ some ms
    → read_texts stoll to_map (take n ts) ≡ some (take n ms)
unfolding read_texts
read_texts-take stoll to_map zero ts ms e = refl
read_texts-take stoll to_map (suc n) [] ms e = let p : [] ≡ ms = cc e in rw (sym p) refl
read_texts-take stoll to_map (suc n) (t ∷ ts) ms e =
    let (m, read_t, e1) = >>=-eq-some (of_map stoll (to_map t)) _ e in
    let (ms', read_ts, e2) = >>=-eq-some (read_texts stoll to_map ts) _ e1 in
    let p : m ∷ ms' ≡ ms = cc e2 in
    rw (sym p) (rw (read_t, read_texts-take stoll to_map n ts ms' read_ts) refl)

pub select_limit-push_history :
    (stoll : Bytes → Option ℕ) (mongo : Driver) (mie : Entity) (query : Query) (page size : ℕ)
    (c : Client) (texts : List Bytes) (reg reg' : Registry)
    → instance_client mie.user_id mie.app_key mie.secrete_key reg ≡ some c
    → query_to_list_json_limit mongo query page size ≡ texts
    → push_history stoll (json_to_map mongo) c.source texts reg ≡ some reg'
    → select_limit stoll mongo mie query page size reg ≡ some (error_success, reg')
unfolding select_limit
select_limit-push_history stoll mongo mie query page size c texts reg reg' there answered pushed =
    rw (select_limit, there, answered, pushed) refl

pub nonempty_lem :
    (n : ℕ) (docs : List Document) → n < length docs → is_nonempty (take 1 (drop n docs)) ≡ true
unfolding is_nonempty
nonempty_lem n [] h = absurd (omega arith)
nonempty_lem zero (d ∷ docs) h = refl
nonempty_lem (suc n) (d ∷ docs) h = nonempty_lem n docs (omega arith)

pub empty_lem :
    (n : ℕ) (docs : List Document) → length docs ≤ n → is_nonempty (take 1 (drop n docs)) ≡ false
unfolding is_nonempty
empty_lem zero [] h = refl
empty_lem (suc n) [] h = refl
empty_lem zero (d ∷ docs) h = absurd (omega arith)
empty_lem (suc n) (d ∷ docs) h = empty_lem n docs (omega arith)

pub read_texts-length :
    (stoll : Bytes → Option ℕ) (to_map : Bytes → StringMap) (as_json : Document → Bytes)
    (docs : List Document) (ms : List WorkerMessage)
    → read_texts stoll to_map (json_texts as_json docs) ≡ some ms
    → length docs ≡ length ms
unfolding read_texts json_texts
read_texts-length stoll to_map as_json [] ms e = let p : [] ≡ ms = cc e in ap length p
read_texts-length stoll to_map as_json (d ∷ docs) ms e =
    let (m, read_d, e1) = >>=-eq-some (of_map stoll (to_map (c_str (as_json d)))) _ e in
    let (ms', read_ds, e2) = >>=-eq-some (read_texts stoll to_map (json_texts as_json docs)) _ e1 in
    let p : m ∷ ms' ≡ ms = cc e2 in
    ap suc (read_texts-length stoll to_map as_json docs ms' read_ds) ∙ ap length p

pub empty_texts :
    (stoll : Bytes → Option ℕ) (to_map : Bytes → StringMap) (as_json : Document → Bytes)
    (docs : List Document) (ms : List WorkerMessage)
    → is_nonempty (take 1 docs) ≡ false
    → read_texts stoll to_map (json_texts as_json docs) ≡ some ms
    → [] ≡ ms
unfolding is_nonempty read_texts json_texts
empty_texts stoll to_map as_json [] ms empty e = cc e
empty_texts stoll to_map as_json (d ∷ docs) ms empty e = cc empty
