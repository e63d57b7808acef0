-- ===== src/Server/Tasks.antt =====
-- The list of tasks in the store, and the messages that its texts hold.
use linkedon_push.Common.{
  ℕ, zero, suc, ◌≡◌, refl, sym, ap, ◌∙◌, List, [], ◌∷◌, ◌++◌, Option, none, some, Bytes, codes,
  c_str, length, take, drop, arith, >>=-eq-some, find, bytes_key, nat_key, append_assoc,
}
use linkedon_push.Redis.{Arg, word, int, Item, Reply, text_of, texts_of, minus_one}
use linkedon_push.Redis.Laws.{bulk, array_of}
use linkedon_push.Source.Message.{WorkerMessage, Document, of_json}
use linkedon_push.Source.Registry.{Registry}
use linkedon_push.Source.Deliver.{read_all, addressed, Delivered}

abbrev pub bulks : List Bytes → List Item
bulks [] = []
bulks (t ∷ ts) = bulk t ∷ bulks ts

-- What the documentation of LRANGE, LTRIM and HSET says of a list under `key`, the connection being up. `key` is not the
-- hash `server_list`.
pub record IsTaskStore {S : Type 0} (redis_command : List Arg → S → Option Reply × S)
    (server_list key : Bytes) (tasks : S → List Bytes) : Type 0 where
  pub range :
      (s : S)
      → (s' : S) × (redis_command
            (word (codes "LRANGE") ∷ word (c_str key) ∷ int 0 ∷ int 1000 ∷ [])
            s
          ≡ (some (array_of (bulks (take 1001 (tasks s)))), s'))
        × (tasks s' ≡ tasks s)
  pub trim :
      (n : ℕ) (s : S)
      → tasks
          (redis_command (word (codes "ltrim") ∷ word (c_str key) ∷ int n ∷ int minus_one ∷ []) s).1
        ≡ drop n (tasks s)
  pub hash :
      (field value : Bytes) (s : S)
      → tasks
          (redis_command
            (word (codes "hset")
              ∷ word (c_str server_list)
              ∷ word (c_str field)
              ∷ word (c_str value)
              ∷ [])
            s).1
        ≡ tasks s

-- The C strings of the texts.
abbrev pub c_strs : List Bytes → List Bytes
c_strs [] = []
c_strs (t ∷ ts) = c_str t ∷ c_strs ts

pub texts_of-bulks : (ts : List Bytes) → texts_of (bulks ts) ≡ some (c_strs ts)
unfolding texts_of text_of
texts_of-bulks [] = refl
texts_of-bulks (t ∷ ts) = rw (texts_of-bulks ts) refl

pub read_all-length :
    (parse : Bytes → Document) (ts : List Bytes) (ms : List WorkerMessage)
    → read_all parse (c_strs ts) ≡ some ms
    → length ts ≡ length ms
unfolding read_all
read_all-length parse [] ms e =
    ap (λ (o : Option (List WorkerMessage)). elim o [ none ↦ 0 | some l ↦ length l ]) e
read_all-length parse (t ∷ ts) ms e =
    let (m, read_t, e1) = >>=-eq-some (of_json parse (c_str t)) _ e in
    let (ms', read_ts, e2) = >>=-eq-some (read_all parse (c_strs ts)) _ e1 in
    let p : m ∷ ms' ≡ ms = cc e2 in ap suc (read_all-length parse ts ms' read_ts) ∙ ap length p

-- The first texts hold the first messages, and the others the others.
pub read_all-take :
    (parse : Bytes → Document) (n : ℕ) (ts : List Bytes) (ms : List WorkerMessage)
    → read_all parse (c_strs ts) ≡ some ms
    → (read_all parse (c_strs (take n ts)) ≡ some (take n ms))
      × (read_all parse (c_strs (drop n ts)) ≡ some (drop n ms))
unfolding read_all
read_all-take parse zero ts ms e = (refl, e)
read_all-take parse (suc n) [] ms e = let p : [] ≡ ms = cc e in rw (sym p) (refl, refl)
read_all-take parse (suc n) (t ∷ ts) ms e =
    let (m, read_t, e1) = >>=-eq-some (of_json parse (c_str t)) _ e in
    let (ms', read_ts, e2) = >>=-eq-some (read_all parse (c_strs ts)) _ e1 in
    let p : m ∷ ms' ≡ ms = cc e2 in
    let (first, rest) = read_all-take parse n ts ms' read_ts in
    rw (sym p) (rw (read_t, first) refl, rest)

pub addressed-append :
    (k : Bytes) (ms ns : List WorkerMessage)
    → addressed k (ms ++ ns) ≡ addressed k ms ++ addressed k ns
unfolding addressed
addressed-append k [] ns = refl
addressed-append k (m ∷ ms) ns = ground (arith, addressed-append k ms ns)

pub length-c_strs : (ts : List Bytes) → length (c_strs ts) ≡ length ts
length-c_strs [] = refl
length-c_strs (t ∷ ts) = ap suc (length-c_strs ts)

pub drop-length-take : (n : ℕ) (ts : List Bytes) → drop (length (take n ts)) ts ≡ drop n ts
drop-length-take zero ts = refl
drop-length-take (suc n) [] = refl
drop-length-take (suc n) (t ∷ ts) = drop-length-take n ts

pub append-Delivered :
    {reg reg1 reg2 : Registry} (ms ns : List WorkerMessage)
    → Delivered reg reg1 ms
    → Delivered reg1 reg2 ns
    → Delivered reg reg2 (ms ++ ns)
append-Delivered {reg} {reg1} {reg2} ms ns d1 d2 = record {
  valid = d2.valid;
  same_clients = d2.same_clients ∙ d1.same_clients;
  same_sources = d2.same_sources ∙ d1.same_sources;
  queued = λ k c q h e.
      d2.queued k c (q ++ addressed k ms) (ap (find k) d1.same_clients ∙ h) (d1.queued k c q h e)
      ∙ ap some (
          append_assoc q (addressed k ms) (addressed k ns)
          ∙ ap (λ t. q ++ t) (sym (addressed-append k ms ns)));
}
