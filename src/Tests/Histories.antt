-- ===== src/Tests/Histories.antt =====
-- The history thread at concrete inputs.
use linkedon_push.Common.{
  ℕ, zero, suc, ◌≡◌, refl, true, false, List, [], ◌∷◌, Option, some, Bytes, codes, take, drop,
  replicate, length-replicate, arith, bytes_key, nat_key,
}
use linkedon_push.Errors.{error_success}
use linkedon_push.Conn.{Entity}
use linkedon_push.Mongo.{Document, utf8, Driver, json_texts, json_to_map}
use linkedon_push.Source.Message.{WorkerMessage, empty_worker_message, of_map}
use linkedon_push.Source.Registry.{Registry}
use linkedon_push.History.{finished, looping, page_size, history_query, do_cycle}
use linkedon_push.History.Texts.{IsCollection, Grown, read_texts}
use linkedon_push.History.Page.{do_cycle_page}
use linkedon_push.History.Endless.{repeat, do_cycle_endless}
use linkedon_push.Tests.Sources.{with_alice, with_alice-IsValid, alice_client}

abbrev pub stored : Document
stored =
    (codes "CreateTime", utf8 (codes "1"))
    ∷ (codes "ExpiresTime", utf8 (codes "1"))
    ∷ (codes "Title", utf8 (codes "hi"))
    ∷ []

-- A database with these documents, whatever is asked for.
abbrev pub database : List Document → Driver
database docs = record {
  find = λ q skip limit. record { docs = take limit (drop skip docs); failed = false };
  find_with_opts = λ q. record { docs = docs; failed = false };
  insert = λ q. true;
  delete = λ q. true;
  delete_oid = λ db name id. true;
  update = λ id q. true;
  as_json = λ d. codes "j";
  from_json = λ t. stored;
  print_int = λ n. codes "0";
  print_long = λ n. codes "0";
}

abbrev pub stoll : Bytes → Option ℕ
stoll t = some 0

abbrev pub for_alice : Entity
for_alice = record {
  db = codes "d";
  collection_name = codes "c";
  app_key = codes "app";
  user_id = codes "12";
  secrete_key = codes "key";
}

abbrev old_news : WorkerMessage
old_news = record empty_worker_message { title = codes "hi" }

database-IsCollection :
    (docs : List Document) → IsCollection (database docs) (history_query for_alice) docs
database-IsCollection docs = record { found = λ skip limit h. refl }

old_news_read :
    (n : ℕ)
    → read_texts stoll
        (json_to_map (database (replicate n stored)))
        (json_texts (λ d. codes "j") (replicate n stored))
      ≡ some (replicate n old_news)
unfolding read_texts json_texts of_map json_to_map linkedon_push.Source.Message.string_to_long
old_news_read n = go n (replicate n stored)
  where
    go :
        (n : ℕ) (docs : List Document)
        → read_texts stoll
            (json_to_map (database docs))
            (json_texts (λ d. codes "j") (replicate n stored))
          ≡ some (replicate n old_news)
    go zero docs = refl
    go (suc n) docs = rw (go n docs) refl

do_cycle_page_example :
    (reg : Registry) × (do_cycle stoll (database (stored ∷ [])) 0 ((4, for_alice) ∷ []) with_alice
      ≡ some (finished error_success reg, []))
    × Grown with_alice reg 0 [] (old_news ∷ [])
do_cycle_page_example =
    do_cycle_page stoll (database (stored ∷ [])) for_alice (stored ∷ [])
      (database-IsCollection (stored ∷ [])) (old_news ∷ []) (old_news_read 1) 0 4 [] alice_client []
      (omega arith) with_alice-IsValid refl refl

do_cycle_endless_example :
    (reg : Registry) × (do_cycle stoll
        (database (replicate 50001 stored))
        2
        ((4, for_alice) ∷ [])
        with_alice
      ≡ some (looping reg, []))
    × Grown with_alice reg 0 [] (repeat 2 (take page_size (replicate 50001 old_news)))
do_cycle_endless_example =
    do_cycle_endless stoll (database (replicate 50001 stored)) for_alice (replicate 50001 stored)
      (database-IsCollection (replicate 50001 stored)) (replicate 50001 old_news)
      (old_news_read 50001) (omega (arith, length-replicate 50001 stored)) 2 4 [] alice_client []
      with_alice-IsValid refl refl
