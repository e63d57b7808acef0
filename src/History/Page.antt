-- ===== src/History/Page.antt =====
-- One page of the history, and a whole `do_cycle` where there is only one.
use mathlib.Core.Path.{subst}
use linkedon_push.Common.{
  ℕ, ◌≤◌, ◌<◌, ◌≡◌, refl, sym, ap, ◌∙◌, Bool, true, false, List, [], ◌∷◌, Option, some,
  if◌then◌else◌, Bytes, length, take, take_all, arith, find, bytes_key, nat_key, inl, inr,
  Bool-cases,
}
use linkedon_push.Errors.{error_success}
use linkedon_push.Conn.{Entity}
use linkedon_push.Mongo.{
  Document, Cursor, Driver, is_nonempty, json_texts, collect, select_one_is_exist,
  skip_params_is_exist, query_to_list_json_limit, json_to_map,
}
use linkedon_push.Source.Message.{WorkerMessage}
use linkedon_push.Source.Registry.{Registry, Client, Queue, client_key, instance_client}
use linkedon_push.Source.Registry.Inv.{IsValid}
use linkedon_push.History.{
  select_limit, select_loop, select_work, do_cycle, end_work, pop_entity, copy_entity, can_loop,
  history_query, page_size, Work, finished, Pending,
}
use linkedon_push.History.Texts.{
  IsCollection, read_texts, Grown, none-Grown, push_history_lem, json_texts-take, read_texts-take,
  select_limit-push_history, nonempty_lem, empty_lem, read_texts-length, empty_texts,
}

-- How `select_work` and `do_cycle` go on.
module _ (stoll : Bytes → Option ℕ) (mongo : Driver) (rounds : ℕ) where
  pub select_work_loop :
      (mie : Entity) (reg : Registry) (isup : Bool)
      → select_one_is_exist mongo (history_query mie) ≡ true
      → skip_params_is_exist mongo (history_query mie) page_size ≡ isup
      → select_work stoll mongo rounds mie reg
        ≡ select_loop stoll mongo rounds mie (history_query mie) isup reg
  unfolding select_work select_loop
  select_work_loop mie reg isup exist more = rw (exist, more) refl

  select_work_none :
      (mie : Entity) (reg : Registry)
      → select_one_is_exist mongo (history_query mie) ≡ false
      → select_work stoll mongo rounds mie reg ≡ some (finished error_success reg)
  unfolding select_work
  select_work_none mie reg exist = rw exist refl

  pub do_cycle_work :
      (address : ℕ) (mie : Entity) (queue : Pending) (work : Work) (reg : Registry)
      → select_work stoll mongo rounds mie reg ≡ some work
      → do_cycle stoll mongo rounds ((address, mie) ∷ queue) reg ≡ some (end_work work, queue)
  unfolding do_cycle can_loop pop_entity copy_entity
  do_cycle_work address mie queue work reg worked = rw worked refl

module _ (stoll : Bytes → Option ℕ) (mongo : Driver) (mie : Entity) (docs : List Document)
    (coll : IsCollection mongo (history_query mie) docs) (ms : List WorkerMessage)
    (readable : read_texts stoll (json_to_map mongo) (json_texts mongo.as_json docs)
      ≡ some ms) where
  pub one_exists : is_nonempty (take 1 docs) ≡ select_one_is_exist mongo (history_query mie)
  unfolding select_one_is_exist
  one_exists = ap (λ (c : Cursor). is_nonempty c.docs) (sym (coll.found 0 1 (omega arith)))

  pub no_more :
      length docs ≤ page_size → skip_params_is_exist mongo (history_query mie) page_size ≡ false
  unfolding skip_params_is_exist
  no_more few =
      ap (λ (c : Cursor). is_nonempty c.docs) (coll.found page_size 1 (omega arith))
      ∙ empty_lem page_size docs few

  pub some_more :
      page_size < length docs → skip_params_is_exist mongo (history_query mie) page_size ≡ true
  unfolding skip_params_is_exist
  some_more many =
      ap (λ (c : Cursor). is_nonempty c.docs) (coll.found page_size 1 (omega arith))
      ∙ nonempty_lem page_size docs many

  page_lem :
      query_to_list_json_limit mongo (history_query mie) 1 page_size
      ≡ take page_size (json_texts mongo.as_json docs)
  unfolding query_to_list_json_limit collect
  page_lem =
      ap (λ (c : Cursor). if c.failed then [] else json_texts mongo.as_json c.docs)
        (coll.found 0 page_size (omega arith))
      ∙ json_texts-take mongo.as_json page_size docs

  -- The page goes to the queue of the client, whichever page was asked for before.
  pub select_limit_lem :
      (c : Client) (q : Queue) {reg : Registry}
      → IsValid reg
      → find (client_key mie.user_id mie.app_key mie.secrete_key) reg.clients ≡ some c
      → find c.source reg.queues ≡ some q
      → (reg' : Registry) × (select_limit stoll mongo mie (history_query mie) 1 page_size reg
          ≡ some (error_success, reg'))
        × Grown reg reg' c.source q (take page_size ms)
  unfolding instance_client
  select_limit_lem c q {reg} v there at =
      let (reg', pushed, g) =
        push_history_lem stoll (json_to_map mongo) c.source q
          (take page_size (json_texts mongo.as_json docs)) (take page_size ms) v at
          (read_texts-take stoll (json_to_map mongo) page_size (json_texts mongo.as_json docs) ms
            readable) in
      (
        reg',
        select_limit-push_history stoll mongo mie (history_query mie) 1 page_size c _ reg reg' there
            page_lem pushed,
        g,
      )

  select_one_page :
      (rounds : ℕ) (c : Client) (q : Queue) {reg : Registry}
      → length docs ≤ page_size
      → IsValid reg
      → find (client_key mie.user_id mie.app_key mie.secrete_key) reg.clients ≡ some c
      → find c.source reg.queues ≡ some q
      → (reg' : Registry) × (select_loop stoll mongo rounds mie (history_query mie) false reg
          ≡ some (finished error_success reg'))
        × Grown reg reg' c.source q ms
  unfolding select_loop
  select_one_page rounds c q {reg} few v there at =
      let (reg', selected, g) = select_limit_lem c q v there at in
      (
        reg',
        rw selected refl,
        subst (Grown reg reg' c.source q) (take_all page_size ms (omega (arith, length-ms))) g,
      )
    where
      length-ms : length ms ≡ length docs
      length-ms = sym (read_texts-length stoll (json_to_map mongo) mongo.as_json docs ms readable)

  select_work_page :
      (rounds : ℕ) (c : Client) (q : Queue) {reg : Registry}
      → length docs ≤ page_size
      → IsValid reg
      → find (client_key mie.user_id mie.app_key mie.secrete_key) reg.clients ≡ some c
      → find c.source reg.queues ≡ some q
      → (reg' : Registry) × (select_work stoll mongo rounds mie reg
          ≡ some (finished error_success reg'))
        × Grown reg reg' c.source q ms
  select_work_page rounds c q {reg} few v there at = elim (Bool-cases (is_nonempty (take 1 docs))) [
    | inl full ↦
        let (reg', selected, g) = select_one_page rounds c q few v there at in
        (
          reg',
          select_work_loop stoll mongo rounds mie reg false (sym one_exists ∙ full) (no_more few)
              ∙ selected,
          g,
        )
    | inr empty ↦ (
      reg,
      select_work_none stoll mongo rounds mie reg (sym one_exists ∙ empty),
      subst (Grown reg reg c.source q) (no_ms empty) (none-Grown c.source q v at),
    )
  ]
    where
      no_ms : is_nonempty (take 1 docs) ≡ false → [] ≡ ms
      no_ms empty = empty_texts stoll (json_to_map mongo) mongo.as_json docs ms empty readable

  -- The entity at the front of the queue being that of a registered client, the database having no more than 50000
  -- documents of this client, all readable, and the registry being well formed: `do_cycle` takes the entity off the
  -- queue and succeeds, the queue of that client has grown by exactly the messages of the documents, in their order, and
  -- clients, sources and all other queues are unchanged.
  pub do_cycle_page :
      (rounds address : ℕ) (queue : Pending) (c : Client) (q : Queue) {reg : Registry}
      → length docs ≤ page_size
      → IsValid reg
      → find (client_key mie.user_id mie.app_key mie.secrete_key) reg.clients ≡ some c
      → find c.source reg.queues ≡ some q
      → (reg' : Registry) × (do_cycle stoll mongo rounds ((address, mie) ∷ queue) reg
          ≡ some (finished error_success reg', queue))
        × Grown reg reg' c.source q ms
  unfolding end_work
  do_cycle_page rounds address queue c q {reg} few v there at =
      let (reg', worked, g) = select_work_page rounds c q few v there at in
      (
        reg',
        do_cycle_work stoll mongo rounds address mie queue (finished error_success reg') reg worked,
        g,
      )
