-- ===== src/History/Endless.antt =====
-- The history of a client that has more documents than one page holds.
use linkedon_push.Common.{
  ℕ, zero, suc, ◌<◌, ◌≡◌, refl, sym, ap, ◌∙◌, true, List, [], ◌∷◌, ◌++◌, Option, some, Bytes,
  length, take, arith, find, bytes_key, nat_key,
}
use linkedon_push.Errors.{error_success}
use linkedon_push.Conn.{Entity}
use linkedon_push.Mongo.{
  Document, Query, Driver, is_nonempty, json_texts, skip_params_is_exist, json_to_map,
}
use linkedon_push.Source.Message.{WorkerMessage}
use linkedon_push.Source.Registry.{Registry, Client, Queue, client_key}
use linkedon_push.Source.Registry.Inv.{IsValid}
use linkedon_push.History.{
  select_limit, select_loop, do_cycle, end_work, history_query, page_size, looping, Pending,
}
use linkedon_push.History.Texts.{
  IsCollection, read_texts, Grown, none-Grown, then-Grown, nonempty_lem,
}
use linkedon_push.History.Page.{
  one_exists, some_more, select_limit_lem, select_work_loop, do_cycle_work,
}

-- A list, as often as a number says.
abbrev pub repeat {ℓ} : {A : Type ℓ} → ℕ → List A → List A
repeat zero xs = []
repeat (suc n) xs = xs ++ repeat n xs

one_round :
    (stoll : Bytes → Option ℕ) (mongo : Driver) (rounds : ℕ) (mie : Entity) (query : Query)
    (reg reg' : Registry)
    → select_limit stoll mongo mie query 1 page_size reg ≡ some (error_success, reg')
    → skip_params_is_exist mongo query page_size ≡ true
    → select_loop stoll mongo (suc rounds) mie query true reg
      ≡ select_loop stoll mongo rounds mie query true reg'
unfolding select_loop
one_round stoll mongo rounds mie query reg reg' selected more =
    rw selected (ap (λ b. select_loop stoll mongo rounds mie query b reg') more)

module _ (stoll : Bytes → Option ℕ) (mongo : Driver) (mie : Entity) (docs : List Document)
    (coll : IsCollection mongo (history_query mie) docs) (ms : List WorkerMessage)
    (readable : read_texts stoll (json_to_map mongo) (json_texts mongo.as_json docs) ≡ some ms)
    (many : page_size < length docs) where
  select_endless :
      (rounds : ℕ) (c : Client) (q : Queue) {reg : Registry}
      → IsValid reg
      → find (client_key mie.user_id mie.app_key mie.secrete_key) reg.clients ≡ some c
      → find c.source reg.queues ≡ some q
      → (reg' : Registry) × (select_loop stoll mongo rounds mie (history_query mie) true reg
          ≡ some (looping reg'))
        × Grown reg reg' c.source q (repeat rounds (take page_size ms))
  unfolding select_loop
  select_endless zero c q {reg} v there at = (reg, refl, none-Grown c.source q v at)
  select_endless (suc rounds) c q {reg} v there at =
      let (reg1, selected, g) =
        select_limit_lem stoll mongo mie docs coll ms readable c q v there at in
      let (reg2, looped, g') =
        select_endless rounds c (q ++ take page_size ms) g.valid
          (ap (find (client_key mie.user_id mie.app_key mie.secrete_key)) g.same_clients ∙ there)
          g.grown in
      (
        reg2,
        one_round stoll mongo rounds mie (history_query mie) reg reg1 selected
              (some_more stoll mongo mie docs coll ms readable many)
            ∙ looped,
        then-Grown c.source q (take page_size ms) (repeat rounds (take page_size ms)) g g',
      )

  -- The entity at the front of the queue being that of a registered client, the database having more than 50000
  -- documents of this client, all readable, and the registry being well formed: after any number of rounds of the loop of
  -- `selectMongoHistoryWork` `do_cycle` has not returned, and each round has put the messages of the first 50000 documents
  -- into the client's queue once more.
  pub do_cycle_endless :
      (rounds address : ℕ) (queue : Pending) (c : Client) (q : Queue) {reg : Registry}
      → IsValid reg
      → find (client_key mie.user_id mie.app_key mie.secrete_key) reg.clients ≡ some c
      → find c.source reg.queues ≡ some q
      → (reg' : Registry) × (do_cycle stoll mongo rounds ((address, mie) ∷ queue) reg
          ≡ some (looping reg', queue))
        × Grown reg reg' c.source q (repeat rounds (take page_size ms))
  unfolding end_work
  do_cycle_endless rounds address queue c q {reg} v there at =
      let (reg', looped, g) = select_endless rounds c q v there at in
      (
        reg',
        do_cycle_work stoll mongo rounds address mie queue (looping reg') reg (
            select_work_loop stoll mongo rounds mie reg true
              (sym (one_exists stoll mongo mie docs coll ms readable) ∙ full)
              (some_more stoll mongo mie docs coll ms readable many)
            ∙ looped),
        g,
      )
    where
      full : is_nonempty (take 1 docs) ≡ true
      full = nonempty_lem 0 docs (omega (arith, many))
