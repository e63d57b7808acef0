-- ===== src/Server/Ticks.antt =====
-- How the server's main thread empties the task list of the store.
use linkedon_push.Common.{
  ℕ, ◌*◌, ◌≡◌, refl, sym, ap, ◌∙◌, false, List, [], ◌∷◌, Option, some, Bytes, length, All, take,
  drop, arith, bytes_key, nat_key, take-take_add, drop-drop,
}
use mathlib.Core.Path.{subst}
use linkedon_push.Redis.{Arg, Reply, ask_texts, tell, minus_one, list, ltrim, hset}
use linkedon_push.Redis.Laws.{array_of, ask_lem}
use linkedon_push.Source.Message.{WorkerMessage, Document}
use linkedon_push.Source.Registry.{Registry}
use linkedon_push.Source.Registry.Inv.{IsValid}
use linkedon_push.Source.Deliver.{read_all, Delivered, none-Delivered, cycle_all_lem}
use linkedon_push.Server.{Server}
use linkedon_push.Server.Cycle.{
  World, Second, Outcome, goes, hreat_redis, store_cycle_all, second, do_cycle, signals_cycle,
}
use linkedon_push.Server.Tasks.{
  bulks, IsTaskStore, c_strs, texts_of-bulks, read_all-take, length-c_strs, drop-length-take,
  append-Delivered,
}

module _ {S : Type 0} (redis_command : List Arg → S → Option Reply × S) (server_list key : Bytes)
    (tasks : S → List Bytes) (store : IsTaskStore redis_command server_list key tasks)
    (status : ℕ → Bytes) (parse : Bytes → Document) where
  list_lem :
      (s : S)
      → (s' : S) × (list redis_command key 0 1000 s ≡ some (c_strs (take 1001 (tasks s)), s'))
        × (tasks s' ≡ tasks s)
  unfolding list ask_texts
  list_lem s =
      let (s', told, kept) = store.range s in
      (
        s',
        rw
            (
              ask_lem redis_command _ (array_of (bulks (take 1001 (tasks s)))) s s' told,
              texts_of-bulks (take 1001 (tasks s)),
            )
            refl,
        kept,
      )

  trim_lem :
      (s1 s : S)
      → tasks s1 ≡ tasks s
      → tasks (ltrim redis_command key (length (c_strs (take 1001 (tasks s)))) minus_one s1)
        ≡ drop 1001 (tasks s)
  unfolding ltrim tell
  trim_lem s1 s kept =
      store.trim (length (c_strs (take 1001 (tasks s)))) s1
      ∙ ap (drop (length (c_strs (take 1001 (tasks s))))) kept
      ∙ ap (λ n. drop n (tasks s)) (length-c_strs (take 1001 (tasks s)))
      ∙ drop-length-take 1001 (tasks s)

  -- One round of `cycle_all` against the store.
  round_lem :
      (w : World S) (ms : List WorkerMessage)
      → IsValid w.registry
      → read_all parse (c_strs (tasks w.store)) ≡ some ms
      → (w' : World S) × (store_cycle_all redis_command parse key w ≡ some w')
        × (w'.server ≡ w.server)
        × (tasks w'.store ≡ drop 1001 (tasks w.store))
        × Delivered w.registry w'.registry (take 1001 ms)
  unfolding store_cycle_all
  round_lem w ms v readable =
      let (s1, listed, kept) = list_lem w.store in
      let (first, rest) = read_all-take parse 1001 (tasks w.store) ms readable in
      let works = c_strs (take 1001 (tasks w.store)) in
      let (reg', cycled, d) = cycle_all_lem parse works (take 1001 ms) v first in
      (
        record w { store = ltrim redis_command key (length works) minus_one s1; registry = reg' },
        rw (listed, cycled) refl,
        refl,
        trim_lem s1 w.store kept,
        d,
      )

  -- The heartbeat leaves the tasks, the keys and the registry alone.
  hreat_lem :
      (now after : ℕ) (w : World S)
      → (tasks (hreat_redis redis_command server_list status now after w).store ≡ tasks w.store)
        × ((hreat_redis redis_command server_list status now after w).registry ≡ w.registry)
        × ((hreat_redis redis_command server_list status now after w).server.task_key
            ≡ w.server.task_key)
  unfolding hreat_redis hset tell
  hreat_lem now after w =
      ground (arith, store.hash w.server.server_key (status (length w.server.conns)) w.store)

  -- A second in which no signal came.
  second_lem :
      (x : Second) (w : World S) (ms : List WorkerMessage)
      → w.server.task_key ≡ key
      → IsValid w.registry
      → read_all parse (c_strs (tasks w.store)) ≡ some ms
      → (w' : World S) × (second redis_command server_list status parse x w ≡ some w')
        × (w'.server ≡ (hreat_redis redis_command server_list status x.now x.after w).server)
        × (tasks w'.store ≡ drop 1001 (tasks w.store))
        × Delivered w.registry w'.registry (take 1001 ms)
  unfolding second
  second_lem x w ms named v readable =
      let w1 = hreat_redis redis_command server_list status x.now x.after w in
      let (same_tasks, same_registry, same_key) = hreat_lem x.now x.after w in
      let (w2, cycled, server, left, d) =
        round_lem w1 ms (subst IsValid (sym same_registry) v)
          (ap (λ ts. read_all parse (c_strs ts)) same_tasks ∙ readable) in
      (
        w2,
        ap (λ (k : Bytes). store_cycle_all redis_command parse k w1) (same_key ∙ named) ∙ cycled,
        server,
        left ∙ ap (drop 1001) same_tasks,
        subst (λ (r : Registry). Delivered r w2.registry (take 1001 ms)) same_registry d,
      )

  hreat_quit :
      (now after : ℕ) (w : World S)
      → (hreat_redis redis_command server_list status now after w).server.signal_gracefully_quit
        ≡ w.server.signal_gracefully_quit
  unfolding hreat_redis
  hreat_quit now after w = ground arith

  one_second :
      (x : Second) (xs : List Second) (w : World S) {w1 : World S} {o : Option (Outcome S)}
      → x.signals ≡ []
      → w.server.signal_gracefully_quit ≡ false
      → second redis_command server_list status parse x w ≡ some w1
      → do_cycle redis_command server_list status parse xs w1 ≡ o
      → do_cycle redis_command server_list status parse (x ∷ xs) w ≡ o
  unfolding do_cycle signals_cycle
  one_second x xs w silent running went e = rw (silent, running, went) e

  -- The main thread, the store keeping the tasks under the server's key as documented, on a well-formed registry and
  -- tasks that can be read: in any number of seconds that bring no signal it does not fault nor end, takes 1001 tasks from
  -- the front of the list in each second, and delivers exactly the messages of the tasks it took, in their order.
  pub do_cycle_lem :
      (xs : List Second) (w : World S) (ms : List WorkerMessage)
      → All (λ (x : Second). x.signals ≡ []) xs
      → w.server.signal_gracefully_quit ≡ false
      → w.server.task_key ≡ key
      → IsValid w.registry
      → read_all parse (c_strs (tasks w.store)) ≡ some ms
      → (w' : World S) × (do_cycle redis_command server_list status parse xs w ≡ some (goes w'))
        × (tasks w'.store ≡ drop (length xs * 1001) (tasks w.store))
        × Delivered w.registry w'.registry (take (length xs * 1001) ms)
  unfolding do_cycle
  do_cycle_lem [] w ms quiet running named v readable = (w, refl, refl, none-Delivered w.registry v)
  do_cycle_lem (x ∷ xs) w ms (silent, quiet) running named v readable =
      let (w1, went, server, left, d) = second_lem x w ms named v readable in
      let (same_tasks, same_registry, same_key) = hreat_lem x.now x.after w in
      let (first, rest) = read_all-take parse 1001 (tasks w.store) ms readable in
      let (w2, went', left', d') =
        do_cycle_lem xs w1 (drop 1001 ms) quiet
          (ap (λ (s : Server). s.signal_gracefully_quit) server
            ∙ hreat_quit x.now x.after w
            ∙ running)
          (ap (λ (s : Server). s.task_key) server ∙ same_key ∙ named) d.valid
          (ap (λ ts. read_all parse (c_strs ts)) left ∙ rest) in
      (
        w2,
        one_second x xs w silent running went went',
        left'
            ∙ ap (drop (length xs * 1001)) left
            ∙ drop-drop (length xs * 1001) 1001 (tasks w.store)
            ∙ ap (λ n. drop n (tasks w.store)) (omega arith),
        subst (Delivered w.registry w2.registry)
            (sym (ap (λ n. take n ms) (omega arith) ∙ take-take_add 1001 (length xs * 1001) ms))
            (append-Delivered (take 1001 ms) (take (length xs * 1001) (drop 1001 ms)) d d'),
      )
