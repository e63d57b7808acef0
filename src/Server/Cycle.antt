-- ===== src/Server/Cycle.antt =====
-- `LPushServer::cycle`: what the server's main thread does every second, with the store and with the
-- registry of clients.
use linkedon_push.Common.{
  ℕ, ◌-◌, true, false, List, [], ◌∷◌, Option, none, some, if◌then◌else◌, ltb, Bytes, length, ◌>>=◌,
}
use linkedon_push.Redis.{Arg, Reply, minus_one, list, ltrim, hset, hdel}
use linkedon_push.Source.Message.{Document}
use linkedon_push.Source.Registry
use linkedon_push.Source.Registry.{Registry}
use linkedon_push.Server.{Server, Reaction, goes_on, exits, on_signal, close_listeners, close_conns}

-- The server, the store and the static maps.
pub record World (S : Type 0) : Type 0 where
  pub server : Server
  pub store : S
  pub registry : Registry

-- A pass of the inner loop: the signals that the sleep brought, and the two answers of `getCurrentTime`.
pub record Second : Type 0 where
  pub signals : List ℕ
  pub now : ℕ
  pub after : ℕ

pub data Outcome (S : Type 0) : Type 0 where
  exited : Outcome S
  quits : World S → Outcome S
  goes : World S → Outcome S

-- The signals that wait in the pipe, in the order of the pipe.
unfoldable pub signals_cycle : List ℕ → Server → Reaction
unfolding on_signal
signals_cycle [] s = goes_on s
signals_cycle (signo ∷ signos) s = elim (on_signal signo s) [
  | goes_on s' ↦ signals_cycle signos s'
  | exits ↦ exits
]

-- The first statement of `do_cycle`.
unfoldable pub begin_cycle : ℕ → Server → Server
begin_cycle now s = record s { start_time = now; before_time = now }

-- `if (pid_fd > 0)`, close it and set it to -1, which is `none`.
unfoldable pub close_pid : Option ℕ → Option ℕ
close_pid none = none
close_pid (some fd) = if ltb 0 fd then none else some fd

module _ {S : Type 0} (redis_command : List Arg → S → Option Reply × S) where
  -- `LPushSource::cycle_all`, with its calls of the store.
  unfoldable pub store_cycle_all : (Bytes → Document) → Bytes → World S → Option (World S)
  unfolding list ltrim Registry.cycle_all
  store_cycle_all parse queue_name w = do
    (works, st) ← list redis_command queue_name 0 1000 w.store
    (index, reg) ← Registry.cycle_all parse works w.registry
    some (record w { store = ltrim redis_command queue_name index minus_one st; registry = reg })

module _ {S : Type 0} (redis_command : List Arg → S → Option Reply × S) (server_list : Bytes) where
  -- `hreatRedis`; `status` is `LPushSystemStatus::statusToJson`.
  unfoldable pub hreat_redis : (ℕ → Bytes) → ℕ → ℕ → World S → World S
  unfolding hset
  hreat_redis status now after w =
      let s = w.server in
      if ltb 2 (now - s.before_time)
      then record w {
        server = record s { before_time = after };
        store = hset redis_command server_list s.server_key (status (length s.conns)) w.store;
      }
      else w

  -- What a second brings if the server does not quit.
  unfoldable pub second : (ℕ → Bytes) → (Bytes → Document) → Second → World S → Option (World S)
  unfolding hreat_redis store_cycle_all
  second status parse x w =
      let w' = hreat_redis status x.now x.after w in
      store_cycle_all redis_command parse w'.server.task_key w'

  -- `do_cycle`, as long as there are seconds.
  unfoldable pub do_cycle :
      (ℕ → Bytes) → (Bytes → Document) → List Second → World S → Option (Outcome S)
  unfolding signals_cycle second
  do_cycle status parse [] w = some (goes w)
  do_cycle status parse (x ∷ xs) w = elim (signals_cycle x.signals w.server) [
    | exits ↦ some exited
    | goes_on s ↦ elim s.signal_gracefully_quit [
      | true ↦ some (quits (record w { server = s }))
      | false ↦
          second status parse x (record w { server = s }) >>= λ w'. do_cycle status parse xs w'
    ]
  ]

  -- `dispose`.
  unfoldable pub dispose : World S → World S
  unfolding close_listeners close_conns hdel
  dispose w = record w {
    server = close_conns (close_listeners w.server);
    store = hdel redis_command server_list w.server.server_key w.store;
  }

  -- `destroy`, which is the destructor, too.
  unfoldable pub destroy : World S → World S
  unfolding dispose close_pid
  destroy w =
      let w' = dispose w in
      record w' { server = record (w'.server) { pid_fd = close_pid w'.server.pid_fd } }

  -- `cycle`: behind `dispose` the process exits.
  unfoldable pub cycle :
      (ℕ → Bytes) → (Bytes → Document) → ℕ → List Second → World S → Option (Outcome S)
  unfolding do_cycle dispose begin_cycle
  cycle status parse now xs w = do
    o ← do_cycle status parse xs (record w { server = begin_cycle now w.server })
    some (elim o [ exited ↦ exited | quits w' ↦ quits (dispose w') | goes w' ↦ goes w' ])
