-- ===== src/Tests/Servers.antt =====
-- The server at concrete inputs: its connections, its start, and its main thread against a store.
use linkedon_push.Common.{
  ℕ, suc, ◌+◌, ◌-◌, ◌≤◌, ◌≡◌, refl, true, false, List, [], ◌∷◌, Option, none, some, if◌then◌else◌,
  Bytes, codes, bytes_eq, take, drop, length, arith, bytes_key,
}
use linkedon_push.Redis.{Arg, word, int, Reply}
use linkedon_push.Redis.Laws.{array_of, scored}
use linkedon_push.Config.{Config, make_config}
use linkedon_push.Source.Deliver.{Delivered}
use linkedon_push.Server.{Server, Accepting, make_server}
use linkedon_push.Server.Conns.{
  Event, comes, ends, run_events, balance, arrivals, run_events-balance, run_events_bound,
}
use linkedon_push.Server.Start.{Boot, locked, cycles, run}
use linkedon_push.Server.Cycle.{World, Second, goes, do_cycle}
use linkedon_push.Server.Tasks.{bulks, IsTaskStore}
use linkedon_push.Server.Ticks.{do_cycle_lem}
use linkedon_push.Tests.Sources.{with_alice, with_alice-IsValid, news, reader, texts_read}

-- Two clients come, the second gets no thread, and the first ends.
abbrev fine : Accepting
fine = record { getfd = true; setfd = true; created = true }

abbrev no_thread : Accepting
no_thread = record { getfd = true; setfd = true; created = false }

abbrev some_events : List Event
some_events = comes fine 8 ∷ comes no_thread 9 ∷ ends 0 0 ∷ []

abbrev pub new_server : Server
new_server = make_server none

run_events-balance_example :
    balance 8 (run_events 2 some_events new_server) ≡ arrivals 8 some_events + balance 8 new_server
run_events-balance_example = run_events-balance 2 some_events 8 new_server

run_events_bound_example : length (run_events 2 some_events new_server).conns ≤ 2
run_events_bound_example = run_events_bound 2 some_events new_server (omega arith)

-- A store with one list.
abbrev list_store : List Arg → List Bytes → Option Reply × List Bytes
list_store (word c ∷ word k ∷ int a ∷ int b ∷ []) ts =
    if bytes_eq c (codes "LRANGE")
    then (some (array_of (bulks (take (suc b - a) (drop a ts)))), ts)
    else (some (array_of []), drop a ts)
list_store args ts = (some (array_of []), ts)

list_store-IsTaskStore : IsTaskStore list_store (codes "servers") (codes "tasks") (λ ts. ts)
list_store-IsTaskStore = record {
  range = λ s. (s, refl, refl);
  trim = λ n s. refl;
  hash = λ field value s. refl;
}

abbrev world : World (List Bytes)
world = record {
  server = record new_server { task_key = codes "tasks" };
  store = codes "t" ∷ [];
  registry = with_alice;
}

abbrev seconds : List Second
seconds =
    record { signals = []; now = 5; after = 5 } ∷ record { signals = []; now = 6; after = 6 } ∷ []

do_cycle_lem_example :
    (w : World (List Bytes)) × (do_cycle list_store (codes "servers") (λ n. []) reader seconds world
      ≡ some (goes w))
    × (w.store ≡ [])
    × Delivered with_alice w.registry (news ∷ [])
do_cycle_lem_example =
    do_cycle_lem list_store (codes "servers") (codes "tasks") (λ ts. ts) list_store-IsTaskStore
      (λ n. []) reader seconds world (news ∷ []) (refl, (refl, tt)) refl refl with_alice-IsValid
      texts_read

-- A start in which every call succeeds.
abbrev pub some_config : Config
some_config = record (make_config (record { isdaemon = 1; loglevel = 0 })) {
  localhost = codes "h";
  port = 9000;
  task_prefix = codes "p";
  maxconnect = 100;
}

abbrev pub boot : Boot
boot = record {
  st = record { epoll = true; eventsys = true; init = true };
  pid = record {
    opened = some 3;
    lock = locked;
    truncated = true;
    written = true;
    getfd = true;
    setfd = true;
  };
  pipe = some (4, 5);
  pipe_opened = some 6;
  signal_thread = true;
  history_thread = true;
  calls = record {
    socket = some 7;
    setsockopt = true;
    bind = true;
    listen = true;
    netfd_open = some 8;
    thread_create = some 5;
  };
}

abbrev pub booted : Server
booted = record new_server {
  pid_fd = some 3;
  listeners =
      record {
        fd = some 7;
        stfd = some 8;
        thread = record {
          tid = true;
          cid = some 5;
          loop = true;
          can_run = true;
          really_terminated = false;
          joinable = true;
          disposed = false;
        };
      }
      ∷ [];
}

comes_up : run boot some_config new_server ≡ cycles booted
unfolding run linkedon_push.Thread.make_thread
comes_up = refl

-- A store that answers with two members and their scores.
abbrev scoring : List Arg → ℕ → Option Reply × ℕ
scoring args s =
    (some (array_of (scored ((codes "a", codes "1") ∷ (codes "b", codes "2") ∷ []))), s)
