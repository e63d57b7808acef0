-- ===== src/Main.antt =====
-- src/main/main.cpp: the main program up to the server's cycle. What the operating system, the JSON library
-- and Redis answer is the argument `Machine`.
pub mod Serves
use linkedon_push.Common.{
  ℕ, Bool, true, false, not, ◌&&◌, List, [], ◌∷◌, Option, none, some, if◌then◌else◌, ◌==◌, Bytes,
  codes, c_str, is_nil, ◌>>=◌,
}
use linkedon_push.Config.{
  Config, RedisConfig, Garbage, Parsed, Loading, unopened, threw, null, loaded, init_config,
}
use linkedon_push.Redis.{Arg, Reply, auth, select_db}
use linkedon_push.Server.{Server, make_server}
use linkedon_push.Server.Start.{Boot, Run, returned, cycles, initializer, run}
use linkedon_push.Utils.{check_pro_dir}

-- What getopt(3) gives one after the other: an option and its argument.
unfoldable pub parse_arguments : List (ℕ × Bytes) → Bytes → Bytes
parse_arguments [] conf_file = conf_file
parse_arguments ((opt, optarg) ∷ options) conf_file =
    parse_arguments options (if opt == b'c' then c_str optarg else conf_file)

-- What fork(2) returns: an error, or where the process finds itself.
pub data Fork : Type 0 where
  failed parent child : Fork

-- `start_daemon`: it ends the process, or comes back in the grandchild.
pub data Daemon : Type 0 where
  quits : ℕ → Daemon
  daemon : Daemon

unfoldable pub second_child : Fork → Bool → Daemon
second_child failed chdir = quits 1
second_child parent chdir = quits 0
second_child child chdir = if chdir then daemon else quits 1

unfoldable pub start_daemon : Fork → Fork → Bool → Daemon
unfolding second_child
start_daemon failed second chdir = quits 1
start_daemon parent second chdir = quits 0
start_daemon child second chdir = second_child second chdir

-- The files that can be read and the JSON library, the memory that the configuration lies in, what
-- getcwd(2) gives and its buffer holds without, the texts of numbers, Redis with the connection to it (`none` where there is none),
-- the forks and chdir(2), what `run` is answered, and the memory of the server's `pid_fd`.
pub record Machine (S : Type 0) : Type 0 where
  pub files : Bytes → Option Bytes
  pub reader : Bytes → Parsed
  pub garbage : Garbage
  pub cwd : Option Bytes
  pub buffer : Bytes
  pub decimal : ℕ → Bytes
  pub connect : Bytes → ℕ → Option S
  pub redis_command : List Arg → S → Option Reply × S
  pub first_fork : Fork
  pub second_fork : Fork
  pub chdir : Bool
  pub boot : Boot
  pub pid_fd : Option ℕ

-- How the process ends, or where it stays: an assertion, an exception and a read through a bad pointer
-- are `aborted`.
pub data Ended (S : Type 0) : Type 0 where
  aborted : Ended S
  exited : ℕ → Ended S
  serving : Config → Server → S → Ended S

module _ {S : Type 0} (m : Machine S) where
  -- `RedisInitializer`. Without a connection it goes on with a context that is freed, or is NULL: `none`.
  unfoldable pub redis_initializer : RedisConfig → Option S
  redis_initializer conf = do
    s ← m.connect (c_str conf.host) conf.port
    s' ← auth m.redis_command conf.pass s
    some (select_db m.redis_command conf.db s')

  -- What `run` returns is not looked at.
  unfoldable pub after_run : Config → S → Run → Ended S
  after_run conf s (returned ret server) = exited 0
  after_run conf s (cycles server) = serving conf server s

  unfoldable pub after_daemon : Config → S → Server → Daemon → Ended S
  unfolding after_run
  after_daemon conf s server (quits ret) = exited ret
  after_daemon conf s server daemon = after_run conf s (run m.boot conf server)

  unfoldable pub start_server : Config → S → Option Server → Ended S
  unfolding after_daemon start_daemon
  start_server conf s none = aborted
  start_server conf s (some server) =
      after_daemon conf s server
        (if conf.isdaemon == 1 then start_daemon m.first_fork m.second_fork m.chdir else daemon)

  unfoldable pub with_redis : Config → Option S → Ended S
  unfolding start_server
  with_redis conf none = aborted
  with_redis conf (some s) = start_server conf s (initializer m.decimal conf (make_server m.pid_fd))

  -- Behind `initConfig`: `checkProDir` reads through `conf`.
  unfoldable pub with_config : Bytes → Loading → Ended S
  unfolding with_redis redis_initializer
  with_config conf_file unopened = aborted
  with_config conf_file threw = aborted
  with_config conf_file null = aborted
  with_config conf_file (loaded conf) =
      if not (check_pro_dir (codes "linkedon-push") conf.project_dir m.buffer m.cwd)
        && is_nil conf_file
      then exited 0
      else with_redis conf (redis_initializer conf.redis_config)

  unfoldable pub main_program : List (ℕ × Bytes) → Ended S
  unfolding with_config
  main_program options =
      let conf_file = parse_arguments options [] in
      with_config conf_file (init_config m.files m.reader m.garbage conf_file)
