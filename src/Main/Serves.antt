-- ===== src/Main/Serves.antt =====
-- What holds when the main program has come to the server's cycle.
use mathlib.Core.Path.{subst}
use linkedon_push.Common.{
  ℕ, ◌≤◌, ◌<◌, ◌^◌, ◌≡◌, ◌≢◌, ◌⊎◌, inl, inr, refl, ap, sym, ◌∙◌, Bool, true, false, not, ◌&&◌, List,
  [], ◌∷◌, ◌++◌, Option, none, some, if◌then◌else◌, ◌==◌, ltb, Bytes, codes, is_nil, length, arith,
  Bool-cases, ==_iff,
}
use linkedon_push.Config.{Config, Loading, unopened, threw, null, loaded, init_config}
use linkedon_push.Listener.{Listener}
use linkedon_push.Server.{Server, make_server}
use linkedon_push.Server.Start.{initializer, print_port, run, Run, cycles, returned}
use linkedon_push.Server.Boot.{run_lem}
use linkedon_push.Utils.{check_pro_dir, pro_suffix}
use linkedon_push.Utils.Place.{IsProDir, check_pro_dir_iff}
use linkedon_push.Main.{
  parse_arguments, Fork, child, parent, failed, Daemon, quits, daemon, start_daemon, Machine, Ended,
  exited, serving, redis_initializer, after_run, after_daemon, start_server, with_redis,
  with_config, main_program,
}

-- The server's keys.
initializer_lem :
    (decimal : ℕ → Bytes) (conf : Config) (s : Server) {s' : Server}
    → initializer decimal conf s ≡ some s'
    → (length (decimal conf.port) < 5)
      × (s' ≡ record s {
        server_key = conf.localhost ++ (codes ":" ++ decimal conf.port);
        task_key = conf.task_prefix ++ (conf.localhost ++ (codes ":" ++ decimal conf.port));
      })
unfolding initializer print_port
initializer_lem decimal conf s {s'} e = elim (Bool-cases (ltb (length (decimal conf.port)) 5)) [
  | inl fits ↦ (ground arith, ground arith)
  | inr no_room ↦ absurd (ground arith)
]

start_daemon_lem :
    (first second : Fork) (chdir : Bool)
    → start_daemon first second chdir ≡ daemon
    → (first ≡ child) × (second ≡ child)
unfolding start_daemon
start_daemon_lem failed second chdir e = cc
start_daemon_lem parent second chdir e = cc
start_daemon_lem child failed chdir e = cc
start_daemon_lem child parent chdir e = cc
start_daemon_lem child child chdir e = (refl, refl)

named_or_here :
    (file : Bytes) (here : Bool) → (not here && is_nil file) ≡ false → (file ≢ []) ⊎ (here ≡ true)
named_or_here file true e = inr refl
named_or_here [] false e = cc
named_or_here (x ∷ xs) false e = inl (λ z. cc)

module _ {S : Type 0} (m : Machine S) where
  after_run_lem :
      (conf : Config) (s : S) (r : Run) {c : Config} {server : Server} {s' : S}
      → after_run m conf s r ≡ serving c server s'
      → (r ≡ cycles server) × (conf ≡ c) × (s ≡ s')
  unfolding after_run
  after_run_lem conf s (returned ret server) e = cc
  after_run_lem conf s (cycles server) e = (cc, cc, cc)

  after_daemon_lem :
      (conf : Config) (s : S) (server : Server) (d : Daemon) {c : Config} {server' : Server}
      {s' : S}
      → after_daemon m conf s server d ≡ serving c server' s'
      → (d ≡ daemon) × (run m.boot conf server ≡ cycles server') × (conf ≡ c) × (s ≡ s')
  unfolding after_daemon
  after_daemon_lem conf s server (quits ret) e = cc
  after_daemon_lem conf s server daemon e =
      let (booted, c, s') = after_run_lem conf s (run m.boot conf server) e in (refl, booted, c, s')

  start_server_lem :
      (conf : Config) (s : S) (o : Option Server) {c : Config} {server' : Server} {s' : S}
      → start_server m conf s o ≡ serving c server' s'
      → (server : Server) × (o ≡ some server)
        × (run m.boot conf server ≡ cycles server')
        × (conf ≡ c)
        × (s ≡ s')
        × (conf.isdaemon ≡ 1 → (m.first_fork ≡ child) × (m.second_fork ≡ child))
  unfolding start_server
  start_server_lem conf s none e = cc
  start_server_lem conf s (some server) e =
      let choice =
        if conf.isdaemon == 1 then start_daemon m.first_fork m.second_fork m.chdir else daemon in
      let (d, booted, c, s') = after_daemon_lem conf s server choice e in
      (
        server,
        refl,
        booted,
        c,
        s',
        λ is.
            start_daemon_lem m.first_fork m.second_fork m.chdir
              (rw ((==_iff conf.isdaemon 1).1 is) at d),
      )

  with_redis_lem :
      (conf : Config) (o : Option S) {c : Config} {server' : Server} {s' : S}
      → with_redis m conf o ≡ serving c server' s'
      → (server : Server) × (o ≡ some s')
        × (initializer m.decimal conf (make_server m.pid_fd) ≡ some server)
        × (run m.boot conf server ≡ cycles server')
        × (conf ≡ c)
        × (conf.isdaemon ≡ 1 → (m.first_fork ≡ child) × (m.second_fork ≡ child))
  unfolding with_redis
  with_redis_lem conf none e = cc
  with_redis_lem conf (some s) e =
      let (server, made, booted, c, s', forked) =
        start_server_lem conf s (initializer m.decimal conf (make_server m.pid_fd)) e in
      (server, ap some s', made, booted, c, forked)

  goes_past :
      (stop : Bool) (rest : Ended S) {c : Config} {server' : Server} {s' : S}
      → (if stop then exited 0 else rest) ≡ serving c server' s'
      → (stop ≡ false) × (rest ≡ serving c server' s')
  goes_past true rest e = cc
  goes_past false rest e = (refl, e)

  with_config_lem :
      (file : Bytes) (l : Loading) {c : Config} {server' : Server} {s' : S}
      → with_config m file l ≡ serving c server' s'
      → (conf : Config) × (l ≡ loaded conf)
        × ((file ≢ [])
            ⊎ (check_pro_dir (codes "linkedon-push") conf.project_dir m.buffer m.cwd ≡ true))
        × (with_redis m conf (redis_initializer m conf.redis_config) ≡ serving c server' s')
  unfolding with_config
  with_config_lem file unopened e = cc
  with_config_lem file threw e = cc
  with_config_lem file null e = cc
  with_config_lem file (loaded conf) e =
      let here = check_pro_dir (codes "linkedon-push") conf.project_dir m.buffer m.cwd in
      let (stop, rest) =
        goes_past (not here && is_nil file)
          (with_redis m conf (redis_initializer m conf.redis_config)) e in
      (conf, refl, named_or_here file here stop, rest)

  pub record IsServing (cwd file : Bytes) (conf : Config) (server : Server) (s : S) : Type 0 where
    pub conf_loaded : init_config m.files m.reader m.garbage file ≡ loaded conf
    pub placed : (file ≢ []) ⊎ IsProDir (pro_suffix (codes "linkedon-push") conf.project_dir) cwd
    pub redis_answered : redis_initializer m conf.redis_config ≡ some s
    pub port_digits : length (m.decimal conf.port) < 5
    pub maxconnect_le : (conf.maxconnect ≤ 32756) ⊎ (2 ^ 31 ≤ conf.maxconnect)
    pub forked : conf.isdaemon ≡ 1 → (m.first_fork ≡ child) × (m.second_fork ≡ child)
    pub pid_file_held : (fd : ℕ) × (m.boot.pid.opened ≡ some fd) × (server.pid_fd ≡ some fd)
    pub no_conns : server.conns ≡ []
    pub server_key_eq : server.server_key ≡ conf.localhost ++ (codes ":" ++ m.decimal conf.port)
    pub task_key_eq : server.task_key ≡ conf.task_prefix ++ server.server_key
    pub listening :
        (l : Listener) × (server.listeners ≡ l ∷ [])
        × (l.thread.tid ≡ true)
        × ((fd : ℕ) × (l.fd ≡ some fd))

  -- If the main program, in a working directory of less than 260 bytes, comes to the server's cycle with a
  -- configuration, that is the one which `parse` loaded from the file that `-c` named, or from
  -- conf/lpush.conf; a file was named, or the working directory is the project's; Redis answered,
  -- and its store is kept; the port has four digits at most, and `maxconnect` is at most 32756, or
  -- it is a negative number, of which the pattern is 2^31 at least; a daemon is the
  -- child of a child; the server holds the pid file and has no connection yet; its keys are
  -- `localhost:port` and that behind the prefix; and it has one listener, with a descriptor and a thread.
  pub main_program_serves :
      (options : List (ℕ × Bytes)) (conf : Config) (server : Server) (s : S) (cwd : Bytes)
      → m.cwd ≡ some cwd
      → length cwd < 260
      → main_program m options ≡ serving conf server s
      → IsServing cwd (parse_arguments options []) conf server s
  unfolding main_program
  main_program_serves options conf server s cwd told small e =
      let file = parse_arguments options [] in
      let (conf', read, place, rest) =
        with_config_lem file (init_config m.files m.reader m.garbage file) e in
      let (made, redis, keys, booted, same, forked) =
        with_redis_lem conf' (redis_initializer m conf'.redis_config) rest in
      let (digits, as_made) = initializer_lem m.decimal conf' (make_server m.pid_fd) keys in
      let (limit, pid, listener, conns, key, task) = run_lem m.boot conf' made booted in
      subst (λ c. IsServing cwd file c server s) same
        (record {
          conf_loaded = read;
          placed = elim place [
            | inl named ↦ inl named
            | inr here ↦ inr (
                (check_pro_dir_iff (codes "linkedon-push") conf'.project_dir m.buffer cwd small).0
                  (rw told at here))
          ];
          redis_answered = redis;
          port_digits = digits;
          maxconnect_le = limit;
          forked = forked;
          pid_file_held = pid;
          no_conns = conns ∙ ap (λ (x : Server). x.conns) as_made;
          server_key_eq = key ∙ ap (λ (x : Server). x.server_key) as_made;
          task_key_eq =
              task
              ∙ ap (λ (x : Server). x.task_key) as_made
              ∙ ap (λ t. conf'.task_prefix ++ t)
                  (sym (key ∙ ap (λ (x : Server). x.server_key) as_made));
          listening = listener;
        })
