-- ===== src/Server/Start.antt =====
-- How the server comes up: its keys, the limit of threads, the signal pipe, the listeners, the pid file, and the
-- order of these in `run` of src/main/main.cpp.
use linkedon_push.Common.{
  ℕ, Bool, true, not, ◌&&◌, [], ◌∷◌, ◌++◌, Option, none, some, if◌then◌else◌, ◌==◌, ltb, Bytes,
  length, codes, is_nil,
}
use linkedon_push.Errors.{
  error_success, error_st_exceed_threads, error_st_set_epoll, error_st_initialize,
  error_system_pid_acquire, error_system_pid_already_running, error_system_pid_lock,
  error_system_pid_truncate_file, error_system_pid_write_file, error_system_pid_get_file_info,
  error_system_pid_set_file_info,
}
use linkedon_push.Wire.{is_negative}
use linkedon_push.Config.{Config}
use linkedon_push.Listener.{Calls, make_listener, tcp_listen}
use linkedon_push.Server.Signals
use linkedon_push.Server.Signals.{start_ret, start_signals, make_signal_manager}
use linkedon_push.Thread.{make_thread, start}
use linkedon_push.Server.{Server, close_listeners}

-- `char buf[5]; sprintf(buf,"%d",port)`: `none` where the digits and their NUL do not fit.
unfoldable pub print_port : (ℕ → Bytes) → ℕ → Option Bytes
print_port decimal port = let text = decimal port in if ltb (length text) 5 then some text else none

unfoldable pub initializer : (ℕ → Bytes) → Config → Server → Option Server
unfolding print_port
initializer decimal conf s = elim (print_port decimal conf.port) [
  | none ↦ none
  | some buf ↦
      let key = conf.localhost ++ (codes ":" ++ buf) in
      some (record s { server_key = key; task_key = conf.task_prefix ++ key })
]

-- src/app/lpushAppSt.cpp: whether the kernel has epoll, the library takes it, and starts.
pub record StCalls : Type 0 where
  pub epoll : Bool
  pub eventsys : Bool
  pub init : Bool

unfoldable pub lp_st_init : StCalls → ℕ
lp_st_init c =
    if not c.epoll
    then error_st_set_epoll
    else if not c.eventsys
    then error_st_set_epoll
    else if not c.init
    then error_st_initialize
    else error_success

-- `initializer_st`; the number is what `lp_st_init` returns.
unfoldable pub initializer_st : ℕ → Config → ℕ
initializer_st st_init conf =
    if not (st_init == error_success)
    then st_init
    else if ltb 32756 conf.maxconnect && not (is_negative conf.maxconnect)
    then error_st_exceed_threads
    else error_success

-- What fcntl(2) with F_SETLK answers; `busy` is EACCES or EAGAIN.
pub data Lock : Type 0 where
  locked busy failed : Lock

-- The answers of open(2), fcntl(2), ftruncate(2) and write(2), which is whether the whole text was written.
pub record PidCalls : Type 0 where
  pub opened : Option ℕ
  pub lock : Lock
  pub truncated : Bool
  pub written : Bool
  pub getfd : Bool
  pub setfd : Bool

-- Behind the lock.
unfoldable pub write_pid : PidCalls → ℕ → Server → ℕ × Server
write_pid c fd s =
    if not c.truncated
    then (error_system_pid_truncate_file, s)
    else if not c.written
    then (error_system_pid_write_file, s)
    else if not c.getfd
    then (error_system_pid_get_file_info, s)
    else if not c.setfd
    then (error_system_pid_set_file_info, s)
    else (error_success, record s { pid_fd = some fd })

unfoldable pub lock_pid : PidCalls → Lock → ℕ → Server → ℕ × Server
unfolding write_pid
lock_pid c busy fd s = (error_system_pid_already_running, s)
lock_pid c failed fd s = (error_system_pid_lock, s)
lock_pid c locked fd s = write_pid c fd s

-- The name of the file, and `acquire_pid_file`.
unfoldable pub pid_file_name : Bytes → Bytes → Bytes
pid_file_name default pid_file = if is_nil pid_file then default else pid_file

unfoldable pub acquire_pid_file : PidCalls → Server → ℕ × Server
unfolding lock_pid
acquire_pid_file c s = elim c.opened [
  | none ↦ (error_system_pid_acquire, s)
  | some fd ↦ lock_pid c c.lock fd s
]

-- `LPushStreamListener::listen` with a new listener, and `listen_lpush`: the listener is in the list even if it
-- could not listen.
unfoldable pub listen_lpush : Calls → Server → ℕ × Server
unfolding tcp_listen close_listeners
listen_lpush c s =
    let (ret, l) = tcp_listen c make_listener in
    (ret, record (close_listeners s) { listeners = l ∷ [] })

-- What `run` of the main program is answered: by the library of state threads, for the pid file, for the pipe, for the
-- threads of the signals and of the history, for the listener.
pub record Boot : Type 0 where
  pub st : StCalls
  pub pid : PidCalls
  pub pipe : Option (ℕ × ℕ)
  pub pipe_opened : Option ℕ
  pub signal_thread : Bool
  pub history_thread : Bool
  pub calls : Calls

-- `run` returns an error, or it comes to `cycle`.
pub data Run : Type 0 where
  returned : ℕ → Server → Run
  cycles : Server → Run

-- The next step of `run`, behind one that returned `ret`.
unfoldable pub and_then : ℕ → Server → Run → Run
and_then ret s rest = if not (ret == error_success) then returned ret s else rest

unfoldable pub run : Boot → Config → Server → Run
unfolding and_then initializer_st lp_st_init acquire_pid_file Signals.initializer start_signals
    start_ret start listen_lpush
run b conf s =
    let (pid_ret, s1) = acquire_pid_file b.pid s in
    let (pipe_ret, m) = Signals.initializer b.pipe b.pipe_opened make_signal_manager in
    let (signal_ret, m') = start_signals b.signal_thread m in
    let (listen_ret, s2) = listen_lpush b.calls s1 in
    and_then (initializer_st (lp_st_init b.st) conf) s (
      and_then pid_ret s1 (
        and_then pipe_ret s1 (
          and_then signal_ret s1 (
            and_then (start_ret (start b.history_thread (make_thread true))) s1
              (and_then listen_ret s2 (cycles s2))))))
