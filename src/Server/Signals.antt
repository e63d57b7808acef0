-- ===== src/Server/Signals.antt =====
-- `LPushSignalManager` of src/app/lpushServer.cpp: the pipe that the signals go through.
use linkedon_push.Common.{
  ℕ, Bool, false, List, [], ◌∷◌, ◌++◌, Option, none, some, if◌then◌else◌, ltb, erase_key, nat_key,
  ◌>>=◌,
}
use linkedon_push.Errors.{error_success, error_system_create_pipe}
use linkedon_push.Listener.Closing.{Files, lp_close_stfd}
use linkedon_push.Thread.{make_thread, Starting, started, waits_for_cid, start}

-- The return code of `pthread->start()` for a new thread object.
unfoldable pub start_ret : Starting → ℕ
start_ret (started ret) = ret
start_ret (waits_for_cid t) = error_success

-- The fields of `LPushSignalManager`: the ends of the pipe, -1 being `none`; the signals that it has a
-- handler for; and those that wait in the pipe.
pub record SignalManager : Type 0 where
  pub read_end : Option ℕ
  pub write_end : Option ℕ
  pub signal_read_stfd : Option ℕ
  pub installed : List ℕ
  pub pipe : List ℕ

unfoldable pub make_signal_manager : SignalManager
make_signal_manager = record {
  read_end = none;
  write_end = none;
  signal_read_stfd = none;
  installed = [];
  pipe = [];
}

-- `initializer`, with the answers of pipe(2) and of `st_netfd_open`.
unfoldable pub initializer : Option (ℕ × ℕ) → Option ℕ → SignalManager → ℕ × SignalManager
initializer none opened m = (error_system_create_pipe, m)
initializer (some (r, w)) none m =
    (error_system_create_pipe, record m { read_end = some r; write_end = some w })
initializer (some (r, w)) (some stfd) m = (
  error_success,
  record m { read_end = some r; write_end = some w; signal_read_stfd = some stfd },
)

-- `sigaction` for SIGHUP, SIGPIPE, SIGTERM, SIGINT and SIGUSR2.
unfoldable pub install_signals : SignalManager → SignalManager
install_signals m = record m { installed = 1 ∷ 13 ∷ 15 ∷ 2 ∷ 12 ∷ [] }

-- `start`, with the answer of the thread library.
unfoldable pub start_signals : Bool → SignalManager → ℕ × SignalManager
unfolding install_signals start_ret
start_signals created m = (start_ret (start created (make_thread false)), install_signals m)

-- `signal_catcher`, at the other end of the pipe.
unfoldable pub signal_catcher : ℕ → SignalManager → SignalManager
signal_catcher signo m = record m { pipe = m.pipe ++ (signo ∷ []) }

-- `if (sig_pipe[i] > 0) close(sig_pipe[i])`.
unfoldable pub close_end : Option ℕ → Files → Files
close_end none files = files
close_end (some fd) files = if ltb 0 fd then erase_key fd files else files

-- The destructor: the end that `signal_read_stfd` reads is closed twice.
unfoldable pub destroy_signal_manager : SignalManager → Files → Option Files
unfolding lp_close_stfd close_end
destroy_signal_manager m files = do
  closed ← lp_close_stfd m.signal_read_stfd m.read_end files
  some (close_end m.write_end (close_end m.read_end closed))
