-- ===== src/Logger/Setup.antt =====
-- How the log of src/kernel/lpushLogger.cpp comes up and goes, where its file lies, and the time of a `LogContext`.
use linkedon_push.Common.{
  ℕ, Bool, true, false, [], ◌++◌, Option, none, some, if◌then◌else◌, ltb, Bytes, codes, take,
}
use linkedon_push.Config.{Config}
use linkedon_push.Errors.{error_success}
use linkedon_push.Logger.{FastLog}

-- The log with the directory and the name of its file.
pub record LogFile : Type 0 where
  pub log : FastLog
  pub logdir : Bytes
  pub logfilename : Bytes

-- The constructor; `memory` is what the block held.
unfoldable pub make_fast_log : Bytes → Config → LogFile
make_fast_log memory conf = record {
  log = record {
    level = conf.loglevel;
    log_data = memory;
    fd = none;
    log_to_file_tank = false;
    console = [];
    file = [];
  };
  logdir = [];
  logfilename = [];
}

unfoldable pub initialize : Config → LogFile → ℕ × LogFile
initialize conf l = (
  error_success,
  record l {
    log = record (l.log) { log_to_file_tank = true };
    logdir = conf.logdir;
    logfilename = conf.logfilename;
  },
)

-- The name that `open_log_file` opens, and whether it makes the directory: access(2) found none.
unfoldable pub log_file_name : LogFile → Bytes
log_file_name l = l.logdir ++ (codes "/" ++ l.logfilename)

unfoldable pub makes_directory : Bool → Bool
makes_directory accessible = if accessible then false else true

-- The destructor: the descriptor that it closes.
unfoldable pub destroy_log : LogFile → Option ℕ × LogFile
destroy_log l = elim l.log.fd [
  | none ↦ (none, l)
  | some fd ↦
      if ltb 0 fd then (some fd, record l { log = record (l.log) { fd = none } }) else (none, l)
]

-- `format_time`: `none` where gettimeofday(2) or localtime(3) fails; the buffer takes 23 characters.
unfoldable pub format_time : Option Bytes → Bytes
format_time none = []
format_time (some text) = take 23 text
