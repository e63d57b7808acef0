-- ===== src/Tests/Logs.antt =====
-- The log at concrete inputs.
use linkedon_push.Common.{
  ◌+◌, ◌<◌, ◌≡◌, ◌↔◌, [], none, some, true, Bytes, codes, length, min, replicate, arith,
}
use linkedon_push.Logger.{FastLog, log_max_size, error}
use linkedon_push.Logger.Line.{error-none_iff}

abbrev log : FastLog
log = record {
  level = 3;
  log_data = replicate 4096 0;
  fd = none;
  log_to_file_tank = true;
  console = [];
  file = [];
}

abbrev long_text : Bytes
long_text = replicate 4093 65

error-none_iff_example :
    (error (some 5) none (codes "[h] ") long_text (some (codes "(e)")) log ≡ none)
    ↔ (log_max_size < min 4095 4 + length long_text)
error-none_iff_example =
    error-none_iff (some 5) none (codes "[h] ") long_text (codes "(e)") log (omega arith)
