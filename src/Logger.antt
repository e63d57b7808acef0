-- ===== src/Logger.antt =====
-- src/kernel/lpushLogger.cpp: how a line of the log is put together in one block. The texts that the formats of the C
-- library give are arguments; `none` is a write outside the block.
pub mod Block
pub mod Line
pub mod Setup
pub mod Context
pub mod Report
use linkedon_push.Common.{
  ℕ, suc, ◌+◌, ◌-◌, Bool, true, false, not, List, [], ◌∷◌, ◌++◌, Option, none, some, if◌then◌else◌,
  ◌==◌, ltb, leb, Bytes, length, take, splice, min, ◌>>=◌,
}

abbrev pub log_max_size : ℕ
log_max_size = 4096

-- The levels.
abbrev pub level_verbose : ℕ
level_verbose = 1

abbrev pub level_info : ℕ
level_info = 2

abbrev pub level_trace : ℕ
level_trace = 3

abbrev pub level_warn : ℕ
level_warn = 4

abbrev pub level_error : ℕ
level_error = 5

-- The fields of `LPushFastLog`, and the lines that were written: to the console with their level, and to the file.
pub record FastLog : Type 0 where
  pub level : ℕ
  pub log_data : Bytes
  pub fd : Option ℕ
  pub log_to_file_tank : Bool
  pub console : List (ℕ × Bytes)
  pub file : List Bytes

-- `vsnprintf(log_data + size, LOG_MAX_SIZE - size, ...)`: the length that the text has, of which the block takes what
-- fits with a NUL. Behind the end the difference is negative and becomes a huge `size_t`: the text goes out of the block.
unfoldable pub print_at : ℕ → Bytes → Bytes → Option (ℕ × Bytes)
print_at size text log_data =
    if ltb size log_max_size
    then some (length text, splice log_data size (take (log_max_size - 1 - size) text ++ (0 ∷ [])))
    else if size == log_max_size
    then some (length text, log_data)
    else none

-- `generate_header`, where the clock answers: the header and `*header_size`.
unfoldable pub generate_header : Bytes → Bytes → Option (ℕ × Bytes)
unfolding print_at
generate_header header log_data =
    print_at 0 header log_data >>= λ printed. some (min (log_max_size - 1) printed.0, printed.1)

-- `open_log_file`: a file that is there is opened, and one that is missing is made.
unfoldable pub open_log_file : Option ℕ → Option ℕ → Option ℕ
open_log_file (some fd) created = some fd
open_log_file none created = created

-- The descriptor behind `if (fd < 0) open_log_file()`.
unfoldable pub log_fd : Option ℕ → Option ℕ → Option ℕ → Option ℕ
unfolding open_log_file
log_fd (some fd) opened created = some fd
log_fd none opened created = open_log_file opened created

-- `if (fd > 0) write(fd, str_log, size)`.
unfoldable pub to_file : Option ℕ → Bytes → List Bytes → List Bytes
to_file none line lines = lines
to_file (some fd) line lines = if ltb 0 fd then lines ++ (line ∷ []) else lines

-- What `error` adds: the text of `errno`, if it is set.
unfoldable pub add_errno : Option Bytes → ℕ → Bytes → Option (ℕ × Bytes)
unfolding print_at
add_errno none size log_data = some (size, log_data)
add_errno (some strerror) size log_data =
    print_at size strerror log_data >>= λ printed. some (size + printed.0, printed.1)

module _ (opened created : Option ℕ) where
  -- `write_log` behind the tail; the two descriptors are the answers of open(2).
  unfoldable pub emit : ℕ → Bytes → FastLog → FastLog
  unfolding log_fd to_file
  emit level line l =
      if not l.log_to_file_tank
      then record l { console = l.console ++ ((level, line) ∷ []) }
      else let fd = log_fd l.fd opened created in
        record l { fd = fd; file = to_file fd line l.file }

  unfoldable pub write_log : ℕ → ℕ → FastLog → FastLog
  unfolding emit
  write_log size level l =
      let n = min (log_max_size - 2) size in
      let str_log = splice l.log_data n (10 ∷ []) in
      emit level (take (suc n) str_log) (record l { log_data = str_log })

  -- `verbose`, `info`, `trace` and `warn`, which differ in their level and in their header.
  unfoldable pub log_line : ℕ → Bytes → Bytes → FastLog → Option FastLog
  unfolding generate_header print_at write_log
  log_line own header text l =
      if ltb own l.level
      then some l
      else generate_header header l.log_data >>= λ headed.
          print_at headed.0 text headed.1 >>= λ printed.
          some (write_log (headed.0 + printed.0) own (record l { log_data = printed.1 }))

  unfoldable pub error : Bytes → Bytes → Option Bytes → FastLog → Option FastLog
  unfolding generate_header print_at add_errno write_log
  error header text errno l =
      if ltb level_error l.level
      then some l
      else generate_header header l.log_data >>= λ headed.
          print_at headed.0 text headed.1 >>= λ printed.
          add_errno errno (headed.0 + printed.0) printed.1 >>= λ added.
          some (write_log added.0 level_error (record l { log_data = added.1 }))
