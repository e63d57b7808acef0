-- ===== src/Logger/Report.antt =====
-- The error functions of src/kernel/lpushLogger.cpp that do not go through the log. The texts of the C library
-- are arguments; `none` is a write outside the buffer.
use linkedon_push.Common.{
  ℕ, ◌+◌, [], ◌++◌, Option, none, some, if◌then◌else◌, ◌==◌, ltb, Bytes, length, codes, ◌>>=◌,
}

-- `MAXLINE`.
abbrev pub maxline : ℕ
maxline = 4096

-- The static variables of `err_tstamp`.
pub record Stamp : Type 0 where
  pub str : Bytes
  pub lastt : ℕ

abbrev pub make_stamp : Stamp
make_stamp = record { str = []; lastt = 0 }

-- `err_tstamp`, with the text of the time and the second that it is.
unfoldable pub err_tstamp : (ℕ → Bytes) → ℕ → Stamp → Stamp
err_tstamp format currt s =
    if currt == s.lastt then s else record { str = format currt; lastt = currt }

-- `buf` behind another text, if that fits with its NUL.
unfoldable pub print_behind : Bytes → Bytes → Option Bytes
print_behind text buf = if ltb (length buf + length text) maxline then some (buf ++ text) else none

-- `err_doit`: what it writes; `strerror` is the text of `errno`, where it is wanted.
unfoldable pub err_doit : Bytes → Option Bytes → Bytes → Option Bytes
unfolding print_behind
err_doit tstamp none text = print_behind text tstamp >>= λ buf. print_behind (codes "\n") buf
err_doit tstamp (some strerror) text =
    print_behind text tstamp >>= λ buf. print_behind (codes ": " ++ (strerror ++ codes "\n")) buf

-- How a call goes on: it returns, or it ends the process by exit(3) or abort(3).
pub data Fate : Type 0 where
  returns : Bytes → Fate
  exits : Bytes → Fate
  dumps : Bytes → Fate

unfoldable pub err_sys_report : Bytes → Bytes → Bytes → Option Fate
unfolding err_doit
err_sys_report tstamp strerror text =
    err_doit tstamp (some strerror) text >>= λ line. some (returns line)

unfoldable pub err_sys_quit : Bytes → Bytes → Bytes → Option Fate
unfolding err_doit
err_sys_quit tstamp strerror text =
    err_doit tstamp (some strerror) text >>= λ line. some (exits line)

unfoldable pub err_sys_dump : Bytes → Bytes → Bytes → Option Fate
unfolding err_doit
err_sys_dump tstamp strerror text =
    err_doit tstamp (some strerror) text >>= λ line. some (dumps line)

unfoldable pub err_report : Bytes → Bytes → Option Fate
unfolding err_doit
err_report tstamp text = err_doit tstamp none text >>= λ line. some (returns line)

unfoldable pub err_quit : Bytes → Bytes → Option Fate
unfolding err_doit
err_quit tstamp text = err_doit tstamp none text >>= λ line. some (exits line)
