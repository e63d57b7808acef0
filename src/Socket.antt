-- ===== src/Socket.antt =====
-- src/app/lpushAppSt.cpp: the socket of the state-threads runtime. The runtime itself (`st_read`,
-- `st_writev` and their relatives) is not part of the repository: it is the record `StIo`.
pub mod Stream
pub mod Pipe
pub mod Core
use linkedon_push.Common.{
  ℕ, ◌+◌, ◌%◌, ◌^◌, Bool, true, false, List, [], ◌∷◌, Option, none, some, if◌then◌else◌, Bytes,
  length, ◌==◌,
}
use linkedon_push.Errors.{
  error_success, error_socket_timeout, error_socket_read, error_socket_read_fully,
  error_socket_write,
}

-- What a call of the runtime reports: a byte count that is not negative, or -1 with `errno`,
-- of which the code asks only whether it is `ETIME`.
pub data StRead : Type 0 where
  got : Bytes → StRead
  read_failed : Bool → StRead

pub data StWrite : Type 0 where
  put : ℕ → StWrite
  write_failed : Bool → StWrite

-- The runtime: its state, and its calls on one descriptor, with the timeout as their last argument but the state.
pub record StIo : Type 1 where
  pub State : Type 0
  pub st_read : ℕ → ℕ → State → StRead × State
  pub st_read_fully : ℕ → ℕ → State → StRead × State
  pub st_write : Bytes → ℕ → State → StWrite × State
  pub st_writev : List Bytes → ℕ → State → StWrite × State

-- The fields of `LPushStSocket`.
pub record StSocket (S : Type 0) : Type 0 where
  pub io : S
  pub send_timeout : ℕ
  pub recv_timeout : ℕ
  pub recv_bytes : ℕ
  pub send_bytes : ℕ

-- `int64_t` addition.
abbrev pub add_int64 : ℕ → ℕ → ℕ
add_int64 a b = (a + b) % 2 ^ 64

-- `ST_UTIME_NO_TIMEOUT` is `(st_utime_t) -1LL`.
abbrev pub st_utime_no_timeout : ℕ
st_utime_no_timeout = 18446744073709551615

unfoldable pub create : {S : Type 0} → S → StSocket S
create s = record {
  io = s;
  send_timeout = st_utime_no_timeout;
  recv_timeout = st_utime_no_timeout;
  recv_bytes = 0;
  send_bytes = 0;
}

module _ {S : Type 0} where
  unfoldable pub set_recv_timeout : ℕ → StSocket S → StSocket S
  set_recv_timeout timeout_us skt = record skt { recv_timeout = timeout_us }

  unfoldable pub set_send_timeout : ℕ → StSocket S → StSocket S
  set_send_timeout timeout_us skt = record skt { send_timeout = timeout_us }

  unfoldable pub is_never_timeout : StSocket S → ℕ → Bool
  is_never_timeout skt timeout_us = timeout_us == st_utime_no_timeout

  -- What `read` does with the answer of `st_read`: a count of 0 is the end of the stream.
  unfoldable pub finish_read : StSocket S → StRead × S → ℕ × Bytes × StSocket S
  finish_read skt (got [], s) = (error_socket_read, [], record skt { io = s })
  finish_read skt (got (b ∷ bs), s) = (
    error_success,
    b ∷ bs,
    record skt { io = s; recv_bytes = add_int64 skt.recv_bytes (length (b ∷ bs)) },
  )
  finish_read skt (read_failed true, s) = (error_socket_timeout, [], record skt { io = s })
  finish_read skt (read_failed false, s) = (error_socket_read, [], record skt { io = s })

  -- The same for `read_fully`: anything but `size` bytes is an error.
  unfoldable pub finish_read_fully : ℕ → StSocket S → StRead × S → ℕ × Bytes × StSocket S
  finish_read_fully size skt (got bs, s) =
      if length bs == size
      then (error_success, bs, record skt { io = s; recv_bytes = add_int64 skt.recv_bytes size })
      else (error_socket_read_fully, bs, record skt { io = s })
  finish_read_fully size skt (read_failed true, s) =
      (error_socket_timeout, [], record skt { io = s })
  finish_read_fully size skt (read_failed false, s) =
      (error_socket_read_fully, [], record skt { io = s })

  -- The same for `write` and `writev`.
  unfoldable pub finish_write : StSocket S → StWrite × S → ℕ × StSocket S
  finish_write skt (put n, s) =
      if n == 0
      then (error_socket_write, record skt { io = s })
      else (error_success, record skt { io = s; send_bytes = add_int64 skt.send_bytes n })
  finish_write skt (write_failed true, s) = (error_socket_timeout, record skt { io = s })
  finish_write skt (write_failed false, s) = (error_socket_write, record skt { io = s })

module _ (rt : StIo) where
  open rt use {State, st_read, st_read_fully, st_write, st_writev}

  -- The bytes that reached the caller's buffer go back beside the return code; `*nread` is
  -- their number.
  unfoldable pub read : ℕ → StSocket State → ℕ × Bytes × StSocket State
  unfolding finish_read
  read size skt = finish_read skt (st_read size skt.recv_timeout skt.io)

  unfoldable pub read_fully : ℕ → StSocket State → ℕ × Bytes × StSocket State
  unfolding finish_read_fully
  read_fully size skt = finish_read_fully size skt (st_read_fully size skt.recv_timeout skt.io)

  unfoldable pub write : Bytes → StSocket State → ℕ × StSocket State
  unfolding finish_write
  write buf skt = finish_write skt (st_write buf skt.send_timeout skt.io)

  unfoldable pub writev : List Bytes → StSocket State → ℕ × StSocket State
  unfolding finish_write
  writev iov skt = finish_write skt (st_writev iov skt.send_timeout skt.io)
