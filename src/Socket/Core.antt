-- ===== src/Socket/Core.antt =====
-- src/core/lpushSocket.cpp: `LPushSocket`, which differs from `LPushStSocket` in that it asks `errno` also where
-- the call did not fail, and in that it gives rates. `etime` is whether `errno` is `ETIME` in a state
-- of the runtime; times are in seconds, as `getCurrentTime` gives them.
pub mod Agrees
use linkedon_push.Common.{
  ℕ, ◌+◌, ◌-◌, ◌*◌, ◌/◌, ◌%◌, ◌^◌, Bool, true, false, List, [], ◌∷◌, if◌then◌else◌, Bytes, length,
  ◌==◌, leb,
}
use linkedon_push.Errors.{
  error_success, error_socket_timeout, error_socket_read, error_socket_read_fully,
  error_socket_write,
}
use linkedon_push.Socket.{StRead, got, read_failed, StWrite, put, write_failed, StIo, add_int64}

-- The fields of `LPushSocket`.
pub record TcpSocket (S : Type 0) : Type 0 where
  pub io : S
  pub send_timeout : ℕ
  pub recv_timeout : ℕ
  pub recv_bytes : ℕ
  pub send_bytes : ℕ
  pub start_time_ms : ℕ

-- `bytes * 8 / diff_ms`, as an `int`.
unfoldable pub rate : ℕ → ℕ → ℕ → ℕ
rate bytes start now = if leb now start then 0 else bytes * 8 / (now - start) % 2 ^ 32

-- The return code of a call that gave less than it should.
unfoldable pub socket_error : Bool → ℕ → ℕ
socket_error timed_out otherwise = if timed_out then error_socket_timeout else otherwise

abbrev pub socket_timeout : ℕ
socket_timeout = 30

unfoldable pub make_socket : {S : Type 0} → ℕ → S → TcpSocket S
make_socket time s = record {
  io = s;
  send_timeout = socket_timeout;
  recv_timeout = socket_timeout;
  recv_bytes = 0;
  send_bytes = 0;
  start_time_ms = time;
}

module _ {S : Type 0} where
  unfoldable pub set_recv_timeout : ℕ → TcpSocket S → TcpSocket S
  set_recv_timeout timeout_us skt = record skt { recv_timeout = timeout_us }

  unfoldable pub set_send_timeout : ℕ → TcpSocket S → TcpSocket S
  set_send_timeout timeout_us skt = record skt { send_timeout = timeout_us }

  unfoldable pub get_recv_kbps : ℕ → TcpSocket S → ℕ
  unfolding rate
  get_recv_kbps now skt = rate skt.recv_bytes skt.start_time_ms now

  unfoldable pub get_send_kbps : ℕ → TcpSocket S → ℕ
  unfolding rate
  get_send_kbps now skt = rate skt.send_bytes skt.start_time_ms now

  module _ (etime : S → Bool) where
    unfoldable pub finish_read : TcpSocket S → StRead × S → ℕ × Bytes × TcpSocket S
    unfolding socket_error
    finish_read skt (got [], s) =
        (socket_error (etime s) error_socket_read, [], record skt { io = s })
    finish_read skt (got (b ∷ bs), s) = (
      error_success,
      b ∷ bs,
      record skt { io = s; recv_bytes = add_int64 skt.recv_bytes (length (b ∷ bs)) },
    )
    finish_read skt (read_failed timed_out, s) =
        (socket_error timed_out error_socket_read, [], record skt { io = s })

    unfoldable pub finish_read_fully : ℕ → TcpSocket S → StRead × S → ℕ × Bytes × TcpSocket S
    unfolding socket_error
    finish_read_fully size skt (got bs, s) =
        if length bs == size
        then (error_success, bs, record skt { io = s; recv_bytes = add_int64 skt.recv_bytes size })
        else (socket_error (etime s) error_socket_read_fully, bs, record skt { io = s })
    finish_read_fully size skt (read_failed timed_out, s) =
        (socket_error timed_out error_socket_read_fully, [], record skt { io = s })

    unfoldable pub finish_write : TcpSocket S → StWrite × S → ℕ × TcpSocket S
    unfolding socket_error
    finish_write skt (put n, s) =
        if n == 0
        then (socket_error (etime s) error_socket_write, record skt { io = s })
        else (error_success, record skt { io = s; send_bytes = add_int64 skt.send_bytes n })
    finish_write skt (write_failed timed_out, s) =
        (socket_error timed_out error_socket_write, record skt { io = s })

module _ (rt : StIo) (etime : rt.State → Bool) where
  open rt use {State, st_read, st_read_fully, st_write, st_writev}

  unfoldable pub read : ℕ → TcpSocket State → ℕ × Bytes × TcpSocket State
  unfolding finish_read
  read size skt = finish_read etime skt (st_read size skt.recv_timeout skt.io)

  unfoldable pub read_fully : ℕ → TcpSocket State → ℕ × Bytes × TcpSocket State
  unfolding finish_read_fully
  read_fully size skt =
      finish_read_fully etime size skt (st_read_fully size skt.recv_timeout skt.io)

  unfoldable pub write : Bytes → TcpSocket State → ℕ × TcpSocket State
  unfolding finish_write
  write buf skt = finish_write etime skt (st_write buf skt.send_timeout skt.io)

  unfoldable pub writev : List Bytes → TcpSocket State → ℕ × TcpSocket State
  unfolding finish_write
  writev iov skt = finish_write etime skt (st_writev iov skt.send_timeout skt.io)
