-- ===== src/Socket/Core/Agrees.antt =====
-- Where the two sockets do the same.
use linkedon_push.Common.{
  ℕ, ◌≡◌, refl, ap, Bool, true, false, List, [], ◌∷◌, Bytes, length, ◌==◌, Bool-cases, inl, inr,
}
use linkedon_push.Socket
use linkedon_push.Socket.{StSocket, StRead, got, read_failed, StWrite, put, write_failed, StIo}
use linkedon_push.Socket.Core
use linkedon_push.Socket.Core.{TcpSocket}

-- The fields that both have.
abbrev pub st_socket : {S : Type 0} → TcpSocket S → StSocket S
st_socket skt = record {
  io = skt.io;
  send_timeout = skt.send_timeout;
  recv_timeout = skt.recv_timeout;
  recv_bytes = skt.recv_bytes;
  send_bytes = skt.send_bytes;
}

-- The answer of a reading, and of a writing, seen as the other socket's.
abbrev pub as_read : {S : Type 0} → ℕ × Bytes × TcpSocket S → ℕ × Bytes × StSocket S
as_read (ret, bytes, skt) = (ret, bytes, st_socket skt)

abbrev pub as_write : {S : Type 0} → ℕ × TcpSocket S → ℕ × StSocket S
as_write (ret, skt) = (ret, st_socket skt)

-- A call that did not fail leaves `errno` as it was.
abbrev pub stale_read : StRead → Bool → Bool
stale_read (got bs) etime = etime
stale_read (read_failed timed_out) etime = false

abbrev pub stale_write : StWrite → Bool → Bool
stale_write (put n) etime = etime
stale_write (write_failed timed_out) etime = false

module _ {S : Type 0} (etime : S → Bool) (skt : TcpSocket S) (s : S) where
  agree_read :
      (a : StRead)
      → stale_read a (etime s) ≡ false
      → as_read (Core.finish_read etime skt (a, s)) ≡ Socket.finish_read (st_socket skt) (a, s)
  unfolding Core.finish_read Core.socket_error Socket.finish_read
  agree_read (got []) fresh = rw fresh refl
  agree_read (got (b ∷ bs)) fresh = refl
  agree_read (read_failed true) fresh = refl
  agree_read (read_failed false) fresh = refl

  agree_read_fully :
      (size : ℕ) (a : StRead)
      → stale_read a (etime s) ≡ false
      → as_read (Core.finish_read_fully etime size skt (a, s))
        ≡ Socket.finish_read_fully size (st_socket skt) (a, s)
  unfolding Core.finish_read_fully Core.socket_error Socket.finish_read_fully
  agree_read_fully size (got bs) fresh = elim (Bool-cases (length bs == size)) [
    | inl all ↦ rw all refl
    | inr some_only ↦ rw (some_only, fresh) refl
  ]
  agree_read_fully size (read_failed true) fresh = refl
  agree_read_fully size (read_failed false) fresh = refl

  agree_write :
      (a : StWrite)
      → stale_write a (etime s) ≡ false
      → as_write (Core.finish_write etime skt (a, s)) ≡ Socket.finish_write (st_socket skt) (a, s)
  unfolding Core.finish_write Core.socket_error Socket.finish_write
  agree_write (put n) fresh = elim (Bool-cases (n == 0)) [
    | inl none_put ↦ rw (none_put, fresh) refl
    | inr some_put ↦ rw some_put refl
  ]
  agree_write (write_failed true) fresh = refl
  agree_write (write_failed false) fresh = refl

-- A call of one of the four operations.
pub data Call : Type 0 where
  reads reads_fully : ℕ → Call
  writes : Bytes → Call
  writes_all : List Bytes → Call

-- A writing gives no bytes.
abbrev pub with_bytes : {S : Type 0} → ℕ × StSocket S → ℕ × Bytes × StSocket S
with_bytes (ret, skt) = (ret, [], skt)

module _ (rt : StIo) where
  open rt use {State}

  abbrev pub st_call : Call → StSocket State → ℕ × Bytes × StSocket State
  st_call (reads size) skt = Socket.read rt size skt
  st_call (reads_fully size) skt = Socket.read_fully rt size skt
  st_call (writes buf) skt = with_bytes (Socket.write rt buf skt)
  st_call (writes_all iov) skt = with_bytes (Socket.writev rt iov skt)

module _ (rt : StIo) (etime : rt.State → Bool) where
  open rt use {State, st_read, st_read_fully, st_write, st_writev}

  -- Whether `errno` is still `ETIME`, from an earlier call, behind a call that did not fail.
  abbrev pub stale : Call → TcpSocket State → Bool
  stale (reads size) skt =
      let (a, s') = st_read size skt.recv_timeout skt.io in stale_read a (etime s')
  stale (reads_fully size) skt =
      let (a, s') = st_read_fully size skt.recv_timeout skt.io in stale_read a (etime s')
  stale (writes buf) skt =
      let (a, s') = st_write buf skt.send_timeout skt.io in stale_write a (etime s')
  stale (writes_all iov) skt =
      let (a, s') = st_writev iov skt.send_timeout skt.io in stale_write a (etime s')

  abbrev pub core_call : Call → TcpSocket State → ℕ × Bytes × StSocket State
  core_call (reads size) skt = as_read (Core.read rt etime size skt)
  core_call (reads_fully size) skt = as_read (Core.read_fully rt etime size skt)
  core_call (writes buf) skt = with_bytes (as_write (Core.write rt etime buf skt))
  core_call (writes_all iov) skt = with_bytes (as_write (Core.writev rt etime iov skt))

  -- Unless the call of the runtime did not fail and `errno` is still `ETIME` from an earlier one,
  -- `LPushSocket` and `LPushStSocket` give the same return code, the same bytes and the same counters and timeouts for
  -- each of `read`, `read_fully`, `write` and `writev`, on every answer of the runtime.
  pub sockets_agree :
      (c : Call) (skt : TcpSocket State)
      → stale c skt ≡ false
      → core_call c skt ≡ st_call rt c (st_socket skt)
  unfolding Core.read Core.read_fully Core.write Core.writev Socket.read Socket.read_fully
      Socket.write Socket.writev
  sockets_agree (reads size) skt fresh =
      agree_read etime skt (st_read size skt.recv_timeout skt.io).1
        (st_read size skt.recv_timeout skt.io).0 fresh
  sockets_agree (reads_fully size) skt fresh =
      agree_read_fully etime skt (st_read_fully size skt.recv_timeout skt.io).1 size
        (st_read_fully size skt.recv_timeout skt.io).0 fresh
  sockets_agree (writes buf) skt fresh = ap with_bytes (
      agree_write etime skt (st_write buf skt.send_timeout skt.io).1
        (st_write buf skt.send_timeout skt.io).0 fresh)
  sockets_agree (writes_all iov) skt fresh = ap with_bytes (
      agree_write etime skt (st_writev iov skt.send_timeout skt.io).1
        (st_writev iov skt.send_timeout skt.io).0 fresh)
