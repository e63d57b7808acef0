-- ===== src/FastBuffer.antt =====
-- src/core/lpushFastBuffer.{h,cpp}: the receive buffer between the socket and the parser.
-- `start`, `p` and `end` point into one block: here `mem` is the block and `p`, `end` are offsets.
-- A result `none` is a failed `assert`, an access outside the block, or fuel that ran out; the
-- modules below show when none of the three happens.
pub mod Inv
pub mod View
pub mod Fill
pub mod Grow
use linkedon_push.Common.{
  ℕ, zero, suc, ◌+◌, ◌-◌, Bool, true, false, List, [], ◌∷◌, Option, none, some, if◌then◌else◌,
  Bytes, length, ◌==◌, leb, ltb, min, get_elem?, slice, splice, replicate, not,
}
use linkedon_push.Errors.{error_success, error_reader_buffer_overflow}
use linkedon_push.Socket.{StIo, StSocket}
use linkedon_push.Socket

abbrev pub default_recv_buffer_size : ℕ
default_recv_buffer_size = 131072

abbrev pub max_socket_buffer : ℕ
max_socket_buffer = 262144

pub record FastBuffer : Type 0 where
  pub mem : Bytes
  pub p : ℕ
  pub end : ℕ
  pub nb_buffer : ℕ

-- The constructor, for a block of `n` bytes.
unfoldable pub with_capacity : ℕ → FastBuffer
with_capacity n = record { mem = replicate n 0; p = 0; end = 0; nb_buffer = n }

unfoldable pub create : FastBuffer
unfolding with_capacity
create = with_capacity default_recv_buffer_size

unfoldable pub size : FastBuffer → ℕ
size fb = fb.end - fb.p

-- The bytes that were received and not yet consumed.
abbrev pub unread : FastBuffer → Bytes
unread fb = slice fb.mem fb.p (fb.end - fb.p)

-- `realloc` keeps the bytes of the block; what it adds is not initialised, here 0.
-- `nb_buffer` stays what it was.
unfoldable pub set_buffer : ℕ → FastBuffer → FastBuffer
set_buffer buffer_size fb =
    let nb_resize_buf = min buffer_size max_socket_buffer in
    if leb nb_resize_buf fb.nb_buffer
    then fb
    else record fb { mem = splice (replicate nb_resize_buf 0) 0 fb.mem }

unfoldable pub read_1byte : FastBuffer → Option (ℕ × FastBuffer)
read_1byte fb =
    if leb 1 (fb.end - fb.p)
    then elim (get_elem? fb.mem fb.p) [
      | none ↦ none
      | some b ↦ some (b, record fb { p = fb.p + 1 })
    ]
    else none

-- The pointer that it returns is the old `p`.
unfoldable pub read_slice : ℕ → FastBuffer → Option (ℕ × FastBuffer)
read_slice n fb =
    if ltb 0 n
    then if leb n (fb.end - fb.p) then some (fb.p, record fb { p = fb.p + n }) else none
    else none

unfoldable pub skip : ℕ → FastBuffer → Option FastBuffer
skip n fb = if leb n (fb.end - fb.p) then some (record fb { p = fb.p + n }) else none

-- The second half of `grow`'s first test: unread bytes go to the start of the block.
unfoldable pub compact : FastBuffer → Option FastBuffer
compact fb =
    let nb_exists_bytes = fb.end - fb.p in
    if nb_exists_bytes == 0
    then some (record fb { p = 0; end = 0 })
    else if ltb nb_exists_bytes fb.nb_buffer
    then some (record fb {
      mem = splice fb.mem 0 (slice fb.mem fb.p nb_exists_bytes);
      p = 0;
      end = nb_exists_bytes;
    })
    else none

module _ (rt : StIo) where
  abbrev pub Grown : Type 0
  Grown = ℕ × FastBuffer × StSocket rt.State

  -- The loop `while (end - p < required_size)`; `assert((int)nread > 0)` after each read.
  unfoldable pub fill : ℕ → ℕ → ℕ → FastBuffer → StSocket rt.State → Option Grown
  fill zero required free fb skt = none
  fill (suc fuel) required free fb skt =
      let (ret, bytes, skt') = Socket.read rt free skt in
      let more =
        fill fuel required (free - length bytes)
          (record fb { mem = splice fb.mem fb.end bytes; end = fb.end + length bytes }) skt' in
      if leb required (fb.end - fb.p)
      then some (error_success, fb, skt)
      else if not (ret == error_success)
      then some (ret, fb, skt')
      else if ltb 0 (length bytes)
      then more
      else none

  -- A read takes a byte at least, so `required + 1` rounds are enough.
  unfoldable pub grow : ℕ → FastBuffer → StSocket rt.State → Option Grown
  grow required fb skt =
      if leb required (fb.end - fb.p)
      then some (error_success, fb, skt)
      else if not (ltb 0 required)
      then none
      else if leb required (fb.nb_buffer - fb.end)
      then fill (suc required) required (fb.nb_buffer - fb.end) fb skt
      else elim (compact fb) [
        | none ↦ none
        | some fb' ↦
            if ltb (fb'.nb_buffer - fb'.end) required
            then some (error_reader_buffer_overflow, fb', skt)
            else fill (suc required) required (fb'.nb_buffer - fb'.end) fb' skt
      ]
