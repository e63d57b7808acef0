-- ===== src/Protocol.antt =====
-- src/protocol/lpushProtocolStack.{h,cpp}: packets. This file has the data and the parser; the
-- children have the writer, the messages, and the proofs.
-- `none` is a failed `assert`, or an access outside a block.
pub mod Packet
pub mod Parse
pub mod Flag
pub mod Receive
pub mod Send
pub mod Handshake
pub mod Authorised
use linkedon_push.Common.{
  ℕ, ◌+◌, Bool, true, false, not, ◌||◌, ◌&&◌, List, [], ◌∷◌, ◌++◌, Option, none, some, ◌==◌,
  if◌then◌else◌, ltb, leb, Bytes, length, take, drop, c_str, contains, codes, ◌>>=◌,
}
use linkedon_push.Errors.{error_success, error_system_file_read, error_data_empty, error_data_max}
use linkedon_push.Wire.{read_int, is_negative}
use linkedon_push.Socket.{StIo, StSocket}
use linkedon_push.FastBuffer.{FastBuffer, read_slice, read_1byte, grow}

abbrev pub handshake_data_max : ℕ
handshake_data_max = 400

-- `LPushFlag`. The array has no NUL of its own: the byte after it is taken to be 0.
abbrev pub lpush_flag : Bytes
lpush_flag = codes "LPUSH"

-- `LPushHeader`; its field `lpush_flag` is the same five letters in every header.
pub record Header : Type 0 where
  pub timestamp : ℕ
  pub data_type : ℕ
  pub datalenght : ℕ

-- The default constructor: `dataType = -1` in an unsigned char.
abbrev pub empty_header : Header
empty_header = record { timestamp = 0; data_type = 255; datalenght = 0 }

-- The pointer `data`: NULL, a block, or not initialised.
pub data Data : Type 0 where
  null : Data
  block : Bytes → Data
  uninit : Data

pub record Chunk : Type 0 where
  pub header : Header
  pub body : Data

abbrev pub empty_chunk : Chunk
empty_chunk = record { header = empty_header; body = null }

-- `x > 0` on an `int`.
abbrev pub is_positive : ℕ → Bool
is_positive w = ltb 0 w && not (is_negative w)

-- `memcpy` of the first `n` bytes of a block.
abbrev pub copy_of : Bytes → ℕ → Option Bytes
copy_of src n = if leb n (length src) then some (take n src) else none

unfoldable pub set_block : Header → Data → Option Bytes → Option Chunk
set_block hd old none = none
set_block hd old (some bs) = some (record { header = hd; body = block bs })

-- `LPushChunk::setData`: without a chunk or a positive length `data` stays as it was.
unfoldable pub set_data : Chunk → Header → Option Bytes → Option Chunk
unfolding set_block
set_data c hd none = some (record { header = hd; body = c.body })
set_data c hd (some chunk) =
    if is_positive hd.datalenght
    then set_block hd c.body (copy_of chunk hd.datalenght)
    else some (record { header = hd; body = c.body })

-- The constructor with arguments: it sets `data` in the one case only.
unfoldable pub new_chunk : Header → Option Bytes → Option Chunk
unfolding set_data
new_chunk hd chunk = set_data (record { header = hd; body = uninit }) hd chunk

-- `LPushChunk::copy`. A pointer that was never set is read: that is a fault.
unfoldable pub copy_data : Header → Data → Option Chunk
unfolding new_chunk
copy_data hd null = new_chunk hd none
copy_data hd (block bs) = new_chunk hd (some bs)
copy_data hd uninit = none

unfoldable pub copy : Chunk → Option Chunk
unfolding copy_data
copy c = copy_data c.header c.body

-- The `int` at a pointer into the buffer's block.
unfoldable pub int_at : FastBuffer → ℕ → Option ℕ
int_at fb ptr = elim (read_int (drop ptr fb.mem)) [ none ↦ none | some (w, rest) ↦ some w ]

-- `strstr((char*)buf, LPushFlag) != NULL`: the C string that starts at the pointer goes on past the
-- five bytes of the slice.
unfoldable pub flag_found : FastBuffer → ℕ → Bool
flag_found fb ptr = contains lpush_flag (c_str (drop ptr fb.mem))

-- `readHeader` behind the flag.
unfoldable pub read_fields : Header → FastBuffer → Option (ℕ × Header × FastBuffer)
read_fields lph fb = do
  (time_at, fb1) ← read_slice 4 fb
  timestamp ← int_at fb1 time_at
  (data_type, fb2) ← read_1byte fb1
  (len_at, fb3) ← read_slice 4 fb2
  data_len ← int_at fb3 len_at
  if data_len == 0 || is_negative data_len
      then some (error_data_empty, lph, fb3)
      else if ltb handshake_data_max data_len
      then some (error_data_max, lph, fb3)
      else some (
        error_success,
        record { timestamp = timestamp; data_type = data_type; datalenght = data_len },
        fb3,
      )

unfoldable pub read_header : Header → FastBuffer → Option (ℕ × Header × FastBuffer)
read_header lph fb = do
  (flag_at, fb') ← read_slice 5 fb
  if flag_found fb' flag_at then read_fields lph fb' else some (error_system_file_read, lph, fb')

module _ (rt : StIo) where
  abbrev pub Received : Type 0
  Received = ℕ × Chunk × FastBuffer × StSocket rt.State

  -- The part of `readMessage` behind a header that was read.
  unfoldable pub read_body : Header → Chunk → FastBuffer → StSocket rt.State → Option Received
  read_body lph lpc fb skt = do
    (ret, fb', skt') ← grow rt lph.datalenght fb skt
    if not (ret == error_success) then some (ret, lpc, fb', skt') else do
      (ptr, fb2) ← read_slice lph.datalenght fb'
      lpc' ← set_data lpc lph (some (drop ptr fb2.mem))
      some (error_success, lpc', fb2, skt')

  unfoldable pub no_body : Header → Chunk → FastBuffer → StSocket rt.State → Option Received
  no_body lph lpc fb skt = do lpc' ← set_data lpc lph none; some (error_success, lpc', fb, skt)

  unfoldable pub read_message : Chunk → FastBuffer → StSocket rt.State → Option Received
  read_message lpc fb skt = do
    (ret, fb1, skt1) ← grow rt 14 fb skt
    if not (ret == error_success) then some (ret, lpc, fb1, skt1) else do
      (ret2, lph, fb2) ← read_header empty_header fb1
      if not (ret2 == error_success)
          then some (ret2, lpc, fb2, skt1)
          else if is_positive lph.datalenght
          then read_body lph lpc fb2 skt1
          else no_body lph lpc fb2 skt1
