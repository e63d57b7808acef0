-- ===== src/Protocol/Parse.antt =====
-- `readHeader` on a buffer that holds the bytes of a header.
use linkedon_push.Common.{
  ℕ, ◌+◌, ◌≡◌, refl, ap, true, [], ◌∷◌, ◌++◌, some, Bytes, arith, c_str, starts_with-append,
  contains_of_starts, ◌==◌, ◌||◌, if◌then◌else◌, ltb,
}
use linkedon_push.Errors.{error_success, error_data_empty, error_data_max}
use linkedon_push.Wire.{split_int, read_int-split_int, IsInt32, is_negative}
use linkedon_push.FastBuffer.{FastBuffer, read_slice}
use linkedon_push.FastBuffer.View.{
  Holds, stale, advance, advance-Holds, mem_at_p, read_slice-Holds, read_1byte-Holds,
}
use linkedon_push.Protocol.{
  Header, lpush_flag, handshake_data_max, int_at, flag_found, read_fields, read_header,
}
use linkedon_push.Protocol.Packet.{header_bytes}

-- The `int` at the pointer that `read_slice(4)` gave.
slice_int :
    (w : ℕ) (rest : Bytes) {fb : FastBuffer}
    → Holds fb (split_int w ++ rest)
    → read_slice 4 fb ≡ some (fb.p, advance 4 fb)
unfolding split_int
slice_int w rest h = read_slice-Holds (split_int w) rest h (omega arith)

int_at_slice :
    (w : ℕ) (rest : Bytes) {fb : FastBuffer}
    → IsInt32 w
    → Holds fb (split_int w ++ rest)
    → int_at (advance 4 fb) fb.p ≡ some w
unfolding int_at
int_at_slice w rest {fb} fits h =
    rw (int_at, mem_at_p (split_int w) rest h, read_int-split_int w (rest ++ stale fb) fits)

advance_int :
    (w : ℕ) (rest : Bytes) {fb : FastBuffer}
    → Holds fb (split_int w ++ rest)
    → Holds (advance 4 fb) rest
unfolding split_int
advance_int w rest h = advance-Holds (split_int w) rest h

flag_at_start :
    (rest : Bytes) {fb : FastBuffer}
    → Holds fb (lpush_flag ++ rest)
    → flag_found (advance 5 fb) fb.p ≡ true
unfolding flag_found
flag_at_start rest {fb} h = rw (mem_at_p lpush_flag rest h) (
    contains_of_starts lpush_flag (lpush_flag ++ c_str (rest ++ stale fb))
      (starts_with-append lpush_flag (c_str (rest ++ stale fb))))

-- What `readHeader` answers to a length.
abbrev pub judged : Header → Header → FastBuffer → ℕ × Header × FastBuffer
judged lph h fb =
    if h.datalenght == 0 || is_negative h.datalenght
    then (error_data_empty, lph, fb)
    else if ltb handshake_data_max h.datalenght
    then (error_data_max, lph, fb)
    else (error_success, h, fb)

read_fields_lem :
    (h lph : Header) (rest : Bytes) {fb : FastBuffer}
    → IsInt32 h.timestamp
    → IsInt32 h.datalenght
    → Holds fb (split_int h.timestamp ++ (h.data_type ∷ (split_int h.datalenght ++ rest)))
    → read_fields lph fb ≡ some (judged lph h (record fb { p = fb.p + 4 + 1 + 4 }))
unfolding read_fields
read_fields_lem h lph rest {fb} time_fits len_fits at_time =
    rw
      (
        slice_int h.timestamp _ at_time,
        int_at_slice h.timestamp _ time_fits at_time,
        read_1byte-Holds h.data_type (split_int h.datalenght ++ rest) at_type,
        slice_int h.datalenght rest at_len,
        int_at_slice h.datalenght rest len_fits at_len,
      )
      (ground arith)
  where
    at_type : Holds (advance 4 fb) (h.data_type ∷ (split_int h.datalenght ++ rest))
    at_type = advance_int h.timestamp _ at_time

    at_len : Holds (advance 1 (advance 4 fb)) (split_int h.datalenght ++ rest)
    at_len = advance-Holds (h.data_type ∷ []) (split_int h.datalenght ++ rest) at_type

fields_bytes :
    (h : Header) (rest : Bytes)
    → header_bytes h ++ rest
      ≡ lpush_flag ++ (split_int h.timestamp ++ (h.data_type ∷ (split_int h.datalenght ++ rest)))
unfolding split_int
fields_bytes h rest = refl

-- On a buffer that holds the bytes of a header with 32-bit fields, `readHeader` takes its 14 bytes
-- and judges the length: 0 or negative, above 400, or the header itself.
pub read_header_lem :
    (h lph : Header) (rest : Bytes) {fb : FastBuffer}
    → IsInt32 h.timestamp
    → IsInt32 h.datalenght
    → Holds fb (header_bytes h ++ rest)
    → read_header lph fb ≡ some (judged lph h (advance 14 fb))
unfolding read_header
read_header_lem h lph rest {fb} time_fits len_fits whole =
    rw
      (
        read_slice-Holds lpush_flag _ at_flag (omega arith),
        flag_at_start _ at_flag,
        read_fields_lem h lph rest time_fits len_fits at_time,
      )
      (ap (λ k. some (judged lph h (record fb { p = k }))) {x = fb.p + 5 + 4 + 1 + 4}
        {y = fb.p + 14} (omega arith))
  where
    at_flag :
        Holds fb (
          lpush_flag ++ (split_int h.timestamp ++ (h.data_type ∷ (split_int h.datalenght ++ rest))))
    at_flag = rw (← fields_bytes h rest) whole

    at_time :
        Holds
          (advance 5 fb)
          (split_int h.timestamp ++ (h.data_type ∷ (split_int h.datalenght ++ rest)))
    at_time = advance-Holds lpush_flag _ at_flag

pub header_consumed :
    (h : Header) (rest : Bytes) {fb : FastBuffer}
    → Holds fb (header_bytes h ++ rest)
    → Holds (advance 14 fb) rest
unfolding split_int
header_consumed h rest whole = advance-Holds (header_bytes h) rest whole
