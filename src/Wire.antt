-- ===== src/Wire.antt =====
-- The four-byte big-endian integers of the protocol, as src/protocol/lpushProtocolStack.cpp and
-- src/protocol/lpushFmt.cpp write and read them: `*p++ |= (x >> 24) & 0xFF; …` and
-- `*buf++ << 24 | *buf++ << 16 | …`, the bytes taken in the order in which they stand.
-- An `int` is kept as its 32-bit pattern, a number below 2 ^ 32.
use linkedon_push.Common.{
  ℕ, ◌+◌, ◌*◌, ◌/◌, ◌%◌, ◌^◌, ◌<◌, ◌≡◌, refl, Bool, Option, none, some, [], ◌∷◌, ◌++◌, arith, leb,
  Bytes, IsByte, All, length,
}

abbrev pub IsInt32 : ℕ → Type 0
IsInt32 w = w < 2 ^ 32

-- The sign bit of an `int`.
abbrev pub is_negative : ℕ → Bool
is_negative w = leb 2147483648 w

-- The or of four shifted bytes is their sum, since their bits do not meet.
unfoldable pub join_int : ℕ → ℕ → ℕ → ℕ → ℕ
join_int b3 b2 b1 b0 = (b3 * 16777216 + b2 * 65536 + b1 * 256 + b0) % 4294967296

-- `(x >> 24) & 0xFF`, `(x >> 16) & 0xFF`, `(x >> 8) & 0xFF`, `x & 0xFF`.
unfoldable pub split_int : ℕ → Bytes
split_int w = w / 16777216 % 256 ∷ w / 65536 % 256 ∷ w / 256 % 256 ∷ w % 256 ∷ []

-- Four bytes off the front of a block; `none` if the block ends before.
unfoldable pub read_int : Bytes → Option (ℕ × Bytes)
read_int (b3 ∷ b2 ∷ b1 ∷ b0 ∷ rest) = some (join_int b3 b2 b1 b0, rest)
read_int _ = none

-- What was written is read back, whatever follows it.
pub read_int-split_int :
    (w : ℕ) (rest : Bytes) → IsInt32 w → read_int (split_int w ++ rest) ≡ some (w, rest)
unfolding read_int split_int join_int
read_int-split_int w rest h = ground arith

pub length-split_int : (w : ℕ) → length (split_int w) ≡ 4
unfolding split_int
length-split_int w = refl

pub split_int-IsByte : (w : ℕ) → All IsByte (split_int w)
unfolding split_int
split_int-IsByte w = omega arith

pub join_int-IsInt32 : (b3 b2 b1 b0 : ℕ) → IsInt32 (join_int b3 b2 b1 b0)
unfolding join_int
join_int-IsInt32 b3 b2 b1 b0 = omega arith
