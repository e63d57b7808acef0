-- ===== src/Fmt.antt =====
-- src/protocol/lpushFmt.{h,cpp}: the typed values inside a packet. A decoder is given the block that
-- `data` points to and returns what it consumed; `none` is a read or a write outside a block, or
-- a shift that C++ does not define. `old` is what the caller's variable held before the call.
pub mod Encode
pub mod Bounds
pub mod RoundTrip
pub mod Json
use linkedon_push.Common.{
  ℕ, ◌+◌, ◌*◌, ◌/◌, ◌%◌, ◌^◌, Bool, true, false, ◌||◌, List, [], ◌∷◌, ◌++◌, Option, none, some,
  ◌==◌, if◌then◌else◌, leb, ltb, Bytes, length, take, c_str, StringMap,
}
use linkedon_push.Wire.{read_int, is_negative, join_int, split_int}
use linkedon_push.Heap.{Allocator, fill_block}

abbrev pub fmt_string : ℕ
fmt_string = 1

abbrev pub fmt_bool : ℕ
fmt_bool = 2

abbrev pub fmt_int : ℕ
fmt_int = 3

abbrev pub fmt_long : ℕ
fmt_long = 4

abbrev pub fmt_json : ℕ
fmt_json = 6

-- `*data & 0x0F`.
unfoldable pub is_type : Bytes → Option ℕ
is_type [] = none
is_type (t ∷ rest) = some (t % 16)

unfoldable pub decode_bool_body : Bytes → Option (ℕ × Bool)
decode_bool_body [] = none
decode_bool_body (b ∷ rest) = some (2, b % 16 == 1)

unfoldable pub decode_bool : Bytes → Bool → Option (ℕ × Bool)
unfolding decode_bool_body
decode_bool [] old = none
decode_bool (t ∷ rest) old = if t % 16 == fmt_bool then decode_bool_body rest else some (1, old)

unfoldable pub decode_int : Bytes → ℕ → Option (ℕ × ℕ)
decode_int [] old = none
decode_int (t ∷ rest) old =
    if t % 16 == fmt_int
    then elim (read_int rest) [ none ↦ none | some (w, more) ↦ some (5, w) ]
    else some (1, old)

-- `x << k` on an `int`, which has 32 bits: undefined from 32 on.
unfoldable pub shl_int : ℕ → ℕ → Option ℕ
shl_int x k = if leb 32 k then none else some (x * 2 ^ k % 2 ^ 32)

-- `(*buf++ & 0xFF) << 56 | (*buf++ & 0xFF) << 48 | …`: each byte is promoted to `int`, so this is the
-- or of `int`s; the shifts of the first four bytes come first. `or_long` stands for what the or
-- of defined operands would be.
unfoldable pub or_long : Option ℕ → Option ℕ → Option ℕ
or_long none b = none
or_long (some a) none = none
or_long (some a) (some b) = some (a + b)

unfoldable pub decode_long_body : Bytes → Option (ℕ × ℕ)
unfolding shl_int or_long
decode_long_body (b7 ∷ b6 ∷ b5 ∷ b4 ∷ b3 ∷ b2 ∷ b1 ∷ b0 ∷ rest) =
    elim (or_long
      (or_long (or_long (shl_int b7 56) (shl_int b6 48)) (or_long (shl_int b5 40) (shl_int b4 32)))
      (or_long (or_long (shl_int b3 24) (shl_int b2 16)) (or_long (shl_int b1 8) (some b0)))) [
        | none ↦ none
        | some w ↦ some (9, w)
      ]
decode_long_body _ = none

unfoldable pub decode_long : Bytes → ℕ → Option (ℕ × ℕ)
unfolding decode_long_body
decode_long [] old = none
decode_long (t ∷ rest) old = if t % 16 == fmt_long then decode_long_body rest else some (1, old)

-- `malloc(n)`, `memset` and `memcpy` of `n` bytes of `body`: a negative length makes `malloc`
-- fail, and a body that is too short is read past its end.
unfoldable pub copy_block : Bytes → ℕ → Option Bytes
copy_block body n =
    if is_negative n then none else if leb n (length body) then some (take n body) else none

-- The copied block is ended by a NUL one byte past what was allocated.
unfoldable pub decode_string_body : Allocator → ℕ → Bytes → Option (ℕ × Bytes)
decode_string_body heap stringlen body = elim (copy_block body stringlen) [
  | none ↦ none
  | some block ↦ elim (fill_block heap stringlen (block ++ 0 ∷ [])) [
    | none ↦ none
    | some ended ↦ some (5 + stringlen, c_str ended)
  ]
]

unfoldable pub decode_string : Allocator → Bytes → Bytes → Option (ℕ × Bytes)
decode_string heap [] old = none
decode_string heap (t ∷ rest) old =
    if t % 16 == fmt_string
    then elim (read_int rest) [
      | none ↦ none
      | some (stringlen, body) ↦ decode_string_body heap stringlen body
    ]
    else some (1, old)
