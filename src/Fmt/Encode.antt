-- ===== src/Fmt/Encode.antt =====
-- The encoders of src/protocol/lpushFmt.cpp but `encodeJson`: what they leave in `*ret`, and `len`.
use linkedon_push.Common.{
  ℕ, ◌/◌, ◌%◌, ◌^◌, Bool, [], ◌∷◌, ◌++◌, Option, none, some, if◌then◌else◌, Bytes, length,
}
use linkedon_push.Wire.{split_int}
use linkedon_push.Heap.{Allocator, fill_block}

unfoldable pub encode_bool : Bool → Bytes × ℕ
encode_bool src = (2 ∷ (if src then 1 else 0) ∷ [], 2)

unfoldable pub encode_int : ℕ → Bytes × ℕ
encode_int src = (3 ∷ split_int src, 5)

-- A `long long` is its 64-bit pattern.
unfoldable pub encode_long : ℕ → Bytes × ℕ
encode_long src = (4 ∷ (split_int (src / 2 ^ 32 % 2 ^ 32) ++ split_int (src % 2 ^ 32)), 9)

-- The block is allocated for the 5 bytes of the header alone, and the parameter `tlen` is not
-- set: `len` is a local variable. `old` is what the caller's variable held.
unfoldable pub encode_string : Allocator → Bytes → ℕ → Option (Bytes × ℕ)
encode_string heap src old =
    elim (fill_block heap 5 (1 ∷ (split_int (length src % 2 ^ 32) ++ src))) [
      | none ↦ none
      | some buf ↦ some (buf, old)
    ]
