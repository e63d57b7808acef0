-- ===== src/Fmt/RoundTrip.antt =====
-- Decoding what was encoded, whatever follows it in the packet.
use linkedon_push.Common.{
  ℕ, ◌+◌, ◌%◌, ◌^◌, ◌<◌, ◌≤◌, ◌≡◌, refl, ◌↔◌, ◌≢◌, Bool, true, false, [], ◌∷◌, ◌++◌, none, some,
  Bytes, length, arith, All, c_str, length-append, take-append_left, ap, ◌∙◌, le→leb, lt→leb,
  append_assoc, suc, ltb, if◌then◌else◌, Bool-cases, Option-cases, ◌⊎◌, inl, inr, length-take,
}
use linkedon_push.Wire.{split_int, read_int, read_int-split_int, IsInt32, length-split_int}
use linkedon_push.Heap.{Allocator}
use linkedon_push.Fmt.{
  decode_int, decode_bool, decode_string, decode_string_body, decode_long, copy_block,
}
use linkedon_push.Fmt.Encode.{encode_int, encode_bool, encode_string, encode_long}

-- An `int` and a `bool` come back from their encodings, and the count consumed is the length that
-- the encoder reported, whatever follows.
pub decode_scalar-encode_scalar :
    (w : ℕ) (b : Bool) (rest : Bytes) (old : ℕ) (old_b : Bool)
    → IsInt32 w
    → (decode_int ((encode_int w).0 ++ rest) old ≡ some ((encode_int w).1, w))
      × (decode_bool ((encode_bool b).0 ++ rest) old_b ≡ some ((encode_bool b).1, b))
unfolding decode_int decode_bool encode_int encode_bool
decode_scalar-encode_scalar w true rest old old_b h = (rw (read_int-split_int w rest h), refl)
decode_scalar-encode_scalar w false rest old old_b h = (rw (read_int-split_int w rest h), refl)

c_str-end : (s : Bytes) → All (λ b. b ≢ 0) s → c_str (s ++ 0 ∷ []) ≡ s
c_str-end [] h = refl
c_str-end (b ∷ s) (hb, hs) = ground (arith, c_str-end s hs)

-- The string value that a sender puts into a packet: type, length, characters.
abbrev pub string_value : Bytes → Bytes
string_value s = 1 ∷ (split_int (length s) ++ s)

length-copy_block : (body : Bytes) (n : ℕ) (b : Bytes) → copy_block body n ≡ some b → length b ≡ n
unfolding copy_block
length-copy_block body n b e = ground (arith, length-take n body)

pub copy_block_lem :
    (s rest : Bytes) → length s < 2 ^ 31 → copy_block (s ++ rest) (length s) ≡ some s
unfolding copy_block
copy_block_lem s rest small = rw (
  lt→leb 2147483648 (length s) small,
  le→leb (length s) (length (s ++ rest)) (omega (arith, length-append s rest)),
  take-append_left (length s) s rest refl,
)

decode_string_body_lem :
    (heap : Allocator) (s rest : Bytes)
    → All (λ b. b ≢ 0) s
    → length s < 2 ^ 31
    → length s < heap.usable (length s)
    → decode_string_body heap (length s) (s ++ rest) ≡ some (5 + length s, s)
unfolding decode_string_body
decode_string_body_lem heap s rest clean small room = rw (
  decode_string_body,
  copy_block_lem s rest small,
  le→leb (length (s ++ 0 ∷ [])) (heap.usable (length s)) (omega (arith, length-append s (0 ∷ []))),
  c_str-end s clean,
)

-- A string value without NUL and shorter than 2 ^ 31 bytes decodes to its characters and consumes
-- exactly its own bytes, whatever follows, if the allocator leaves room for the one byte that the
-- decoder writes too far.
pub decode_string_lem :
    (heap : Allocator) (s rest old : Bytes)
    → All (λ b. b ≢ 0) s
    → length s < 2 ^ 31
    → length s < heap.usable (length s)
    → decode_string heap (string_value s ++ rest) old ≡ some (length (string_value s), s)
unfolding decode_string
decode_string_lem heap s rest old clean small room =
    rw
      (
        append_assoc (split_int (length s)) s rest,
        read_int-split_int (length s) (s ++ rest) (omega arith),
        decode_string_body_lem heap s rest clean small room,
        length-append (split_int (length s)) s,
        length-split_int (length s),
      )
      (ap (λ n. some (n, s)) {x = 5 + length s} {y = suc (4 + length s)} (omega arith))

decode_string_body_full :
    (heap : Allocator) (s rest : Bytes)
    → length s < 2 ^ 31
    → heap.usable (length s) ≤ length s
    → decode_string_body heap (length s) (s ++ rest) ≡ none
unfolding decode_string_body
decode_string_body_full heap s rest small full = rw (
  decode_string_body,
  copy_block_lem s rest small,
  lt→leb (length (s ++ 0 ∷ [])) (heap.usable (length s)) (omega (arith, length-append s (0 ∷ []))),
)

decode_string_full :
    (heap : Allocator) (s rest old : Bytes)
    → length s < 2 ^ 31
    → heap.usable (length s) ≤ length s
    → decode_string heap (string_value s ++ rest) old ≡ none
unfolding decode_string
decode_string_full heap s rest old small full =
    rw
      (
        append_assoc (split_int (length s)) s rest,
        read_int-split_int (length s) (s ++ rest) (omega arith),
        decode_string_body_full heap s rest small full,
      )
      refl

-- Such a value is read exactly where the block of its characters has room for one byte more.
pub decode_string-string_value :
    (heap : Allocator) (s rest old : Bytes)
    → All (λ b. b ≢ 0) s
    → length s < 2 ^ 31
    → decode_string heap (string_value s ++ rest) old ≡ (
        if ltb (length s) (heap.usable (length s)) then some (length (string_value s), s) else none)
decode_string-string_value heap s rest old clean small =
    elim (Bool-cases (ltb (length s) (heap.usable (length s)))) [
      | inl room ↦ rw room (decode_string_lem heap s rest old clean small (ground arith))
      | inr full ↦ rw full (decode_string_full heap s rest old small (ground arith))
    ]

-- With an allocator that gives no more than it is asked for, no value of string type decodes:
-- the closing NUL always leaves the block.
pub decode_string_tight :
    (heap : Allocator) (t : ℕ) (rest old : Bytes)
    → ((n : ℕ) → heap.usable n ≡ n)
    → t % 16 ≡ 1
    → decode_string heap (t ∷ rest) old ≡ none
unfolding decode_string decode_string_body
decode_string_tight heap t rest old tight is_string =
    rw is_string (elim (Option-cases (read_int rest)) [
      | inl e ↦ rw e
      | inr ((n, body), e) ↦ rw e (body_none n body (Option-cases (copy_block body n)))
    ])
  where
    body_none :
        (n : ℕ) (body : Bytes)
        → (copy_block body n ≡ none) ⊎ ((b : Bytes) × (copy_block body n ≡ some b))
        → decode_string_body heap n body ≡ none
    body_none n body (inl e) = rw (decode_string_body, e)
    body_none n body (inr (b, e)) = rw (
      decode_string_body,
      e,
      lt→leb (length (b ++ 0 ∷ [])) (heap.usable n)
          (omega (arith, tight n, length-append b (0 ∷ []), length-copy_block body n b e)),
    )

-- What `encodeLong` wrote is never read back: `decodeLong` always runs into the shift of an `int`
-- by 56 places, which C++ does not define.
pub decode_long-encode_long :
    (w : ℕ) (rest : Bytes) (old : ℕ) → decode_long ((encode_long w).0 ++ rest) old ≡ none
unfolding decode_long encode_long split_int
decode_long-encode_long w rest old = refl

encode_string_buf :
    (heap : Allocator) (s buf : Bytes) (len len' : ℕ)
    → encode_string heap s len ≡ some (buf, len')
    → buf ≡ 1 ∷ (split_int (length s % 2 ^ 32) ++ s)
unfolding encode_string
encode_string_buf heap s buf len len' e = ground arith

-- `encodeString` stays inside the memory that it allocated exactly when the string fits into what
-- the allocator gave beyond the five bytes of the header.
pub encode_string_iff :
    (heap : Allocator) (s : Bytes) (old : ℕ)
    → (encode_string heap s old ≡ none) ↔ (heap.usable 5 < 5 + length s)
unfolding encode_string
encode_string_iff heap s old = (
  λ e. ground (
    arith,
    length-append (split_int (length s % 2 ^ 32)) s,
    length-split_int (length s % 2 ^ 32),
  ),
  λ h. rw (
    encode_string,
    lt→leb (length (1 ∷ (split_int (length s % 2 ^ 32) ++ s))) (heap.usable 5) (
        omega (
          arith,
          length-append (split_int (length s % 2 ^ 32)) s,
          length-split_int (length s % 2 ^ 32),
        )),
  ),
)

-- Where `encodeString` stays inside its memory, `decodeString` reads back the string that it was
-- given from what it wrote, whatever follows, and consumes exactly that: for a string without NUL,
-- shorter than 2 ^ 31 bytes, and an allocator that leaves room for the one byte that the decoder
-- writes too far.
pub decode_string-encode_string :
    (heap : Allocator) (s rest buf old : Bytes) (len len' : ℕ)
    → encode_string heap s len ≡ some (buf, len')
    → All (λ b. b ≢ 0) s
    → length s < 2 ^ 31
    → length s < heap.usable (length s)
    → decode_string heap (buf ++ rest) old ≡ some (length buf, s)
decode_string-encode_string heap s rest buf old len len' e clean small room =
    rw wrote (decode_string_lem heap s rest old clean small room)
  where
    wrote : buf ≡ string_value s
    wrote =
        encode_string_buf heap s buf len len' e
        ∙ ap (λ n. 1 ∷ (split_int n ++ s)) {x = length s % 2 ^ 32} {y = length s} (omega arith)
