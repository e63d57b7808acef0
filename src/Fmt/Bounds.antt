-- ===== src/Fmt/Bounds.antt =====
-- What the decoders say they consumed, against the block that they were given.
use linkedon_push.Common.{
  ℕ, ◌+◌, ◌≤◌, ◌≡◌, refl, Bool, [], ◌∷◌, Option, none, some, Bytes, length, arith, Option-cases,
  inl, inr,
}
use linkedon_push.Wire.{read_int}
use linkedon_push.Heap.{Allocator}
use linkedon_push.Fmt.{
  decode_int, decode_bool, decode_bool_body, decode_string, decode_string_body, copy_block,
}

length-read_int :
    (bs : Bytes) (w : ℕ) (rest : Bytes) → read_int bs ≡ some (w, rest) → length bs ≡ 4 + length rest
unfolding read_int
length-read_int (a ∷ b ∷ c ∷ d ∷ bs) w rest e = ground arith
length-read_int [] w rest e = cc
length-read_int (a ∷ []) w rest e = cc
length-read_int (a ∷ b ∷ []) w rest e = cc
length-read_int (a ∷ b ∷ c ∷ []) w rest e = cc

copy_block-le : (body : Bytes) (n : ℕ) (b : Bytes) → copy_block body n ≡ some b → n ≤ length body
unfolding copy_block
copy_block-le body n b e = ground arith

decode_string_body-le :
    (heap : Allocator) (n : ℕ) (body : Bytes) (k : ℕ) (v : Bytes)
    → decode_string_body heap n body ≡ some (k, v)
    → k ≤ 5 + length body
unfolding decode_string_body
decode_string_body-le heap n body k v e = elim (Option-cases (copy_block body n)) [
  | inl f ↦ cc (rw (decode_string_body, f) at e)
  | inr (b, f) ↦ ground (arith, f, copy_block-le body n b f)
]

decode_int-le : (bs : Bytes) (old n w : ℕ) → decode_int bs old ≡ some (n, w) → n ≤ length bs
unfolding decode_int
decode_int-le [] old n w e = cc
decode_int-le (t ∷ rest) old n w e = elim (Option-cases (read_int rest)) [
  | inl f ↦ ground arith
  | inr ((x, more), f) ↦ ground (arith, f, length-read_int rest x more f)
]

decode_bool_body-le :
    (bs : Bytes) (n : ℕ) (b : Bool) → decode_bool_body bs ≡ some (n, b) → n ≤ 1 + length bs
unfolding decode_bool_body
decode_bool_body-le [] n b e = cc
decode_bool_body-le (x ∷ bs) n b e = ground arith

decode_bool-le :
    (bs : Bytes) (old : Bool) (n : ℕ) (b : Bool) → decode_bool bs old ≡ some (n, b) → n ≤ length bs
unfolding decode_bool
decode_bool-le [] old n b e = cc
decode_bool-le (t ∷ rest) old n b e = ground (arith, decode_bool_body-le rest n b)

pub decode_string-le :
    (heap : Allocator) (bs old : Bytes) (n : ℕ) (s : Bytes)
    → decode_string heap bs old ≡ some (n, s)
    → n ≤ length bs
unfolding decode_string
decode_string-le heap [] old n s e = cc
decode_string-le heap (t ∷ rest) old n s e = elim (Option-cases (read_int rest)) [
  | inl f ↦ ground arith
  | inr ((x, body), f) ↦
      ground (arith, f, length-read_int rest x body f, decode_string_body-le heap x body n s)
]

-- What a decoder that did not leave its memory says it consumed.
abbrev pub consumed {ℓ} : {A : Type ℓ} → Option (ℕ × A) → ℕ
consumed none = 0
consumed (some (n, x)) = n

consumed-le {ℓ} :
    {A : Type ℓ} (r : Option (ℕ × A)) (limit : ℕ)
    → ((n : ℕ) (x : A) → r ≡ some (n, x) → n ≤ limit)
    → consumed r ≤ limit
consumed-le none limit h = omega arith
consumed-le (some (n, x)) limit h = h n x refl

-- No decoder of an integer, a flag or a string says that it consumed more than the block holds.
pub decode_bounds :
    (heap : Allocator) (bs : Bytes) (old : ℕ) (old_b : Bool) (old_s : Bytes)
    → (consumed (decode_int bs old) ≤ length bs)
      × (consumed (decode_bool bs old_b) ≤ length bs)
      × (consumed (decode_string heap bs old_s) ≤ length bs)
decode_bounds heap bs old old_b old_s = (
  consumed-le (decode_int bs old) (length bs) (λ n w. decode_int-le bs old n w),
  consumed-le (decode_bool bs old_b) (length bs) (λ n b. decode_bool-le bs old_b n b),
  consumed-le (decode_string heap bs old_s) (length bs) (λ n s. decode_string-le heap bs old_s n s),
)
