-- ===== src/Logger/Block.antt =====
-- The block of a line behind its header and its text.
use native.Mathlib.Decide.{dec_lt}
use linkedon_push.Common.{
  ℕ, zero, suc, ◌+◌, ◌-◌, ◌≤◌, ◌≡◌, refl, sym, ap, ap₂, ◌∙◌, List, [], ◌∷◌, ◌++◌, Bytes, length,
  take, drop, splice, length-splice, length-take, length-append, take-append_le, take_all, min,
  arith,
}

pub take-append_ge :
    {A : Type 0} (n : ℕ) (xs ys : List A)
    → length xs ≤ n
    → take n (xs ++ ys) ≡ xs ++ take (n - length xs) ys
take-append_ge n [] ys h = ap (λ k. take k ys) (omega arith)
take-append_ge zero (x ∷ xs) ys h = absurd (omega arith)
take-append_ge (suc n) (x ∷ xs) ys h =
    ap (λ t. x ∷ t) (take-append_ge n xs ys (omega arith) ∙ ap (λ k. xs ++ take k ys) (omega arith))

pub take-take_le : {A : Type 0} (i j : ℕ) (xs : List A) → i ≤ j → take i (take j xs) ≡ take i xs
take-take_le zero j xs h = refl
take-take_le (suc i) zero xs h = absurd (omega arith)
take-take_le (suc i) (suc j) [] h = refl
take-take_le (suc i) (suc j) (x ∷ xs) h = ap (λ t. x ∷ t) (take-take_le i j xs (omega arith))

-- A block up to a point inside of what was written last.
pub take-splice :
    {A : Type 0} (m : List A) (i j : ℕ) (c rest : List A)
    → i ≤ length m
    → j ≤ length c
    → take (i + j) (splice m i (c ++ rest)) ≡ take i m ++ take j c
unfolding splice
take-splice m i j c rest hi hj =
    take-append_ge (i + j) (take i m) ((c ++ rest) ++ drop (i + length (c ++ rest)) m)
      (omega (arith, length-take i m))
    ∙ ap (λ k. take i m ++ take k ((c ++ rest) ++ drop (i + length (c ++ rest)) m))
        (omega (arith, length-take i m))
    ∙ ap (λ t. take i m ++ t)
        (take-append_le j (c ++ rest) (drop (i + length (c ++ rest)) m)
            (omega (arith, length-append c rest))
          ∙ take-append_le j c rest hj)

-- A block up to a point before what was written last.
pub take-splice_before :
    {A : Type 0} (m : List A) (i j : ℕ) (c : List A)
    → i ≤ length m
    → j ≤ i
    → take j (splice m i c) ≡ take j m
unfolding splice
take-splice_before m i j c hi hj =
    take-append_le j (take i m) (c ++ drop (i + length c) m) (omega (arith, length-take i m))
    ∙ take-take_le j i m hj

pub take-min : {A : Type 0} (n : ℕ) (xs : List A) → take (min n (length xs)) xs ≡ take n xs
take-min zero xs = ap (λ k. take k xs) {x = min 0 (length xs)} {y = 0} (omega arith)
take-min (suc n) [] = ap (λ k. take k []) {x = min (suc n) 0} {y = 0} (omega arith)
take-min (suc n) (x ∷ xs) =
    ap (λ k. take k (x ∷ xs)) {y = suc (min n (length xs))} (omega arith)
    ∙ ap (λ t. x ∷ t) (take-min n xs)

-- The block behind the header, and behind the text.
abbrev pub with_header : ℕ → Bytes → Bytes → Bytes
with_header cap header log_data = splice log_data 0 (take (suc cap) header ++ (0 ∷ []))

abbrev pub with_text : ℕ → ℕ → Bytes → Bytes → Bytes
with_text cap size text log_data = splice log_data size (take (suc cap - size) text ++ (0 ∷ []))

module _ (cap : ℕ) (header text log_data : Bytes) (whole : length log_data ≡ suc (suc cap)) where
  pub length-with_header : length (with_header cap header log_data) ≡ suc (suc cap)
  length-with_header =
      length-splice log_data 0 (take (suc cap) header ++ (0 ∷ [])) (
        omega (
          arith,
          whole,
          length-append (take (suc cap) header) (0 ∷ []),
          length-take (suc cap) header,
        ))
      ∙ whole

  pub take-with_header :
      (k : ℕ)
      → k ≤ suc cap
      → k ≤ length header
      → take k (with_header cap header log_data) ≡ take k header
  take-with_header k small short =
      ap (λ n. take n (with_header cap header log_data)) {x = k} {y = 0 + k} (omega arith)
      ∙ take-splice log_data 0 k (take (suc cap) header) (0 ∷ []) (omega arith)
          (omega (arith, length-take (suc cap) header))
      ∙ take-take_le k (suc cap) header small

  pub length-with_text :
      (size : ℕ)
      → size ≤ suc cap
      → length (with_text cap size text (with_header cap header log_data)) ≡ suc (suc cap)
  length-with_text size h =
      length-splice (with_header cap header log_data) size (take (suc cap - size) text ++ (0 ∷ []))
        (omega (
          arith,
          length-with_header,
          length-append (take (suc cap - size) text) (0 ∷ []),
          length-take (suc cap - size) text,
        ))
      ∙ length-with_header

  -- Up to its limit the block holds the header and the text, one behind the other.
  pub text_short :
      length header ≤ cap
      → take
          (min cap (length header + length text))
          (with_text cap (length header) text (with_header cap header log_data))
        ≡ take cap (header ++ text)
  text_short h =
      ap (λ k. take k (with_text cap (length header) text (with_header cap header log_data)))
        (omega arith)
      ∙ take-splice (with_header cap header log_data) (length header)
          (min (cap - length header) (length text)) (take (suc cap - length header) text) (0 ∷ [])
          (omega (arith, length-with_header))
          (omega (arith, length-take (suc cap - length header) text))
      ∙ ap₂ (λ a b. a ++ b)
          (take-with_header (length header) (omega arith) (omega arith)
            ∙ take_all (length header) header (omega arith))
          (take-take_le (min (cap - length header) (length text)) (suc cap - length header) text
              (omega arith)
            ∙ take-min (cap - length header) text)
      ∙ sym (take-append_ge cap header text h)

  pub text_long :
      suc cap ≤ length header
      → take cap (with_text cap (suc cap) text (with_header cap header log_data))
        ≡ take cap (header ++ text)
  text_long h =
      take-splice_before (with_header cap header log_data) (suc cap) cap
        (take (suc cap - suc cap) text ++ (0 ∷ [])) (omega (arith, length-with_header))
        (omega arith)
      ∙ take-with_header cap (omega arith) (omega arith)
      ∙ sym (take-append_le cap header text (omega arith))

  -- Whatever the length of the header, of which `size` is kept.
  pub text_lem :
      (size : ℕ)
      → size ≡ min (suc cap) (length header)
      → take
          (min cap (size + length text))
          (with_text cap size text (with_header cap header log_data))
        ≡ take cap (header ++ text)
  text_lem size e = elim (dec_lt cap (length header)) [
    | yes long ↦
        ap
          (λ n.
            take (min cap (n + length text))
              (with_text cap n text (with_header cap header log_data)))
          {x = size} {y = suc cap} (omega arith)
        ∙ ap (λ k. take k (with_text cap (suc cap) text (with_header cap header log_data)))
            {x = min cap (suc cap + length text)} {y = cap} (omega arith)
        ∙ text_long (omega arith)
    | no short ↦
        ap
          (λ n.
            take (min cap (n + length text))
              (with_text cap n text (with_header cap header log_data)))
          {x = size} {y = length header} (omega arith)
        ∙ text_short (omega arith)
  ]
