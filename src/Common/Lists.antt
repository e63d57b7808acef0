-- ===== src/Common/Lists.antt =====
-- Lists measured and indexed by native numbers, under the library's names, and the windows of a
-- block of memory: `slice` reads one, `splice` writes one.
use Prim.Native.Nat.{ℕ, zero, suc, ◌+◌, ◌-◌, ◌≤◌, min}
use mathlib.Core.Path.{◌≡◌, refl, sym, ◌∙◌, ap}
use mathlib.Core.List.{List, [], ◌∷◌, ◌++◌, append_assoc}
use mathlib.Core.Option.{Option, none, some}
use native.Mathlib.Omega.{arith}

module _ {ℓ} {A : Type ℓ} where
  abbrev pub length : List A → ℕ
  length [] = 0
  length (x ∷ xs) = suc (length xs)

  abbrev pub get_elem? : List A → ℕ → Option A
  get_elem? [] i = none
  get_elem? (x ∷ xs) zero = some x
  get_elem? (x ∷ xs) (suc i) = get_elem? xs i

  abbrev pub take : ℕ → List A → List A
  take zero xs = []
  take (suc n) [] = []
  take (suc n) (x ∷ xs) = x ∷ take n xs

  abbrev pub drop : ℕ → List A → List A
  drop zero xs = xs
  drop (suc n) [] = []
  drop (suc n) (x ∷ xs) = drop n xs

  abbrev pub replicate : ℕ → A → List A
  replicate zero a = []
  replicate (suc n) a = a ∷ replicate n a

  -- The predicate at every element.
  abbrev pub All {κ} : (A → Type κ) → List A → Type κ
  All P [] = Unit {κ}
  All P (x ∷ xs) = P x × All P xs

  pub length-append : (xs ys : List A) → length (xs ++ ys) ≡ length xs + length ys
  length-append [] ys = omega arith
  length-append (x ∷ xs) ys = omega (arith, length-append xs ys)

  pub length-take : (n : ℕ) (xs : List A) → length (take n xs) ≡ min n (length xs)
  length-take zero xs = omega arith
  length-take (suc n) [] = omega arith
  length-take (suc n) (x ∷ xs) = omega (arith, length-take n xs)

  pub length-drop : (n : ℕ) (xs : List A) → length (drop n xs) ≡ length xs - n
  length-drop zero xs = omega arith
  length-drop (suc n) [] = omega arith
  length-drop (suc n) (x ∷ xs) = omega (arith, length-drop n xs)

  pub length-replicate : (n : ℕ) (a : A) → length (replicate n a) ≡ n
  length-replicate zero a = refl
  length-replicate (suc n) a = ap suc (length-replicate n a)

  pub take-append-drop : (n : ℕ) (xs : List A) → take n xs ++ drop n xs ≡ xs
  take-append-drop zero xs = refl
  take-append-drop (suc n) [] = refl
  take-append-drop (suc n) (x ∷ xs) = ap (λ t. x ∷ t) (take-append-drop n xs)

  pub take_all : (n : ℕ) (xs : List A) → length xs ≤ n → take n xs ≡ xs
  take_all zero [] h = refl
  take_all zero (x ∷ xs) h = absurd (omega arith)
  take_all (suc n) [] h = refl
  take_all (suc n) (x ∷ xs) h = ap (λ t. x ∷ t) (take_all n xs (omega arith))

  pub take-append_left : (n : ℕ) (xs ys : List A) → length xs ≡ n → take n (xs ++ ys) ≡ xs
  take-append_left zero [] ys h = refl
  take-append_left zero (x ∷ xs) ys h = absurd (omega arith)
  take-append_left (suc n) [] ys h = absurd (omega arith)
  take-append_left (suc n) (x ∷ xs) ys h = ap (λ t. x ∷ t) (take-append_left n xs ys (omega arith))

  pub drop-append_left : (n : ℕ) (xs ys : List A) → length xs ≡ n → drop n (xs ++ ys) ≡ ys
  drop-append_left zero [] ys h = refl
  drop-append_left zero (x ∷ xs) ys h = absurd (omega arith)
  drop-append_left (suc n) [] ys h = absurd (omega arith)
  drop-append_left (suc n) (x ∷ xs) ys h = drop-append_left n xs ys (omega arith)

  pub drop-append_le :
      (n : ℕ) (xs ys : List A) → n ≤ length xs → drop n (xs ++ ys) ≡ drop n xs ++ ys
  drop-append_le zero xs ys h = refl
  drop-append_le (suc n) [] ys h = absurd (omega arith)
  drop-append_le (suc n) (x ∷ xs) ys h = drop-append_le n xs ys (omega arith)

  pub take-append_le : (n : ℕ) (xs ys : List A) → n ≤ length xs → take n (xs ++ ys) ≡ take n xs
  take-append_le zero xs ys h = refl
  take-append_le (suc n) [] ys h = absurd (omega arith)
  take-append_le (suc n) (x ∷ xs) ys h = ap (λ t. x ∷ t) (take-append_le n xs ys (omega arith))

pub take-nil {ℓ} : (A : Type ℓ) (n : ℕ) → take {A = A} n [] ≡ []
take-nil A zero = refl
take-nil A (suc n) = refl

pub drop-nil {ℓ} : (A : Type ℓ) (n : ℕ) → drop {A = A} n [] ≡ []
drop-nil A zero = refl
drop-nil A (suc n) = refl

module _ {ℓ} {A : Type ℓ} where
  pub drop-take : (p e : ℕ) (xs : List A) → drop p (take e xs) ≡ take (e - p) (drop p xs)
  drop-take zero e xs = ap (λ k. take k xs) (omega arith)
  drop-take (suc p) zero xs =
      sym (ap (λ k. take k (drop (suc p) xs)) {x = 0 - suc p} {y = 0} (omega arith))
  drop-take (suc p) (suc e) [] = sym (take-nil A (suc e - suc p))
  drop-take (suc p) (suc e) (x ∷ xs) = drop-take p e xs ∙ ap (λ k. take k (drop p xs)) (omega arith)

  pub drop-drop : (m n : ℕ) (xs : List A) → drop m (drop n xs) ≡ drop (n + m) xs
  drop-drop m zero xs = ap (λ k. drop k xs) (omega arith)
  drop-drop m (suc n) [] = drop-nil A m ∙ sym (drop-nil A (suc n + m))
  drop-drop m (suc n) (x ∷ xs) =
      drop-drop m n xs ∙ ap (λ k. drop k (x ∷ xs)) {x = suc (n + m)} (omega arith)

  pub take-take_add : (m n : ℕ) (xs : List A) → take (m + n) xs ≡ take m xs ++ take n (drop m xs)
  take-take_add zero n xs = ap (λ k. take k xs) (omega arith)
  take-take_add (suc m) n [] = rw (take-nil A (suc m + n), take-nil A n)
  take-take_add (suc m) n (x ∷ xs) =
      ap (λ k. take k (x ∷ xs)) {y = suc (m + n)} (omega arith)
      ∙ ap (λ t. x ∷ t) (take-take_add m n xs)

  -- `n` elements from index `i` on.
  abbrev pub slice : List A → ℕ → ℕ → List A
  slice m i n = take n (drop i m)

  -- The block `m` after the elements `c` were written from index `i` on.
  unfoldable pub splice : List A → ℕ → List A → List A
  splice m i c = take i m ++ (c ++ drop (i + length c) m)

  pub length-splice :
      (m : List A) (i : ℕ) (c : List A) → i + length c ≤ length m → length (splice m i c) ≡ length m
  unfolding splice
  length-splice m i c h = omega (
    arith,
    length-append (take i m) (c ++ drop (i + length c) m),
    length-append c (drop (i + length c) m),
    length-take i m,
    length-drop (i + length c) m,
  )

  -- Writing just past a window extends the window by what was written.
  pub slice-splice_end :
      (m : List A) (p e : ℕ) (c : List A)
      → p ≤ e
      → e + length c ≤ length m
      → slice (splice m e c) p (e + length c - p) ≡ slice m p (e - p) ++ c
  unfolding splice
  slice-splice_end m p e c hp he =
      ap (take (e + length c - p))
        (drop-append_le p (take e m) rest (omega (arith, length-take e m)))
      ∙ ap (take (e + length c - p)) (sym (append_assoc (drop p (take e m)) c tail))
      ∙ take-append_left (e + length c - p) (drop p (take e m) ++ c) tail (
          omega
            (arith, length-append (drop p (take e m)) c, length-drop p (take e m), length-take e m))
      ∙ ap (λ t. t ++ c) (drop-take p e m)
    where
      tail : List A
      tail = drop (e + length c) m

      rest : List A
      rest = c ++ tail

  -- What was written at the start is read back from the start.
  pub slice-splice_start : (m c : List A) → slice (splice m 0 c) 0 (length c) ≡ c
  unfolding splice
  slice-splice_start m c = take-append_left (length c) c (drop (0 + length c) m) refl
