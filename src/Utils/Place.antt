-- ===== src/Utils/Place.antt =====
-- When `checkProDir` accepts the working directory.
use linkedon_push.Common.{
  starts_with-le, starts_with_eq, ℕ, zero, suc, ◌+◌, ◌<◌, ◌≤◌, ◌^◌, ◌≡◌, ◌≢◌, ◌↔◌, refl, sym, ap,
  ◌∙◌, true, false, [], ◌∷◌, ◌++◌, Option, none, some, Bytes, length, take, drop, starts_with,
  arith, length-append, length-drop, length-take, take-append-drop, drop-append_left,
  starts_with-append, append-nil, Bool-cases, Option-cases, inl, inr, leb, ltb, lt→ltb,
}
use linkedon_push.Utils.{
  shift, index_of, find_from, pro_suffix, ends_there, at_index, get_current_direct, check_pro_dir,
}

shift-ne-zero : (o : Option ℕ) → shift 1 o ≢ some 0
shift-ne-zero none e = cc
shift-ne-zero (some k) e = absurd (ground arith)

shift-suc : (o : Option ℕ) (i : ℕ) → shift 1 o ≡ some (suc i) → o ≡ some i
shift-suc none i e = cc
shift-suc (some k) i e = ground arith

-- What is found is an occurrence, and none stands before it.
pub record FirstAt (needle hay : Bytes) (i : ℕ) : Type 0 where
  pub there : starts_with needle (drop i hay) ≡ true
  pub inside : i ≤ length hay
  pub none_before : (j : ℕ) → j < i → starts_with needle (drop j hay) ≡ false

FirstAt-cons :
    (needle : Bytes) (y : ℕ) (ys : Bytes) (i : ℕ)
    → starts_with needle (y ∷ ys) ≡ false
    → FirstAt needle ys i
    → FirstAt needle (y ∷ ys) (suc i)
FirstAt-cons needle y ys i n f = record {
  there = f.there;
  inside = omega (arith, f.inside);
  none_before = earlier;
}
  where
    earlier : (j : ℕ) → j < suc i → starts_with needle (drop j (y ∷ ys)) ≡ false
    earlier zero l = n
    earlier (suc j) l = f.none_before j (omega arith)

pub index_of-FirstAt :
    (needle hay : Bytes) (i : ℕ) → index_of needle hay ≡ some i → FirstAt needle hay i
unfolding index_of
index_of-FirstAt needle [] zero e = record {
  there = ground arith;
  inside = omega arith;
  none_before = λ j l. absurd (omega arith);
}
index_of-FirstAt needle [] (suc i) e = absurd (ground arith)
index_of-FirstAt needle (y ∷ ys) zero e = record {
  there = elim (Bool-cases (starts_with needle (y ∷ ys))) [
    | inl s ↦ s
    | inr n ↦ absurd (shift-ne-zero (index_of needle ys) (rw n at e))
  ];
  inside = omega arith;
  none_before = λ j l. absurd (omega arith);
}
index_of-FirstAt needle (y ∷ ys) (suc i) e = elim (Bool-cases (starts_with needle (y ∷ ys))) [
  | inl s ↦ absurd (ground arith)
  | inr n ↦
      FirstAt-cons needle y ys i n
        (index_of-FirstAt needle ys i (shift-suc (index_of needle ys) i (rw n at e)))
]

pub FirstAt-index_of :
    (needle hay : Bytes) (i : ℕ) → FirstAt needle hay i → index_of needle hay ≡ some i
unfolding index_of
FirstAt-index_of needle [] zero f = rw f.there refl
FirstAt-index_of needle [] (suc i) f = absurd (omega (arith, f.inside))
FirstAt-index_of needle (y ∷ ys) zero f = rw f.there refl
FirstAt-index_of needle (y ∷ ys) (suc i) f =
    rw (f.none_before 0 (omega arith))
      (ap (shift 1) (FirstAt-index_of needle ys i later) ∙ ap some (omega arith))
  where
    later : FirstAt needle ys i
    later = record {
      there = f.there;
      inside = omega (arith, f.inside);
      none_before = λ j l. f.none_before (suc j) (omega arith);
    }

-- A text that is longer does not occur.
index_of_short : (needle hay : Bytes) → length hay < length needle → index_of needle hay ≡ none
unfolding index_of
index_of_short needle [] l = elim (Bool-cases (starts_with needle [])) [
  | inl s ↦ absurd (omega (arith, starts_with-le needle [] s))
  | inr n ↦ rw n refl
]
index_of_short needle (y ∷ ys) l = elim (Bool-cases (starts_with needle (y ∷ ys))) [
  | inl s ↦ absurd (omega (arith, starts_with-le needle (y ∷ ys) s))
  | inr n ↦ rw n (ap (shift 1) (index_of_short needle ys (omega arith)))
]

-- A directory below which the project's name stands once more is none: the first occurrence has to
-- be the last part.
pub record IsProDir (name cwd : Bytes) : Type 0 where
  pub above : Bytes
  pub above_ne_nil : above ≢ []
  pub cwd_eq : cwd ≡ above ++ name
  pub first : (j : ℕ) → j < length above → starts_with name (drop j cwd) ≡ false

ends_there_lem :
    (o : Option ℕ) (n m i : ℕ) → n < 2 ^ 31 → m + i ≤ n → ends_there o n m i ≡ true → m + i ≡ n
unfolding ends_there
ends_there_lem none n m i l f e = ground arith
ends_there_lem (some k) n m i l f e = cc

find_from_short :
    (name cwd : Bytes) (i : ℕ) → i + length name ≡ length cwd → find_from name cwd (i + 1) ≡ none
unfolding find_from
find_from_short name cwd i e = elim (Bool-cases (leb (i + 1) (length cwd))) [
  | inl s ↦ rw s (
      ap (shift (i + 1))
        (index_of_short name (drop (i + 1) cwd) (ground (arith, length-drop (i + 1) cwd))))
  | inr n ↦ rw n refl
]

length_eq_zero : (xs : Bytes) → length xs ≡ 0 → xs ≡ []
length_eq_zero [] e = refl
length_eq_zero (x ∷ xs) e = absurd (omega arith)

length_pos : (xs : Bytes) → xs ≢ [] → 0 < length xs
length_pos [] n = absurd (n refl)
length_pos (x ∷ xs) n = omega arith

FirstAt-IsProDir :
    (name cwd : Bytes) (i : ℕ)
    → FirstAt name cwd i
    → 0 < i
    → length name + i ≡ length cwd
    → IsProDir name cwd
FirstAt-IsProDir name cwd i f pos e = record {
  above = take i cwd;
  above_ne_nil = λ z. absurd (omega (arith, length-take i cwd, ap length z));
  cwd_eq =
      sym (take-append-drop i cwd)
      ∙ ap (λ t. take i cwd ++ t)
          (sym (starts_with_eq name (drop i cwd) f.there (omega (arith, length-drop i cwd))));
  first = λ j l. f.none_before j (omega (arith, length-take i cwd));
}

at_index_sound :
    (name cwd : Bytes) (i : ℕ)
    → length cwd < 2 ^ 31
    → FirstAt name cwd i
    → at_index name cwd (some i) ≡ true
    → IsProDir name cwd
unfolding at_index
at_index_sound name cwd i small f e = elim (Bool-cases (ltb 0 i)) [
  | inl pos ↦ FirstAt-IsProDir name cwd i f (ground arith) (
      ends_there_lem (find_from name cwd (i + 1)) (length cwd) (length name) i small
        (omega (arith, starts_with-le name (drop i cwd) f.there, length-drop i cwd, f.inside))
        (rw pos at e))
  | inr n ↦ absurd (ground arith)
]

at_index_complete :
    (name cwd : Bytes) (d : IsProDir name cwd)
    → length cwd < 2 ^ 31
    → at_index name cwd (some (length d.above)) ≡ true
unfolding at_index ends_there
at_index_complete name cwd d small =
    let sizes : length d.above + length name ≡ length cwd =
      omega (arith, length-append d.above name, ap length d.cwd_eq) in
    rw (lt→ltb 0 (length d.above) (length_pos d.above d.above_ne_nil))
      (rw (find_from_short name cwd (length d.above) sizes) (ground arith))

IsProDir-FirstAt : (name cwd : Bytes) (d : IsProDir name cwd) → FirstAt name cwd (length d.above)
IsProDir-FirstAt name cwd d = record {
  there =
      ap (starts_with name) (
        ap (drop (length d.above)) d.cwd_eq
        ∙ drop-append_left _ d.above name refl
        ∙ sym (append-nil name))
      ∙ starts_with-append name [];
  inside = omega (arith, length-append d.above name, ap length d.cwd_eq);
  none_before = d.first;
}

-- For a working directory of less than 260 bytes, the size of the buffer that it is read into, `checkProDir` returns true exactly if the path is
-- some non-empty text and then the project's name, which is `LPUSH_PROJECT_NAME` where the
-- configuration has none, and the name occurs nowhere before that in the path.
pub check_pro_dir_iff :
    (default project_dir memory cwd : Bytes)
    → length cwd < 260
    → (check_pro_dir default project_dir memory (some cwd) ≡ true)
      ↔ IsProDir (pro_suffix default project_dir) cwd
unfolding check_pro_dir get_current_direct
check_pro_dir_iff default project_dir memory cwd short =
    let name = pro_suffix default project_dir in
    let small : length cwd < 2147483648 = omega arith in
    rw (lt→ltb (length cwd) 260 short) (
      λ e. elim (Option-cases (index_of name cwd)) [
        | inl absent ↦ absurd (ground arith)
        | inr (i, o) ↦ at_index_sound name cwd i small (index_of-FirstAt name cwd i o) (rw o at e)
      ],
      λ d.
          ap (at_index name cwd) (FirstAt-index_of name cwd _ (IsProDir-FirstAt name cwd d))
          ∙ at_index_complete name cwd d small,
    )
