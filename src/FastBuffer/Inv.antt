-- ===== src/FastBuffer/Inv.antt =====
-- The representation invariant of the receive buffer, and what the operations that do not touch
-- the socket do to the unread bytes.
use linkedon_push.Common.{
  ℕ, ◌+◌, ◌-◌, ◌≤◌, ◌<◌, ◌≡◌, refl, sym, ap, ◌∙◌, [], ◌∷◌, ◌++◌, some, Bytes, length, take, drop,
  splice, length-splice, slice-splice_start, slice-splice_end, length-take, length-drop,
  length-replicate, drop-drop, drop-take, arith, get_elem?, Bool-cases, inl, inr, ◌==◌, lt→ltb,
  zero, suc,
}
use linkedon_push.FastBuffer.{FastBuffer, with_capacity, unread, read_1byte, read_slice, compact}

-- `start ≤ p ≤ end ≤ start + nb_buffer`, and the block has `nb_buffer` bytes at least.
pub record IsValid (fb : FastBuffer) : Type 0 where
  pub ordered : fb.p ≤ fb.end
  pub within : fb.end ≤ fb.nb_buffer
  pub allocated : fb.nb_buffer ≤ length fb.mem

pub with_capacity-IsValid : (n : ℕ) → IsValid (with_capacity n)
unfolding with_capacity
with_capacity-IsValid n = omega (arith, length-replicate {A = ℕ} n 0)

pub length-unread : {fb : FastBuffer} → IsValid fb → length (unread fb) ≡ fb.end - fb.p
length-unread {fb} v =
    omega (arith, length-take (fb.end - fb.p) (drop fb.p fb.mem), length-drop fb.p fb.mem)

-- Moving `p` on drops that many unread bytes.
pub unread-advance :
    (n : ℕ) (fb : FastBuffer) → unread (record fb { p = fb.p + n }) ≡ drop n (unread fb)
unread-advance n fb =
    ap (λ t. take (fb.end - (fb.p + n)) t) (sym (drop-drop n fb.p fb.mem))
    ∙ ap (λ k. take k (drop n (drop fb.p fb.mem))) {x = fb.end - (fb.p + n)} {y = fb.end - fb.p - n}
        (omega arith)
    ∙ sym (drop-take n (fb.end - fb.p) (drop fb.p fb.mem))

-- What `read_slice` hands out.
pub read_slice_lem :
    (n : ℕ) {fb : FastBuffer}
    → 0 < n
    → n ≤ fb.end - fb.p
    → read_slice n fb ≡ some (fb.p, record fb { p = fb.p + n })
unfolding read_slice
read_slice_lem n {fb} h k = ground arith

pub get_elem?-drop :
    (m : Bytes) (i b : ℕ) (rest : Bytes) → drop i m ≡ b ∷ rest → get_elem? m i ≡ some b
get_elem?-drop m zero b rest e = rw e
get_elem?-drop [] (suc i) b rest e = cc
get_elem?-drop (x ∷ m) (suc i) b rest e = get_elem?-drop m i b rest e

take-cons_inv :
    (n : ℕ) (xs : Bytes) {b : ℕ} {rest : Bytes} → take n xs ≡ b ∷ rest → xs ≡ b ∷ drop 1 xs
take-cons_inv zero xs e = cc
take-cons_inv (suc n) [] e = cc
take-cons_inv (suc n) (x ∷ xs) e = cc

-- `read_1byte` hands out the first unread byte and consumes it.
pub read_1byte_lem :
    {fb : FastBuffer} {b : ℕ} {rest : Bytes}
    → IsValid fb
    → unread fb ≡ b ∷ rest
    → read_1byte fb ≡ some (b, record fb { p = fb.p + 1 })
unfolding read_1byte
read_1byte_lem {fb} {b} {rest} v e = ground (
  arith,
  get_elem?-drop fb.mem fb.p b (drop 1 (drop fb.p fb.mem))
      (take-cons_inv (fb.end - fb.p) (drop fb.p fb.mem) e),
  length-unread v,
  ap length e,
)

-- On a well-formed buffer whose unread bytes do not fill the block, moving them to the start keeps
-- them, and frees all the rest of the block.
pub compact_lem :
    {fb : FastBuffer}
    → IsValid fb
    → fb.end - fb.p < fb.nb_buffer
    → (fb' : FastBuffer) × (compact fb ≡ some fb')
      × IsValid fb'
      × (unread fb' ≡ unread fb)
      × (fb'.nb_buffer ≡ fb.nb_buffer)
      × (fb'.end ≡ fb.end - fb.p)
      × (fb'.p ≡ 0)
unfolding compact
compact_lem {fb} v h = elim (Bool-cases (fb.end - fb.p == 0)) [
  | inl e ↦ (
    record fb { p = 0; end = 0 },
    rw e,
    omega arith,
    ap (λ k. take k (drop fb.p fb.mem)) {x = 0} {y = fb.end - fb.p} (ground arith),
    refl,
    ground arith,
    refl,
  )
  | inr e ↦ (
    record fb { mem = splice fb.mem 0 (unread fb); p = 0; end = fb.end - fb.p },
    rw (e, lt→ltb _ _ h),
    omega (arith, length-splice fb.mem 0 (unread fb), length-unread v),
    ap (λ k. take k (splice fb.mem 0 (unread fb))) {x = fb.end - fb.p - 0} {y = length (unread fb)}
          (omega (arith, length-unread v))
        ∙ slice-splice_start fb.mem (unread fb),
    refl,
    refl,
    refl,
  )
]

-- Bytes written at `end` join the unread ones, which stay as they were.
module _ {fb : FastBuffer} (c : Bytes) (v : IsValid fb)
    (fits : fb.end + length c ≤ fb.nb_buffer) where
  abbrev pub extended : FastBuffer
  extended = record fb { mem = splice fb.mem fb.end c; end = fb.end + length c }

  pub extended-IsValid : IsValid extended
  extended-IsValid = omega (arith, length-splice fb.mem fb.end c)

  pub unread-extended : unread extended ≡ unread fb ++ c
  unread-extended = slice-splice_end fb.mem fb.p fb.end c v.ordered (omega arith)
