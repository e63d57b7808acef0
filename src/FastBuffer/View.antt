-- ===== src/FastBuffer/View.antt =====
-- A buffer as the list of its unread bytes: what each reading operation does on that list.
use linkedon_push.Common.{
  ℕ, ◌+◌, ◌-◌, ◌≤◌, ◌<◌, ◌≡◌, refl, sym, ap, ◌∙◌, ◌∷◌, ◌++◌, some, Bytes, length, drop, arith,
  length-append, take-append-drop, drop-append_left, append_assoc,
}
use linkedon_push.FastBuffer.{FastBuffer, unread, read_slice, read_1byte}
use linkedon_push.FastBuffer.Inv.{
  IsValid, length-unread, unread-advance, read_slice_lem, read_1byte_lem,
}

pub record Holds (fb : FastBuffer) (bs : Bytes) : Type 0 where
  pub valid : IsValid fb
  pub exact : unread fb ≡ bs

-- What lies in the block behind the unread bytes.
abbrev pub stale : FastBuffer → Bytes
stale fb = drop (fb.end - fb.p) (drop fb.p fb.mem)

abbrev pub advance : ℕ → FastBuffer → FastBuffer
advance n fb = record fb { p = fb.p + n }

module _ {fb : FastBuffer} (xs rest : Bytes) (h : Holds fb (xs ++ rest)) where
  room : length xs ≤ fb.end - fb.p
  room = omega (arith, length-unread h.valid, ap length h.exact, length-append xs rest)

  pub advance-Holds : Holds (advance (length xs) fb) rest
  advance-Holds = record {
    valid = omega (arith, room, h.valid.ordered, h.valid.within, h.valid.allocated);
    exact =
        unread-advance (length xs) fb
        ∙ ap (drop (length xs)) h.exact
        ∙ drop-append_left (length xs) xs rest refl;
  }

  pub mem_at_p : drop fb.p fb.mem ≡ xs ++ (rest ++ stale fb)
  mem_at_p =
      sym (take-append-drop (fb.end - fb.p) (drop fb.p fb.mem))
      ∙ ap (λ t. t ++ stale fb) h.exact
      ∙ append_assoc xs rest (stale fb)

  pub read_slice-Holds :
      0 < length xs → read_slice (length xs) fb ≡ some (fb.p, advance (length xs) fb)
  read_slice-Holds pos = read_slice_lem (length xs) pos room

pub read_1byte-Holds :
    {fb : FastBuffer} (b : ℕ) (rest : Bytes)
    → Holds fb (b ∷ rest)
    → read_1byte fb ≡ some (b, advance 1 fb)
read_1byte-Holds b rest h = read_1byte_lem h.valid h.exact
