-- ===== src/Protocol/Flag.antt =====
-- What `readHeader` accepts as the flag, and what it guarantees of a header that it returns.
use linkedon_push.Common.{
  ℕ, ◌-◌, ◌≤◌, ◌≡◌, ◌≢◌, refl, sym, ap, ◌∙◌, Bool, true, false, [], ◌∷◌, ◌++◌, some, Bytes, length,
  arith, contains, c_str, starts_with-append, contains_of_starts, All, >>=-eq-some, if◌then◌else◌,
  append_assoc, length-append, drop, take-append-drop,
}
use linkedon_push.Errors.{error_success, error_system_file_read}
use linkedon_push.FastBuffer.{FastBuffer, read_slice, read_1byte}
use linkedon_push.FastBuffer.Inv.{read_slice_lem, length-unread}
use linkedon_push.FastBuffer.View.{Holds, advance, stale}
use linkedon_push.Protocol.{
  Header, lpush_flag, handshake_data_max, flag_found, read_fields, read_header, int_at,
}

contains-append : (junk needle rest : Bytes) → contains needle (junk ++ (needle ++ rest)) ≡ true
contains-append [] needle rest =
    contains_of_starts needle (needle ++ rest) (starts_with-append needle rest)
contains-append (j ∷ junk) needle rest = ground (arith, contains-append junk needle rest)

c_str-append : (xs ys : Bytes) → All (λ b. b ≢ 0) xs → c_str (xs ++ ys) ≡ xs ++ c_str ys
c_str-append [] ys h = refl
c_str-append (x ∷ xs) ys (hx, hxs) = ground (arith, c_str-append xs ys hxs)

-- The flag need not stand at the start: on a buffer where it follows any bytes but NUL it is found
-- too, and `readHeader` goes on to take its fields from five bytes behind the start, wherever the
-- flag really stood.
pub flag_anywhere :
    (junk rest : Bytes) (lph : Header) {fb : FastBuffer}
    → Holds fb (junk ++ (lpush_flag ++ rest))
    → All (λ b. b ≢ 0) junk
    → read_header lph fb ≡ read_fields lph (advance 5 fb)
unfolding read_header flag_found
flag_anywhere junk rest lph {fb} h clean =
    rw (read_slice_lem 5 {fb = fb} (omega arith) enough, found)
  where
    enough : 5 ≤ fb.end - fb.p
    enough =
        omega
          (arith, length-unread h.valid, ap length h.exact, length-append junk (lpush_flag ++ rest))

    at_p : drop fb.p fb.mem ≡ junk ++ (lpush_flag ++ (rest ++ stale fb))
    at_p =
        sym (take-append-drop (fb.end - fb.p) (drop fb.p fb.mem))
        ∙ ap (λ t. t ++ stale fb) h.exact
        ∙ append_assoc junk (lpush_flag ++ rest) (stale fb)

    found : flag_found (advance 5 fb) fb.p ≡ true
    found =
        rw (flag_found, at_p, c_str-append junk (lpush_flag ++ (rest ++ stale fb)) clean)
          (contains-append junk lpush_flag (c_str (rest ++ stale fb)))

slice_moves :
    (n : ℕ) (fb fb' : FastBuffer) (ptr : ℕ) → read_slice n fb ≡ some (ptr, fb') → fb' ≡ advance n fb
unfolding read_slice
slice_moves n fb fb' ptr e = ground arith

slice_from :
    (n : ℕ) (fb fb' : FastBuffer) (ptr : ℕ) → read_slice n fb ≡ some (ptr, fb') → ptr ≡ fb.p
unfolding read_slice
slice_from n fb fb' ptr e = ground arith

byte_moves : (fb fb' : FastBuffer) (b : ℕ) → read_1byte fb ≡ some (b, fb') → fb' ≡ advance 1 fb
unfolding read_1byte
byte_moves fb fb' b e = ground arith

fields_sound :
    (lph h : Header) (fb fb' : FastBuffer)
    → read_fields lph fb ≡ some (error_success, h, fb')
    → (1 ≤ h.datalenght)
      × (h.datalenght ≤ handshake_data_max)
      × (fb' ≡ advance 4 (advance 1 (advance 4 fb)))
unfolding read_fields
fields_sound lph h fb fb' e =
    let ((ptr, fb1), s1, e1) = >>=-eq-some (read_slice 4 fb) _ e in
    let (time, t1, e2) = >>=-eq-some (int_at fb1 ptr) _ e1 in
    let ((type, fb2), s2, e3) = >>=-eq-some (read_1byte fb1) _ e2 in
    let ((ptr3, fb3), s3, e4) = >>=-eq-some (read_slice 4 fb2) _ e3 in
    let (len, t2, e5) = >>=-eq-some (int_at fb3 ptr3) _ e4 in
    let moved : fb3 ≡ advance 4 (advance 1 (advance 4 fb)) =
      slice_moves 4 fb2 fb3 ptr3 s3
      ∙ ap (advance 4)
          (byte_moves fb1 fb2 type s2 ∙ ap (advance 1) (slice_moves 4 fb fb1 ptr s1)) in
    (ground (arith, e5), ground (arith, e5), ground (arith, e5, moved))

on_success :
    (lph h : Header) (fb fb' : FastBuffer) (found : Bool)
    → (if found then read_fields lph fb else some (error_system_file_read, lph, fb))
      ≡ some (error_success, h, fb')
    → (found ≡ true) × (read_fields lph fb ≡ some (error_success, h, fb'))
on_success lph h fb fb' true e = (refl, e)
on_success lph h fb fb' false e = ground (arith, e)

-- A header that `readHeader` accepts cost exactly 14 bytes, whatever was in the buffer: the flag occurs in
-- what follows, and the announced length lies between 1 and 400.
pub read_header_sound :
    (lph h : Header) (fb fb' : FastBuffer)
    → read_header lph fb ≡ some (error_success, h, fb')
    → (flag_found (advance 5 fb) fb.p ≡ true)
      × (1 ≤ h.datalenght)
      × (h.datalenght ≤ handshake_data_max)
      × (fb' ≡ advance 14 fb)
unfolding read_header
read_header_sound lph h fb fb' e =
    let ((at, fb1), s1, e1) = >>=-eq-some (read_slice 5 fb) _ e in
    let at_p : flag_found fb1 at ≡ flag_found (advance 5 fb) fb.p =
      ap (λ r. flag_found r at) (slice_moves 5 fb fb1 at s1)
      ∙ ap (flag_found (advance 5 fb)) (slice_from 5 fb fb1 at s1) in
    let (y, read) = on_success lph h fb1 fb' (flag_found fb1 at) e1 in
    let (low, high, moved) = fields_sound lph h fb1 fb' read in
    (
      sym at_p ∙ y,
      low,
      high,
      moved
          ∙ ap (λ r. advance 4 (advance 1 (advance 4 r))) (slice_moves 5 fb fb1 at s1)
          ∙ ap (λ k. record fb { p = k }) (omega arith),
    )
