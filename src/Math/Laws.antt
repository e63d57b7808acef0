-- ===== src/Math/Laws.antt =====
-- What the digit test accepts, and the shape of a digest.
use linkedon_push.Common.{
  ℕ, ◌*◌, ◌≤◌, ◌≡◌, refl, ◌↔◌, true, [], ◌∷◌, Bytes, length, arith, All, codes, c_str,
}
use linkedon_push.Math.{digit_matches, count_digits, is_interge_str, hex, md5_encoder}

abbrev pub IsDigit : ℕ → Type 0
IsDigit c = (b'0' ≤ c) × (c ≤ b'9')

-- One character counts once if it is a digit, and not at all otherwise.
one_digit : (c : ℕ) → IsDigit c → digit_matches c (codes "0123456789") ≡ 1
unfolding digit_matches
one_digit c h = ground arith

matches_le : (c : ℕ) → digit_matches c (codes "0123456789") ≤ 1
unfolding digit_matches
matches_le c = ground arith

matches-IsDigit : (c : ℕ) → digit_matches c (codes "0123456789") ≡ 1 → IsDigit c
unfolding digit_matches
matches-IsDigit c h = ground arith

count_digits-le : (s : Bytes) → count_digits s ≤ length s
unfolding count_digits
count_digits-le [] = omega arith
count_digits-le (c ∷ s) = omega (arith, matches_le c, count_digits-le s)

All-of_count : (s : Bytes) → length s ≡ count_digits s → All IsDigit s
unfolding count_digits
All-of_count [] h = tt
All-of_count (c ∷ s) h = (
  matches-IsDigit c (omega (arith, matches_le c, count_digits-le s)),
  All-of_count s (omega (arith, matches_le c, count_digits-le s)),
)

count_of_All : (s : Bytes) → All IsDigit s → length s ≡ count_digits s
unfolding count_digits
count_of_All [] h = refl
count_of_All (c ∷ s) (hc, hs) = omega (arith, one_digit c hc, count_of_All s hs)

-- `isIntergeStr` accepts exactly the strings of decimal digits, the empty string among them.
pub is_interge_str_iff : (s : Bytes) → (is_interge_str s ≡ true) ↔ All IsDigit s
unfolding is_interge_str
is_interge_str_iff s = (λ h. All-of_count s (ground arith), λ h. ground (arith, count_of_All s h))

length-hex : (bs : Bytes) → length (hex bs) ≡ 2 * length bs
unfolding hex
length-hex [] = refl
length-hex (b ∷ bs) = omega (arith, length-hex bs)

-- A digest of 16 bytes is printed in 32 characters.
pub length-md5_encoder :
    (md5 : Bytes → Bytes) (src : Bytes)
    → ((s : Bytes) → length (md5 s) ≡ 16)
    → length (md5_encoder md5 src) ≡ 32
unfolding md5_encoder
length-md5_encoder md5 src h = omega (arith, length-hex (md5 (c_str src)), h (c_str src))
