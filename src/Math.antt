-- ===== src/Math.antt =====
-- src/kernel/lpushMath.cpp: digit strings, and the hexadecimal MD5 digest. `MD5` itself belongs to
-- OpenSSL: it is the argument `md5`.
pub mod Laws
use linkedon_push.Common.{
  ℕ, ◌+◌, ◌/◌, ◌%◌, Bool, true, false, ◌&&◌, List, [], ◌∷◌, ◌++◌, ◌==◌, if◌then◌else◌, leb, Bytes,
  length, c_str, codes, get_elem?, is_nil, ◌||◌,
}

-- `empty(int)` and `empty(std::string)`; the `int` is a bit pattern.
unfoldable pub empty_int : ℕ → Bool
empty_int w = w == 0 || leb 2147483648 w

unfoldable pub empty_string : Bytes → Bool
empty_string s = is_nil s

-- The inner loop of `isIntergeStr`: how many of the ten digits equal the character.
unfoldable pub digit_matches : ℕ → Bytes → ℕ
digit_matches c [] = 0
digit_matches c (d ∷ ds) = (if c == d then 1 else 0) + digit_matches c ds

unfoldable pub count_digits : Bytes → ℕ
unfolding digit_matches
count_digits [] = 0
count_digits (c ∷ cs) = digit_matches c (codes "0123456789") + count_digits cs

unfoldable pub is_interge_str : Bytes → Bool
unfolding count_digits
is_interge_str src = length src == count_digits src

-- The `%x` of a number below 16.
unfoldable pub hex_digit : ℕ → ℕ
hex_digit d = if leb d 9 then b'0' + d else b'W' + d

-- `sprintf(&mdString[i*2], "%02x", digest[i])` for each byte.
unfoldable pub hex : Bytes → Bytes
unfolding hex_digit
hex [] = []
hex (b ∷ bs) = hex_digit (b / 16 % 16) ∷ hex_digit (b % 16) ∷ hex bs

-- `strlen(str)` bytes are hashed: those before the first NUL.
unfoldable pub md5_encoder : (Bytes → Bytes) → Bytes → Bytes
unfolding hex
md5_encoder md5 src = hex (md5 (c_str src))
