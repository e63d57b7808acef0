-- ===== src/Common/Text.antt =====
-- Text and memory as lists of byte values, and the string functions of the C and C++ libraries
-- that the code calls: comparison, C strings, substring search.
use Prim.Native.Char.{code}
use Prim.Native.String.{String}
use Prim.Native.Nat.{ℕ, ◌<◌, ◌≤◌}
use mathlib.Core.Path.{◌≡◌, refl}
use mathlib.Core.Logic.{◌↔◌, ◌≢◌, ◌⊎◌, inl, inr}
use mathlib.Core.Bool.{Bool, true, false, ◌&&◌, ◌||◌}
use mathlib.Core.List.{List, [], ◌∷◌, ◌++◌}
use native.Mathlib.Omega.{arith}
use linkedon_push.Common.Lists.{length}
use linkedon_push.Common.Tests.{◌==◌, if◌then◌else◌}

abbrev pub Bytes : Type 0
Bytes = List ℕ

abbrev pub IsByte : ℕ → Type 0
IsByte b = b < 256

-- The bytes of an ASCII literal.
abbrev pub codes : String → Bytes
codes String.[] = []
codes (String.◌∷◌ c s) = code c ∷ codes s

-- `operator==` of std::string.
abbrev pub bytes_eq : Bytes → Bytes → Bool
bytes_eq [] [] = true
bytes_eq [] (y ∷ ys) = false
bytes_eq (x ∷ xs) [] = false
bytes_eq (x ∷ xs) (y ∷ ys) = x == y && bytes_eq xs ys

pub bytes_eq_sound : (xs ys : Bytes) → bytes_eq xs ys ≡ true → xs ≡ ys
bytes_eq_sound [] [] h = refl
bytes_eq_sound [] (y ∷ ys) h = cc
bytes_eq_sound (x ∷ xs) [] h = cc
bytes_eq_sound (x ∷ xs) (y ∷ ys) h = ground (arith, bytes_eq_sound xs ys)

pub bytes_eq_refl : (xs : Bytes) → bytes_eq xs xs ≡ true
bytes_eq_refl [] = refl
bytes_eq_refl (x ∷ xs) = ground (arith, bytes_eq_refl xs)

pub bytes_eq_iff : (xs ys : Bytes) → (bytes_eq xs ys ≡ true) ↔ (xs ≡ ys)
bytes_eq_iff xs ys = (bytes_eq_sound xs ys, λ e. rw e (bytes_eq_refl ys))

-- `std::string::empty`.
abbrev pub is_nil : Bytes → Bool
is_nil [] = true
is_nil (x ∷ xs) = false

-- The C string that starts at a pointer: the bytes up to the first NUL.
abbrev pub c_str : Bytes → Bytes
c_str [] = []
c_str (b ∷ bs) = if b == 0 then [] else b ∷ c_str bs

abbrev pub starts_with : Bytes → Bytes → Bool
starts_with [] hay = true
starts_with (x ∷ xs) [] = false
starts_with (x ∷ xs) (y ∷ ys) = x == y && starts_with xs ys

-- `strstr(hay, needle) != NULL`, and `hay.find(needle) != npos`.
abbrev pub contains : Bytes → Bytes → Bool
contains needle [] = starts_with needle []
contains needle (y ∷ ys) = starts_with needle (y ∷ ys) || contains needle ys

pub starts_with-append : (xs ys : Bytes) → starts_with xs (xs ++ ys) ≡ true
starts_with-append [] ys = refl
starts_with-append (x ∷ xs) ys = ground (arith, starts_with-append xs ys)

pub contains_of_starts :
    (needle hay : Bytes) → starts_with needle hay ≡ true → contains needle hay ≡ true
contains_of_starts needle [] h = h
contains_of_starts needle (y ∷ ys) h = ground arith

pub starts_with-le : (xs ys : Bytes) → starts_with xs ys ≡ true → length xs ≤ length ys
starts_with-le [] ys h = omega arith
starts_with-le (x ∷ xs) [] h = cc
starts_with-le (x ∷ xs) (y ∷ ys) h = ground (arith, starts_with-le xs ys)

pub starts_with_eq : (xs ys : Bytes) → starts_with xs ys ≡ true → length xs ≡ length ys → xs ≡ ys
starts_with_eq [] [] h e = refl
starts_with_eq [] (y ∷ ys) h e = absurd (omega arith)
starts_with_eq (x ∷ xs) [] h e = cc
starts_with_eq (x ∷ xs) (y ∷ ys) h e = ground (arith, starts_with_eq xs ys)

pub Bytes-cases : (xs : Bytes) → (xs ≡ []) ⊎ (xs ≢ [])
Bytes-cases [] = inl refl
Bytes-cases (x ∷ xs) = inr (λ e. cc)
