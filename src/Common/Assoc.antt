-- ===== src/Common/Assoc.antt =====
-- `std::map` as an association list: `insert` leaves a key that is there alone, `erase` takes a
-- key out, and `operator[]` reads a missing key of a map of strings as the empty string.
use Prim.Native.Nat.{ℕ}
use mathlib.Core.Path.{◌≡◌, sym}
use mathlib.Core.Logic.{◌↔◌, ◌⊎◌, ◌≢◌, inl, inr}
use mathlib.Core.Bool.{Bool, true}
use mathlib.Core.List.{List, [], ◌∷◌}
use mathlib.Core.Option.{Option, none, some}
use native.Mathlib.Omega.{arith}
use linkedon_push.Common.Tests.{if◌then◌else◌, ◌==◌, Bool-cases}
use linkedon_push.Common.Text.{Bytes, bytes_eq, bytes_eq_iff}

-- What a key type must bring: its equality.
pub record Key (K : Type 0) : Type 0 where
  pub same : K → K → Bool
  pub same_iff : (a b : K) → (same a b ≡ true) ↔ (a ≡ b)

pub ==_iff : (a b : ℕ) → ((a == b) ≡ true) ↔ (a ≡ b)
==_iff a b = ground arith

instance abbrev pub bytes_key : Key Bytes
bytes_key = record { same = bytes_eq; same_iff = bytes_eq_iff }

instance abbrev pub nat_key : Key ℕ
nat_key = record { same = ◌==◌; same_iff = ==_iff }

-- What an insertion, and what a write to a key that is there, makes of the old value.
module _ {V : Type 0} where
  abbrev pub or_else : Option V → V → Option V
  or_else none v = some v
  or_else (some w) v = some w

  abbrev pub put_over : Option V → V → Option V
  put_over none v = none
  put_over (some w) v = some v

module _ {K : Type 0} {V : Type 0} ⦃e : Key K⦄ where
  abbrev pub find : K → List (K × V) → Option V
  find k [] = none
  find k ((j, v) ∷ m) = if e.same j k then some v else find k m

  abbrev pub insert_new : K → V → List (K × V) → List (K × V)
  insert_new k v [] = (k, v) ∷ []
  insert_new k v ((j, w) ∷ m) = if e.same j k then (j, w) ∷ m else (j, w) ∷ insert_new k v m

  abbrev pub erase_key : K → List (K × V) → List (K × V)
  erase_key k [] = []
  erase_key k ((j, w) ∷ m) = if e.same j k then erase_key k m else (j, w) ∷ erase_key k m

  -- A write to a key that is there.
  abbrev pub replace : K → V → List (K × V) → List (K × V)
  replace k v [] = []
  replace k v ((j, w) ∷ m) = if e.same j k then (j, v) ∷ replace k v m else (j, w) ∷ replace k v m

  pub find-insert_new :
      (k j : K) (v : V) (m : List (K × V))
      → find j (insert_new k v m) ≡ (if e.same k j then or_else (find k m) v else find j m)
  find-insert_new k j v [] = ground (arith, e.same_iff k k)
  find-insert_new k j v ((i, w) ∷ m) = ground (
    arith,
    e.same_iff k j,
    e.same_iff i k,
    e.same_iff i j,
    e.same_iff k k,
    find-insert_new k j v m,
  )

  pub find-erase_key :
      (k j : K) (m : List (K × V))
      → find j (erase_key k m) ≡ (if e.same k j then none else find j m)
  find-erase_key k j [] = ground arith
  find-erase_key k j ((i, w) ∷ m) =
      ground (arith, e.same_iff k j, e.same_iff i k, e.same_iff i j, find-erase_key k j m)

  pub find-replace :
      (k j : K) (v : V) (m : List (K × V))
      → find j (replace k v m) ≡ (if e.same k j then put_over (find k m) v else find j m)
  find-replace k j v [] = ground arith
  find-replace k j v ((i, w) ∷ m) =
      ground (arith, e.same_iff k j, e.same_iff i k, e.same_iff i j, find-replace k j v m)

module _ {K : Type 0} {V : Type 0} ⦃e : Key K⦄ (m : List (K × V)) where
  -- What stands in a map after an insertion under a free key, and what does not move.
  pub insert_new_inv :
      (k j : K) (v w : V)
      → find k m ≡ none
      → find j (insert_new k v m) ≡ some w
      → ((j ≡ k) × (w ≡ v)) ⊎ (find j m ≡ some w)
  insert_new_inv k j v w free h = elim (Bool-cases (e.same k j)) [
    | inl s ↦ inl (sym ((e.same_iff k j).0 s), ground (arith, find-insert_new k j v m))
    | inr s ↦ inr (ground (arith, find-insert_new k j v m))
  ]

  pub insert_new_keeps :
      (k j : K) (v w : V) → find j m ≡ some w → find j (insert_new k v m) ≡ some w
  insert_new_keeps k j v w h = ground (arith, find-insert_new k j v m, e.same_iff k j)

  pub insert_new_here : (k : K) (v : V) → find k m ≡ none → find k (insert_new k v m) ≡ some v
  insert_new_here k v free = ground (arith, find-insert_new k k v m, e.same_iff k k)

  pub insert_new_other : (k j : K) (v : V) → k ≢ j → find j (insert_new k v m) ≡ find j m
  insert_new_other k j v ne = ground (arith, find-insert_new k j v m, e.same_iff k j)

  pub erase_key_inv :
      (k j : K) (w : V) → find j (erase_key k m) ≡ some w → (k ≢ j) × (find j m ≡ some w)
  erase_key_inv k j w h = (
    λ p. ground (arith, find-erase_key k j m, e.same_iff k j),
    ground (arith, find-erase_key k j m, e.same_iff k j),
  )

  pub erase_key_other : (k j : K) → k ≢ j → find j (erase_key k m) ≡ find j m
  erase_key_other k j ne = ground (arith, find-erase_key k j m, e.same_iff k j)

  pub erase_key-none : (k j : K) → find j m ≡ none → find j (erase_key k m) ≡ none
  erase_key-none k j h = ground (arith, find-erase_key k j m)

abbrev pub StringMap : Type 0
StringMap = List (Bytes × Bytes)

abbrev pub get_or_nil : Option Bytes → Bytes
get_or_nil none = []
get_or_nil (some v) = v

-- `params[key]`.
abbrev pub value_of : StringMap → Bytes → Bytes
value_of m k = get_or_nil (find k m)
