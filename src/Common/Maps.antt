-- ===== src/Common/Maps.antt =====
-- Maps of strings that hold each key once, filled entry by entry.
use mathlib.Core.Path.{◌≡◌, refl, ap}
use mathlib.Core.Logic.{inl, inr}
use mathlib.Core.Bool.{false}
use mathlib.Core.List.{[], ◌∷◌, ◌++◌}
use mathlib.Core.Option.{none, some}
use native.Mathlib.Omega.{arith}
use linkedon_push.Common.Assoc.{StringMap, find, insert_new, bytes_key}
use linkedon_push.Common.Tests.{Bool-cases}
use linkedon_push.Common.Text.{Bytes, bytes_eq, bytes_eq_iff}

-- A map has each key once.
abbrev pub Distinct : StringMap → Type 0
Distinct [] = Unit
Distinct ((k, v) ∷ m) = (find k m ≡ none) × Distinct m

-- A new key goes behind those that are there.
pub insert_new-append :
    (k v : Bytes) (m : StringMap) → find k m ≡ none → insert_new k v m ≡ m ++ ((k, v) ∷ [])
insert_new-append k v [] e = refl
insert_new-append k v ((j, w) ∷ m) e = elim (Bool-cases (bytes_eq j k)) [
  | inl s ↦ absurd (ground arith)
  | inr n ↦ rw n (ap (λ t. (j, w) ∷ t) (insert_new-append k v m (rw n at e)))
]

-- A key of the rest of a map is not the key of its first entry.
pub find_rest :
    (k v j w : Bytes) (rest : StringMap)
    → find k rest ≡ none
    → find j rest ≡ some w
    → (bytes_eq k j ≡ false) × (find j ((k, v) ∷ rest) ≡ some w)
find_rest k v j w rest fresh e = elim (Bool-cases (bytes_eq k j)) [
  | inl s ↦ absurd (ground (arith, bytes_eq_iff k j))
  | inr n ↦ (n, rw n e)
]

pub find-append_none :
    (j k v : Bytes) (front : StringMap)
    → find j front ≡ none
    → bytes_eq k j ≡ false
    → find j (front ++ ((k, v) ∷ [])) ≡ none
find-append_none j k v [] e n = rw n refl
find-append_none j k v ((i, u) ∷ front) e n = elim (Bool-cases (bytes_eq i j)) [
  | inl s ↦ absurd (ground arith)
  | inr o ↦ rw o (find-append_none j k v front (rw o at e) n)
]
