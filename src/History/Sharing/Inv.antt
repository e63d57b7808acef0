-- ===== src/History/Sharing/Inv.antt =====
-- What holds of the queue and of the pointers into it between any two steps.
use linkedon_push.Common.{
  ℕ, ◌+◌, ◌-◌, ◌≤◌, ◌≡◌, refl, ap, [], ◌∷◌, none, some, if◌then◌else◌, ◌==◌, find, nat_key, arith,
  Bool-cases, Option-cases, inl, inr, ==_iff,
}
use linkedon_push.Conn.{Entity}
use linkedon_push.History.{Pending, push_entity, pop_entity, erase_entity, find_pop}
use linkedon_push.History.Queue.{occurs}
use linkedon_push.History.Sharing.{
  Sharing, none_shared, open_conn, tail_of, take_first, withdraw, close_conn, Step, opens, takes,
  closes, Reach, here, next,
}

pub occurs-push_entity :
    (b a : ℕ) (e : Entity) (q : Pending)
    → occurs b (push_entity a e q) ≡ occurs b q + (if a == b then 1 else 0)
unfolding occurs push_entity
occurs-push_entity b a e [] = ground arith
occurs-push_entity b a e ((c, x) ∷ q) = omega (arith, occurs-push_entity b a e q)

pub occurs-erase_entity :
    (b a : ℕ) (q r : Pending)
    → erase_entity a q ≡ some r
    → occurs b q ≡ occurs b r + (if a == b then 1 else 0)
unfolding occurs erase_entity
occurs-erase_entity b a [] r e = cc
occurs-erase_entity b a ((c, x) ∷ q) r e = elim (Bool-cases (c == a)) [
  | inl own ↦ let same : q ≡ r = ground arith in ground (arith, ap (occurs b) same)
  | inr other ↦ elim (Option-cases (erase_entity a q)) [
    | inl absent ↦ absurd (ground arith)
    | inr (rest, f) ↦
        let same : (c, x) ∷ rest ≡ r = ground arith in
        ground (arith, ap (occurs b) same, occurs-erase_entity b a q rest f)
  ]
]

pub occurs_erased : (a : ℕ) (q : Pending) → erase_entity a q ≡ none → occurs a q ≡ 0
unfolding occurs erase_entity
occurs_erased a [] e = refl
occurs_erased a ((c, x) ∷ q) e = elim (Bool-cases (c == a)) [
  | inl own ↦ absurd (ground arith)
  | inr other ↦ elim (Option-cases (erase_entity a q)) [
    | inl absent ↦ ground (arith, occurs_erased a q absent)
    | inr (rest, f) ↦ absurd (ground arith)
  ]
]

-- `findPop` takes one entity away, of its own address.
pub occurs-withdraw :
    (b a : ℕ) (q : Pending)
    → occurs b (withdraw (some a) q) ≡ occurs b q - (if a == b then 1 else 0)
unfolding withdraw find_pop
occurs-withdraw b a q = elim (Option-cases (erase_entity a q)) [
  | inl absent ↦ ground (arith, occurs_erased a q absent)
  | inr (r, e) ↦ ground (arith, occurs-erase_entity b a q r e)
]

-- At most one entity lies under an address.
abbrev pub Apart : Sharing → Type 0
Apart s = (a : ℕ) → occurs a s.queue ≤ 1

pub occurs-tail_of : (b : ℕ) (q : Pending) → occurs b (tail_of (pop_entity q)) ≤ occurs b q
unfolding tail_of pop_entity occurs
occurs-tail_of b [] = omega arith
occurs-tail_of b ((a, x) ∷ q) = ground arith

pub Step-Apart : {s s' : Sharing} → Step s s' → Apart s → Apart s'
unfolding open_conn take_first close_conn
Step-Apart {s = s} (opens conn address e free fresh) v b =
    ground (arith, occurs-push_entity b address e s.queue, v b, ==_iff address b)
Step-Apart {s = s} takes v b = omega (arith, occurs-tail_of b s.queue, v b)
Step-Apart {s = s} (closes conn) v b = elim (Option-cases (find conn s.held)) [
  | inl absent ↦ rw absent (unfold withdraw in v b)
  | inr (a, e) ↦ rw e (omega (arith, occurs-withdraw b a s.queue, v b))
]

pub none_shared-Apart : Apart none_shared
unfolding occurs
none_shared-Apart a = omega arith

pub Reach-Apart : {s s' : Sharing} → Reach s s' → Apart s → Apart s'
Reach-Apart here v = v
Reach-Apart (next r st) v = Step-Apart st (Reach-Apart r v)
