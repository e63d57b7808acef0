-- ===== src/History/Queue.antt =====
-- The queue of the history thread: what `findPop` takes out.
use linkedon_push.Common.{ℕ, ◌+◌, ◌≡◌, refl, [], ◌∷◌, none, some, if◌then◌else◌, ◌==◌, arith}
use linkedon_push.Errors.{error_success, minus_two}
use linkedon_push.Conn.{Entity}
use linkedon_push.History.{Pending, push_entity, pop_entity, copy_entity, erase_entity, find_pop}

-- How often an address stands in the queue.
unfoldable pub occurs : ℕ → Pending → ℕ
occurs address [] = 0
occurs address ((a, e) ∷ queue) = (if a == address then 1 else 0) + occurs address queue

erase_entity-push :
    (address : ℕ) (e : Entity) (queue : Pending)
    → occurs address queue ≡ 0
    → erase_entity address (push_entity address e queue) ≡ some queue
unfolding erase_entity push_entity occurs
erase_entity-push address e [] h = ground arith
erase_entity-push address e ((a, x) ∷ queue) h = ground (arith, erase_entity-push address e queue)

pub erase_entity-none : (b : ℕ) (q : Pending) → occurs b q ≡ 0 → erase_entity b q ≡ none
unfolding erase_entity occurs
erase_entity-none b [] h = refl
erase_entity-none b ((a, x) ∷ q) h = ground (arith, erase_entity-none b q)

-- `findPop` takes an entity that was put in last off the queue again and leaves the others in their order, if no other
-- stands under its address; of an address that is not in the queue it says so, and changes nothing.
pub find_pop-push_entity :
    (address : ℕ) (e : Entity) (queue : Pending)
    → occurs address queue ≡ 0
    → (find_pop address (push_entity address e queue) ≡ (error_success, queue))
      × (find_pop address queue ≡ (minus_two, queue))
unfolding find_pop
find_pop-push_entity address e queue h = (
  rw (find_pop, erase_entity-push address e queue h) refl,
  rw (find_pop, erase_entity-none address queue h) refl,
)

-- An entity is taken off the front of the queue, and another one is then put in under the same
-- address, which no other entity of the queue has: `findPop` of that address succeeds and takes
-- the other entity off the queue.
pub find_pop_reused :
    (address : ℕ) (mine other : Entity) (queue : Pending)
    → occurs address queue ≡ 0
    → (taken : Entity × Pending) × (pop_entity ((address, mine) ∷ queue) ≡ some taken)
      × (find_pop address (push_entity address other taken.1) ≡ (error_success, queue))
unfolding pop_entity copy_entity
find_pop_reused address mine other queue h =
    ((mine, queue), refl, (find_pop-push_entity address other queue h).0)
