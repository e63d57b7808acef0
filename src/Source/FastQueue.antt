-- ===== src/Source/FastQueue.antt =====
-- `LPushFastQueue` of src/app/lpushSource.cpp as the vector of pointers that it is: a slot that `resize` has added is
-- NULL. The maps of `Source.Registry` hold such queues in which every slot has a message.
use linkedon_push.Common.{
  ℕ, ◌-◌, ◌≡◌, refl, ap, Bool, true, false, List, [], ◌∷◌, ◌++◌, Option, none, some, length, take,
  replicate,
}
use linkedon_push.Source.Message.{WorkerMessage, copy}
use linkedon_push.Source.Registry.{Queue, queue_push, queue_pop, queue_empty}

abbrev pub Slots : Type 0
Slots = List (Option WorkerMessage)

-- `setLength`.
unfoldable pub set_length : ℕ → Slots → Slots
set_length size queue = take size queue ++ replicate (size - length queue) none

unfoldable pub get_length : Slots → ℕ
get_length queue = length queue

unfoldable pub push_slot : WorkerMessage → Slots → Slots
push_slot msg queue = queue ++ (some msg ∷ [])

-- `pop`, which follows the pointer that it finds; `none` is a fault.
unfoldable pub pop_slot : Slots → Option (WorkerMessage × Slots)
pop_slot [] = none
pop_slot (none ∷ queue) = none
pop_slot (some m ∷ queue) = some (copy m, queue)

unfoldable pub empty_slots : Slots → Bool
empty_slots [] = true
empty_slots (x ∷ queue) = false

-- `clear` forgets the messages, the destructor deletes them: the messages that are deleted, and the queue.
unfoldable pub clear_slots : Slots → List WorkerMessage × Slots
clear_slots queue = ([], [])

unfoldable pub messages_of : Slots → List WorkerMessage
messages_of [] = []
messages_of (none ∷ queue) = messages_of queue
messages_of (some m ∷ queue) = m ∷ messages_of queue

unfoldable pub destroy_slots : Slots → List WorkerMessage × Slots
unfolding messages_of
destroy_slots queue = (messages_of queue, [])

-- The slots of a queue of messages.
abbrev pub slots_of : Queue → Slots
slots_of [] = []
slots_of (m ∷ q) = some m ∷ slots_of q

abbrev pub with_slots : Option (WorkerMessage × Queue) → Option (WorkerMessage × Slots)
with_slots none = none
with_slots (some (m, q)) = some (m, slots_of q)

push_slot-slots_of :
    (msg : WorkerMessage) (q : Queue) → push_slot msg (slots_of q) ≡ slots_of (queue_push msg q)
unfolding push_slot queue_push
push_slot-slots_of msg [] = refl
push_slot-slots_of msg (m ∷ q) = ap (λ (t : Slots). some m ∷ t) (push_slot-slots_of msg q)

pop_slot-slots_of : (q : Queue) → pop_slot (slots_of q) ≡ with_slots (queue_pop q)
unfolding pop_slot queue_pop
pop_slot-slots_of [] = refl
pop_slot-slots_of (m ∷ q) = refl

empty_slots-slots_of : (q : Queue) → empty_slots (slots_of q) ≡ queue_empty q
unfolding empty_slots queue_empty
empty_slots-slots_of [] = refl
empty_slots-slots_of (m ∷ q) = refl

-- On slots that all have a message `push`, `pop` and `empty` of the vector are those of the queue of messages.
pub slots_refine :
    (msg : WorkerMessage) (q : Queue)
    → (push_slot msg (slots_of q) ≡ slots_of (queue_push msg q))
      × (pop_slot (slots_of q) ≡ with_slots (queue_pop q))
      × (empty_slots (slots_of q) ≡ queue_empty q)
slots_refine msg q = (push_slot-slots_of msg q, pop_slot-slots_of q, empty_slots-slots_of q)
