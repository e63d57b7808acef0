-- ===== src/History/Sharing.antt =====
-- The entities that connections and the history thread share: a connection keeps the pointer of the entity that it
-- pushed, the thread deletes the entity when it takes it, and the destructor of the connection calls
-- `findPop` with the pointer. An object is live as long as it stands in the queue.
pub mod Inv
pub mod Closing
use linkedon_push.Common.{
  ℕ, suc, ◌+◌, ◌-◌, ◌≤◌, ◌≡◌, ◌≢◌, refl, sym, ap, ◌∙◌, Bool, true, false, List, [], ◌∷◌, ◌++◌,
  Option, none, some, if◌then◌else◌, ◌==◌, find, nat_key, arith, Bool-cases, Option-cases, inl, inr,
  ==_iff,
}
use linkedon_push.Conn.{Entity}
use linkedon_push.History.{Pending, push_entity, pop_entity, copy_entity, erase_entity, find_pop}
use linkedon_push.History.Queue.{occurs, erase_entity-none}

-- The queue, and for each connection that has one its pointer `mie`.
pub record Sharing : Type 0 where
  pub queue : Pending
  pub held : List (ℕ × ℕ)

abbrev pub none_shared : Sharing
none_shared = record { queue = []; held = [] }

unfoldable pub release : ℕ → List (ℕ × ℕ) → List (ℕ × ℕ)
release conn [] = []
release conn ((c, a) ∷ held) = if c == conn then held else (c, a) ∷ release conn held

-- `createConnection` of a connection: `new`, `setDate`, `push`.
unfoldable pub open_conn : ℕ → ℕ → Entity → Sharing → Sharing
unfolding push_entity
open_conn conn address e s = record {
  queue = push_entity address e s.queue;
  held = (conn, address) ∷ s.held;
}

-- `pop` of the thread, where the queue is not empty.
unfoldable pub tail_of : Option (Entity × Pending) → Pending
tail_of none = []
tail_of (some (e, queue)) = queue

unfoldable pub take_first : Sharing → Sharing
unfolding pop_entity tail_of
take_first s = record s { queue = tail_of (pop_entity s.queue) }

-- `findPop` of a pointer, or of NULL.
unfoldable pub withdraw : Option ℕ → Pending → Pending
unfolding find_pop
withdraw none queue = queue
withdraw (some address) queue = (find_pop address queue).1

-- The destructor of a connection.
unfoldable pub close_conn : ℕ → Sharing → Sharing
unfolding withdraw release
close_conn conn s = record {
  queue = withdraw (find conn s.held) s.queue;
  held = release conn s.held;
}

-- `new` gives an address under which no object is live; it can be one to which a connection still has a pointer.
pub data Step (s : Sharing) : Sharing → Type 0 where
  opens :
      (conn address : ℕ) (e : Entity)
      → find conn s.held ≡ none
      → occurs address s.queue ≡ 0
      → Step s (open_conn conn address e s)
  takes : Step s (take_first s)
  closes : (conn : ℕ) → Step s (close_conn conn s)

pub data Reach (s : Sharing) : Sharing → Type 0 where
  here : Reach s s
  next : {t u : Sharing} → Reach s t → Step t u → Reach s u
