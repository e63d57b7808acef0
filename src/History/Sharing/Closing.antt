-- ===== src/History/Sharing/Closing.antt =====
-- What the closing of a connection takes off the queue.
use linkedon_push.Common.{
  ℕ, ◌≤◌, ◌≡◌, ◌≢◌, refl, List, [], ◌∷◌, none, some, find, nat_key, arith, ==_iff,
}
use linkedon_push.Conn.{Entity}
use linkedon_push.History.{push_entity, pop_entity, erase_entity, find_pop}
use linkedon_push.History.Queue.{occurs}
use linkedon_push.History.Sharing.{
  Sharing, none_shared, release, open_conn, tail_of, take_first, withdraw, close_conn, opens, takes,
  Reach, here, next,
}
use linkedon_push.History.Sharing.Inv.{occurs-withdraw, none_shared-Apart, Reach-Apart}

-- In every order of openings, takings and closings, the queue has at most one entity under an address: each
-- is deleted once, by the thread or by a connection.
pub queue_apart : (s : Sharing) → Reach none_shared s → (a : ℕ) → occurs a s.queue ≤ 1
queue_apart s r = Reach-Apart r none_shared-Apart

find-release : (c d : ℕ) (held : List (ℕ × ℕ)) → c ≢ d → find d (release c held) ≡ find d held
unfolding release
find-release c d [] n = refl
find-release c d ((i, x) ∷ held) n = ground (arith, find-release c d held n, ==_iff i c, ==_iff i d)

-- In every order of openings, takings and closings, the closing of a connection leaves no entity under the address
-- that it holds, leaves in the queue what is there under any other address, and leaves every other
-- connection its pointer.
pub close_keeps_others :
    (s : Sharing) (c d a b : ℕ)
    → Reach none_shared s
    → find c s.held ≡ some a
    → a ≢ b
    → c ≢ d
    → (occurs a (close_conn c s).queue ≡ 0)
      × (occurs b (close_conn c s).queue ≡ occurs b s.queue)
      × (find d (close_conn c s).held ≡ find d s.held)
unfolding close_conn
close_keeps_others s c d a b r e apart other = rw e (
  ground (arith, occurs-withdraw a a s.queue, ==_iff a a, Reach-Apart r none_shared-Apart a),
  ground (arith, occurs-withdraw b a s.queue, ==_iff a b),
  find-release c d s.held other,
)

-- The connection `c` comes and its entity is taken; then `d` comes, and its entity is made under the same address.
unfoldable pub reused : ℕ → ℕ → ℕ → Entity → Entity → Sharing
reused c d a mine other = open_conn d a other (take_first (open_conn c a mine none_shared))

-- With an allocator that gives an address again once the thread has deleted the entity under it, two
-- connections `c` and `d` can come to hold one address, the entity of `d` alone being in the
-- queue; the closing of `c` then takes it off, so that `d` never gets its history.
pub close_takes_other :
    (c d a : ℕ) (mine other : Entity)
    → c ≢ d
    → Reach none_shared (reused c d a mine other)
      × (find c (reused c d a mine other).held ≡ some a)
      × (find d (reused c d a mine other).held ≡ some a)
      × (occurs a (reused c d a mine other).queue ≡ 1)
      × (occurs a (close_conn c (reused c d a mine other)).queue ≡ 0)
unfolding reused open_conn take_first tail_of pop_entity push_entity close_conn withdraw find_pop
    erase_entity occurs
close_takes_other c d a mine other n =
    let second : find d ((c, a) ∷ []) ≡ none = ground (arith, ==_iff c d) in
    let first : find c ((d, a) ∷ (c, a) ∷ []) ≡ some a = ground (arith, ==_iff d c, ==_iff c c) in
    (
      next (next (next here (opens c a mine refl refl)) takes) (opens d a other second refl),
      first,
      ground arith,
      ground arith,
      rw first (ground arith),
    )
