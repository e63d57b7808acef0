-- ===== src/Redis/Sorted.antt =====
-- The sorted sets of the store's client.
use linkedon_push.Common.{
  ℕ, ◌%◌, ◌^◌, List, [], ◌∷◌, Option, none, some, if◌then◌else◌, Bytes, codes, c_str, insert_new,
  nat_key, ◌>>=◌,
}
use linkedon_push.Redis.{
  Arg, word, int, long, Item, Reply, text_of, ask, tell, ask_integer, ask_texts,
}

-- The loop of `zrangeWithscores`: elements two by two, a score that is there keeps its value.
unfoldable pub scores_of : List Item → List (ℕ × Bytes) → Option (List (ℕ × Bytes))
unfolding text_of
scores_of [] m = some m
scores_of (i ∷ []) m = none
scores_of (i ∷ j ∷ is) m = do v ← text_of i; scores_of is (insert_new j.integer v m)

module _ {S : Type 0} (redis_command : List Arg → S → Option Reply × S) where
  unfoldable pub zadd : Bytes → ℕ → Bytes → S → S
  unfolding tell
  zadd key index value s =
      tell redis_command
        (word (codes "zadd") ∷ word (c_str key) ∷ long index ∷ word (c_str value) ∷ []) s

  unfoldable pub zadd_list : Bytes → List (ℕ × Bytes) → S → S
  unfolding zadd
  zadd_list key [] s = s
  zadd_list key ((index, value) ∷ values) s = zadd_list key values (zadd key index value s)

  unfoldable pub zcard : Bytes → S → Option (ℕ × S)
  unfolding ask_integer
  zcard key s = ask_integer redis_command (word (codes "zcard") ∷ word (c_str key) ∷ []) s

  unfoldable pub zcount : Bytes → ℕ → ℕ → S → Option (ℕ × S)
  unfolding ask_integer
  zcount key begin end s =
      ask_integer redis_command
        (word (codes "zcount") ∷ word (c_str key) ∷ int begin ∷ int end ∷ []) s

  unfoldable pub zrange : Bytes → ℕ → ℕ → S → Option (List Bytes × S)
  unfolding ask_texts
  zrange key begin end s =
      ask_texts redis_command (word (codes "zrange") ∷ word (c_str key) ∷ int begin ∷ int end ∷ [])
        s

  unfoldable pub zrange_withscores : Bytes → ℕ → ℕ → S → Option (List (ℕ × Bytes) × S)
  unfolding ask scores_of
  zrange_withscores key begin end s = do
    (r, s') ←
        ask redis_command
          (word (codes "zrange")
            ∷ word (c_str key)
            ∷ int begin
            ∷ int end
            ∷ word (codes "withscores")
            ∷ [])
          s
    m ← if r.is_array then scores_of r.elements [] else some []
    some (m, s')

  unfoldable pub zrank : Bytes → Bytes → S → Option (ℕ × S)
  unfolding ask_integer
  zrank key value s = do
    (n, s') ←
        ask_integer redis_command
          (word (codes "zrank") ∷ word (c_str key) ∷ word (c_str value) ∷ []) s
    some (n % 2 ^ 32, s')

  unfoldable pub zrem : Bytes → Bytes → S → S
  unfolding tell
  zrem key value s =
      tell redis_command (word (codes "zrem") ∷ word (c_str key) ∷ word (c_str value) ∷ []) s

  unfoldable pub zrem_list : Bytes → List Bytes → S → S
  unfolding zrem
  zrem_list key [] s = s
  zrem_list key (v ∷ values) s = zrem_list key values (zrem key v s)

  unfoldable pub zscore : Bytes → Bytes → S → Option (ℕ × S)
  unfolding ask_integer
  zscore key value s =
      ask_integer redis_command (word (codes "zscore") ∷ word (c_str key) ∷ word (c_str value) ∷ [])
        s
