-- ===== src/Redis/Laws.antt =====
-- What the client makes of the store's answers.
use linkedon_push.Common.{
  ℕ, ◌≡◌, refl, ap, ◌∙◌, true, List, [], ◌∷◌, Option, none, some, Bytes, codes, c_str, insert_new,
  bytes_key, nat_key, StringMap, All, find, find-insert_new, arith, bytes_eq, bytes_eq_iff,
  Bool-cases, inl, inr,
}
use linkedon_push.Redis.{Arg, word, int, Item, Reply, text_of, answered, ask, pairs_of, hgetall}
use linkedon_push.Redis.Sorted.{scores_of, zrange_withscores}

-- A bulk string: hiredis leaves `integer` 0.
abbrev pub bulk : Bytes → Item
bulk t = record { str = some t; integer = 0 }

-- The array of bulk strings that answers HGETALL.
abbrev pub flat : StringMap → List Item
flat [] = []
flat ((k, v) ∷ m) = bulk k ∷ bulk v ∷ flat m

abbrev pub array_of : List Item → Reply
array_of is = record { is_array = true; item = record { str = none; integer = 0 }; elements = is }

-- A text without a NUL.
unfoldable pub IsCString : Bytes → Type 0
IsCString t = c_str t ≡ t

unfoldable pub IsCPair : (Bytes × Bytes) → Type 0
unfolding IsCString
IsCPair (k, v) = IsCString k × IsCString v

-- An entry more in the map, or in front of the list.
first :
    (k v : Bytes) (m acc : StringMap) (j : Bytes)
    → elim (find j (insert_new k v acc)) [ none ↦ find j m | some w ↦ some w ]
      ≡ elim (find j acc) [ none ↦ find j ((k, v) ∷ m) | some w ↦ some w ]
first k v m acc j = elim (Bool-cases (bytes_eq k j)) [
  | inl same ↦
      let p : k ≡ j = (bytes_eq_iff k j).0 same in
      ground (arith, find-insert_new k j v acc, ap (λ (t : Bytes). find t acc) p)
  | inr other ↦ ground (arith, find-insert_new k j v acc)
]

pairs_of-flat :
    (m acc : StringMap)
    → All IsCPair m
    → (r : StringMap) × (pairs_of (flat m) acc ≡ some r)
      × ((k : Bytes) → find k r ≡ elim (find k acc) [ none ↦ find k m | some v ↦ some v ])
unfolding pairs_of text_of IsCPair IsCString
pairs_of-flat [] acc h = (acc, refl, λ k. ground arith)
pairs_of-flat ((k, v) ∷ m) acc ((hk, hv), h) =
    let (r, e, found) = pairs_of-flat m (insert_new k v acc) h in
    (r, rw (hk, hv) e, λ j. found j ∙ first k v m acc j)

pub ask_lem :
    {S : Type 0} (redis_command : List Arg → S → Option Reply × S) (args : List Arg) (r : Reply)
    (s s' : S)
    → redis_command args s ≡ (some r, s')
    → ask redis_command args s ≡ some (r, s')
unfolding ask answered
ask_lem redis_command args r s s' e = ap answered e

-- If the store answers HGETALL with the fields and values of `m` as an array of bulk strings, none of which has a
-- NUL, `hgetall` returns a map that finds under every key what `m` has first under it.
pub hgetall_lem :
    {S : Type 0} (redis_command : List Arg → S → Option Reply × S) (key : Bytes) (m : StringMap)
    (s s' : S)
    → redis_command (word (codes "hgetall") ∷ word (c_str key) ∷ []) s
      ≡ (some (array_of (flat m)), s')
    → All IsCPair m
    → (r : StringMap) × (hgetall redis_command key s ≡ some (r, s'))
      × ((k : Bytes) → find k r ≡ find k m)
unfolding hgetall
hgetall_lem redis_command key m s s' told clean =
    let (r, e, found) = pairs_of-flat m [] clean in
    (r, rw (ask_lem redis_command _ (array_of (flat m)) s s' told, e) refl, found)

-- The array of bulk strings that answers ZRANGE with WITHSCORES.
abbrev pub scored : List (Bytes × Bytes) → List Item
scored ms = flat ms

scores_of-one :
    (ms : List (Bytes × Bytes)) (v : Bytes)
    → All IsCPair ms
    → scores_of (scored ms) ((0, v) ∷ []) ≡ some ((0, v) ∷ [])
unfolding scores_of text_of IsCPair IsCString
scores_of-one [] v h = refl
scores_of-one ((m, score) ∷ ms) v ((hm, hs), h) = scores_of-one ms v h

-- If the store answers ZRANGE with WITHSCORES by the members and their scores as bulk strings, none of which has
-- a NUL, `zrangeWithscores` returns the first member under the score 0 and no other member.
pub zrange_withscores_one :
    {S : Type 0} (redis_command : List Arg → S → Option Reply × S) (key : Bytes) (begin end : ℕ)
    (m score : Bytes) (ms : List (Bytes × Bytes)) (s s' : S)
    → redis_command
        (word (codes "zrange")
          ∷ word (c_str key)
          ∷ int begin
          ∷ int end
          ∷ word (codes "withscores")
          ∷ [])
        s
      ≡ (some (array_of (scored ((m, score) ∷ ms))), s')
    → All IsCPair ((m, score) ∷ ms)
    → zrange_withscores redis_command key begin end s ≡ some ((0, m) ∷ [], s')
unfolding zrange_withscores scores_of text_of IsCPair IsCString
zrange_withscores_one redis_command key begin end m score ms s s' told ((hm, hs), clean) =
    rw
      (
        ask_lem redis_command _ (array_of (scored ((m, score) ∷ ms))) s s' told,
        hm,
        scores_of-one ms m clean,
      )
      refl
