-- ===== src/Logger/Context.antt =====
-- `LogContext` of src/kernel/lpushLogger.cpp: the ids of the threads. A thread is the number of its `st_thread_t`.
use linkedon_push.Common.{
  ℕ, ◌+◌, ◌^◌, ◌<◌, length, ◌≡◌, refl, sym, ◌∙◌, ap, ◌⊎◌, inl, inr, List, [], ◌∷◌, Option, none,
  some, if◌then◌else◌, ◌==◌, find, insert_new, replace, nat_key, find-insert_new, find-replace,
  arith, Bool-cases, Option-cases, or_else,
}

-- `cache`, and the static `id` of `generate_id`.
pub record LogContext : Type 0 where
  pub cache : List (ℕ × ℕ)
  pub id : ℕ

unfoldable pub make_log_context : LogContext
make_log_context = record { cache = []; id = 1 }

-- `cache[st_thread_self()]`, which makes an entry of 0 where there is none, and its value.
unfoldable pub entry : ℕ → List (ℕ × ℕ) → List (ℕ × ℕ)
entry self cache = insert_new self 0 cache

unfoldable pub id_of : Option ℕ → ℕ
id_of none = 0
id_of (some id) = id

unfoldable pub generate_id : ℕ → LogContext → LogContext
unfolding entry
generate_id self c = record { cache = replace self c.id (entry self c.cache); id = c.id + 1 }

unfoldable pub get_id : ℕ → LogContext → ℕ × LogContext
unfolding entry id_of
get_id self c =
    let cache = entry self c.cache in (id_of (find self cache), record c { cache = cache })

-- What the threads call, in any order.
pub data Call : Type 0 where
  generates : ℕ → Call
  gets : ℕ → Call

unfoldable pub call : Call → LogContext → LogContext
unfolding generate_id get_id
call (generates self) c = generate_id self c
call (gets self) c = (get_id self c).1

unfoldable pub calls : List Call → LogContext → LogContext
unfolding call
calls [] c = c
calls (x ∷ xs) c = calls xs (call x c)

-- Every id is below the next one, and no two threads have the same one; 0 is none.
pub record Distinct (c : LogContext) : Type 0 where
  pub below : (t i : ℕ) → find t c.cache ≡ some i → i < c.id
  pub apart : (t u i : ℕ) → find t c.cache ≡ some i → find u c.cache ≡ some i → (i ≡ 0) ⊎ (t ≡ u)
  pub positive : 0 < c.id

find-entry :
    (self t : ℕ) (cache : List (ℕ × ℕ))
    → find t (entry self cache) ≡ (if self == t then or_else (find self cache) 0 else find t cache)
unfolding entry
find-entry self t cache = find-insert_new self t 0 cache

find-generate_id :
    (self t : ℕ) (c : LogContext)
    → find t (generate_id self c).cache ≡ (if self == t then some c.id else find t c.cache)
unfolding generate_id
find-generate_id self t c = elim (Option-cases (find self c.cache)) [
  | inl free ↦ ground (
    arith,
    find-replace self t c.id (entry self c.cache),
    find-entry self self c.cache,
    find-entry self t c.cache,
  )
  | inr (i, old) ↦ ground (
    arith,
    find-replace self t c.id (entry self c.cache),
    find-entry self self c.cache,
    find-entry self t c.cache,
  )
]

-- What an entry is behind a call: the thread's own one is new, or 0, or an old one; others stay.
pub data Origin (self : ℕ) (c : LogContext) (t i : ℕ) : Type 0 where
  old : find t c.cache ≡ some i → Origin self c t i
  new : t ≡ self → i ≡ c.id → Origin self c t i

origin :
    (self : ℕ) (c : LogContext) (t i : ℕ)
    → find t (generate_id self c).cache ≡ some i
    → Origin self c t i
origin self c t i e = elim (Bool-cases (self == t)) [
  | inl own ↦ new (ground arith) (ground (arith, find-generate_id self t c))
  | inr other ↦ old (ground (arith, find-generate_id self t c))
]

module _ (self : ℕ) (c : LogContext) (d : Distinct c) where
  made_below : (t i : ℕ) → Origin self c t i → i < c.id + 1
  made_below t i (old e) = omega (arith, d.below t i e)
  made_below t i (new p q) = omega arith

  made_apart : (t u i : ℕ) → Origin self c t i → Origin self c u i → (i ≡ 0) ⊎ (t ≡ u)
  made_apart t u i (old e) (old f) = d.apart t u i e f
  made_apart t u i (old e) (new p q) = absurd (omega (arith, d.below t i e))
  made_apart t u i (new p q) (old f) = absurd (omega (arith, d.below u i f))
  made_apart t u i (new p q) (new r s) = inr (p ∙ sym r)

  generate_id-Distinct : Distinct (generate_id self c)
  unfolding generate_id
  generate_id-Distinct = record {
    below = λ t i e. made_below t i (origin self c t i e);
    apart = λ t u i e f. made_apart t u i (origin self c t i e) (origin self c u i f);
    positive = omega arith;
  }

  entry_old : (t i : ℕ) → find t (entry self c.cache) ≡ some i → (i ≡ 0) ⊎ (find t c.cache ≡ some i)
  entry_old t i e = elim (Option-cases (find t c.cache)) [
    | inl free ↦ inl (ground (arith, find-entry self t c.cache))
    | inr (j, there) ↦ inr (ground (arith, find-entry self t c.cache))
  ]

  get_id-Distinct : Distinct (get_id self c).1
  unfolding get_id
  get_id-Distinct = record {
    below = λ t i e. elim (entry_old t i e) [
      | inl zero_id ↦ omega (arith, d.positive)
      | inr there ↦ d.below t i there
    ];
    apart = λ t u i e f. elim (entry_old t i e) [
      | inl zero_id ↦ inl zero_id
      | inr there ↦ elim (entry_old u i f) [
        | inl zero_id ↦ inl zero_id
        | inr there' ↦ d.apart t u i there there'
      ]
    ];
    positive = d.positive;
  }

calls-Distinct : (xs : List Call) (c : LogContext) → Distinct c → Distinct (calls xs c)
unfolding calls call
calls-Distinct [] c d = d
calls-Distinct (generates self ∷ xs) c d = calls-Distinct xs _ (generate_id-Distinct self c d)
calls-Distinct (gets self ∷ xs) c d = calls-Distinct xs _ (get_id-Distinct self c d)

make_log_context-Distinct : Distinct make_log_context
unfolding make_log_context
make_log_context-Distinct = record {
  below = λ t i e. cc;
  apart = λ t u i e f. cc;
  positive = omega arith;
}

-- What `get_id` gives, by the entry of the thread.
get_id_lem : (t : ℕ) (c : LogContext) → (get_id t c).0 ≡ id_of (find t c.cache)
unfolding get_id id_of
get_id_lem t c = elim (Option-cases (find t c.cache)) [
  | inl free ↦ ground (arith, find-entry t t c.cache)
  | inr (i, there) ↦ ground (arith, find-entry t t c.cache)
]

same_ids :
    (t u : ℕ) (c : LogContext)
    → Distinct c
    → id_of (find t c.cache) ≡ id_of (find u c.cache)
    → (id_of (find t c.cache) ≡ 0) ⊎ (t ≡ u)
unfolding id_of
same_ids t u c d e = elim (Option-cases (find t c.cache)) [
  | inl free ↦ inl (rw free refl)
  | inr (i, there) ↦ elim (Option-cases (find u c.cache)) [
    | inl free ↦ inl (e ∙ rw free refl)
    | inr (j, there') ↦
        let same : i ≡ j = ground arith in
        elim (d.apart t u i there (there' ∙ ap some (sym same))) [
          | inl zero_id ↦ inl (rw there zero_id)
          | inr own ↦ inr own
        ]
  ]
]

-- After any calls of `generate_id` and `get_id` by any threads, two threads to which `get_id` gives the same id are
-- the same thread, unless the id is 0; the calls are fewer than 2^31, so that the `int` does not overflow.
pub ids_apart :
    (xs : List Call) (t u : ℕ)
    → length xs < 2 ^ 31
    → (get_id t (calls xs make_log_context)).0 ≡ (get_id u (calls xs make_log_context)).0
    → ((get_id t (calls xs make_log_context)).0 ≡ 0) ⊎ (t ≡ u)
ids_apart xs t u small e =
    let c = calls xs make_log_context in
    let d = calls-Distinct xs make_log_context make_log_context-Distinct in
    rw (get_id_lem t c) (same_ids t u c d (sym (get_id_lem t c) ∙ e ∙ get_id_lem u c))
