-- ===== src/Thread/Handler.antt =====
-- What a thread of src/app/lpushThread.cpp makes of its handler: the order of the callbacks, and the classes
-- `LPushReusableThread` and `LPushEndlessThread`, which stand between a thread and a handler.
use linkedon_push.Common.{
  ℕ, zero, suc, ◌≡◌, refl, ap, ◌∙◌, not, if◌then◌else◌, ◌==◌, Bool-cases, inl, inr,
}
use linkedon_push.Errors.{error_success}

-- A handler over the state `S` of everything that it can reach.
pub record Handler (S : Type 0) : Type 0 where
  pub on_thread_start : S → S
  pub on_before_cycle : S → ℕ × S
  pub cycle : S → ℕ × S
  pub on_end_cycle : S → ℕ × S
  pub on_thread_stop : S → S

module _ {S : Type 0} where
  -- The callbacks of `ILPushThreadHandler`, `ILPushReusableThreadHandler` and `ILPushEndlessThreadHandler`, where a
  -- class overrides `cycle` only.
  unfoldable pub only_cycle : (S → ℕ × S) → Handler S
  only_cycle c = record {
    on_thread_start = λ s. s;
    on_before_cycle = λ s. (error_success, s);
    cycle = c;
    on_end_cycle = λ s. (error_success, s);
    on_thread_stop = λ s. s;
  }

  -- `LPushReusableThread` as the handler of its thread.
  unfoldable pub reusable : Handler S → Handler S
  reusable handler = record {
    on_thread_start = λ s. handler.on_thread_start s;
    on_before_cycle = λ s. handler.on_before_cycle s;
    cycle = λ s. handler.cycle s;
    on_end_cycle = λ s. handler.on_end_cycle s;
    on_thread_stop = λ s. handler.on_thread_stop s;
  }

  -- `LPushEndlessThread` as the handler of its thread.
  unfoldable pub endless : Handler S → Handler S
  endless handler = record {
    on_thread_start = λ s. handler.on_thread_start s;
    on_before_cycle = λ s. handler.on_before_cycle s;
    cycle = λ s. handler.cycle s;
    on_end_cycle = λ s. handler.on_end_cycle s;
    on_thread_stop = λ s. handler.on_thread_stop s;
  }

  -- The next callback of a round; an error goes to the label `failed`.
  unfoldable pub and_next : (S → ℕ × S) → ℕ × S → ℕ × S
  and_next callback (ret, s) = if not (ret == error_success) then (ret, s) else callback s

  -- A round of the loop of `thread_cycle`.
  unfoldable pub handler_round : Handler S → S → ℕ × S
  unfolding and_next
  handler_round h s = and_next h.on_end_cycle (and_next h.cycle (h.on_before_cycle s))

  unfoldable pub handler_rounds : Handler S → ℕ → S → S
  unfolding handler_round
  handler_rounds h zero s = s
  handler_rounds h (suc n) s = let (ret, s') = handler_round h s in handler_rounds h n s'

  -- All that a thread does to its handler, if `loop` is false behind its `n`th round.
  unfoldable pub thread_life : Handler S → ℕ → S → S
  unfolding handler_rounds
  thread_life h n s = h.on_thread_stop (handler_rounds h n (h.on_thread_start s))

  -- `cycle`, `n` times one after the other.
  abbrev pub cycles_of : (S → ℕ × S) → ℕ → S → S
  cycles_of c zero s = s
  cycles_of c (suc n) s = let (ret, s') = c s in cycles_of c n s'

  after_cycle : (r : ℕ × S) → (and_next (λ s. (error_success, s)) r).1 ≡ r.1
  unfolding and_next
  after_cycle (ret, s) = elim (Bool-cases (ret == error_success)) [
    | inl done ↦ rw done refl
    | inr error ↦ rw error refl
  ]

  handler_rounds_lem :
      (c : S → ℕ × S) (n : ℕ) (s : S) → handler_rounds (only_cycle c) n s ≡ cycles_of c n s
  unfolding handler_rounds only_cycle
  handler_rounds_lem c zero s = refl
  handler_rounds_lem c (suc n) s =
      ap (handler_rounds (only_cycle c) n) (unfold and_next in after_cycle (c s))
      ∙ handler_rounds_lem c n (c s).1

  -- For a handler that has only a `cycle`, the life of a thread is `cycle` run once in each round, whatever it
  -- returns: an error neither ends the loop nor skips a later round; and the two wrapping classes
  -- change nothing.
  pub thread_life_lem :
      (c : S → ℕ × S) (n : ℕ) (s : S)
      → (thread_life (reusable (only_cycle c)) n s ≡ cycles_of c n s)
        × (thread_life (endless (only_cycle c)) n s ≡ cycles_of c n s)
  unfolding thread_life reusable endless only_cycle
  thread_life_lem c n s = (handler_rounds_lem c n s, handler_rounds_lem c n s)
