-- ===== src/Thread/Safety.antt =====
-- What a caller of `start` and `stop` can rely on, in every order of the steps of the owner and of
-- the thread, and what `interrupt` and a `stop` on the thread itself do not give.
use linkedon_push.Common.{◌≡◌, Bool, false, arith}
use linkedon_push.Thread.{
  interrupt, interrupted, start, start_poll, stop, stop_poll, cycle_enter, loop_test, hold_test,
  break_test,
}
use linkedon_push.Thread.System.{
  cycling, self_stopping, System, fresh, after_start, after_stop, after_self_stop, after_turn, Step,
  call_start, poll_start, call_stop, join, poll_stop, enter, hold, cycle_end, wake, stop_self,
  poll_self, interrupts, Reach, here, next,
}
use linkedon_push.Thread.Inv.{alive, Inv, fresh-Inv, Reach-Inv}

Inv-ended : {s : System} → Inv s → s.thread.tid ≡ false → alive s.child ≡ false
Inv-ended v no_tid = ground arith

Inv-working : {s : System} → Inv s → s.child ≡ cycling → interrupted s.thread ≡ false
unfolding interrupted
Inv-working v at = ground arith

-- In every state that a thread object can come to, in any order of the steps of its owner and its
-- thread, no thread is alive while `tid` is NULL.
pub no_thread_without_tid :
    (joinable : Bool) (s : System)
    → Reach (fresh joinable) s
    → s.thread.tid ≡ false
    → alive s.child ≡ false
no_thread_without_tid joinable s r = Inv-ended (Reach-Inv r (fresh-Inv joinable))

-- In every state that a thread object can come to while its thread is in the handler's cycle,
-- `interrupted` answers false, and does so behind an `interrupt`, too.
pub interrupted_lem :
    (joinable : Bool) (s : System)
    → Reach (fresh joinable) s
    → s.child ≡ cycling
    → (interrupted s.thread ≡ false) × (interrupted (interrupt s.thread) ≡ false)
unfolding interrupt interrupted
interrupted_lem joinable s r c =
    let v = Reach-Inv r (fresh-Inv joinable) in (Inv-working v c, Inv-working v c)

Step-stuck :
    {s s' : System} → Step s s' → Inv s → s.child ≡ self_stopping → s'.child ≡ self_stopping
unfolding start start_poll stop stop_poll cycle_enter loop_test hold_test break_test interrupt
    after_start after_stop after_self_stop after_turn
Step-stuck (call_start c o) v at = ground arith
Step-stuck (poll_start t o e) v at = ground arith
Step-stuck (call_stop o) v at = ground arith
Step-stuck (join o) v at = ground arith
Step-stuck (poll_stop t o e) v at = ground arith
Step-stuck (enter id c) v at = ground arith
Step-stuck (hold c) v at = ground arith
Step-stuck (cycle_end c) v at = ground arith
Step-stuck (wake c) v at = ground arith
Step-stuck (stop_self c) v at = ground arith
Step-stuck (poll_self t c e) v at = ground arith
Step-stuck interrupts v at = ground arith

Reach-stuck :
    {s s' : System} → Reach s s' → Inv s → s.child ≡ self_stopping → s'.child ≡ self_stopping
Reach-stuck here v at = at
Reach-stuck (next r st) v at = Step-stuck st (Reach-Inv r v) (Reach-stuck r v at)

-- A thread that waits in a `stop` of its own, in a state that a thread object can come to, waits there in
-- every state that follows.
pub self_stop_never_returns :
    (joinable : Bool) (s s' : System)
    → Reach (fresh joinable) s
    → Reach s s'
    → s.child ≡ self_stopping
    → s'.child ≡ self_stopping
self_stop_never_returns joinable s s' r r' = Reach-stuck r' (Reach-Inv r (fresh-Inv joinable))
