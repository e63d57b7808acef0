-- ===== src/Thread.antt =====
-- src/app/lpushThread.cpp: `LPushThread`, which runs a handler in a thread of the state-threads library,
-- and the wrappers around it. Threads of that library give way only inside its calls, so each
-- function below is what one thread does between two of them.
pub mod System
pub mod Inv
pub mod Safety
pub mod Finish
pub mod Handler
use linkedon_push.Common.{ℕ, Bool, true, false, not, ◌&&◌, ◌||◌, Option, none, some, if◌then◌else◌}
use linkedon_push.Errors.{error_success, error_st_create_cycle_thread}

-- The fields of `LPushThread`: whether `tid` is not NULL; `_cid`, where -1 is `none`; the flags.
pub record Thread : Type 0 where
  pub tid : Bool
  pub cid : Option ℕ
  pub loop : Bool
  pub can_run : Bool
  pub really_terminated : Bool
  pub joinable : Bool
  pub disposed : Bool

-- The constructor.
unfoldable pub make_thread : Bool → Thread
make_thread joinable = record {
  tid = false;
  cid = none;
  loop = false;
  can_run = false;
  really_terminated = true;
  joinable = joinable;
  disposed = false;
}

unfoldable pub can_loop : Thread → Bool
can_loop t = t.can_run

unfoldable pub stop_loop : Thread → Thread
stop_loop t = record t { loop = false }

-- `LPushReusableThread::interrupt` and `interrupted`.
unfoldable pub interrupt : Thread → Thread
unfolding stop_loop
interrupt t = stop_loop t

unfoldable pub interrupted : Thread → Bool
unfolding can_loop
interrupted t = not (can_loop t)

-- How far a call of `start` comes before it first gives way.
pub data Starting : Type 0 where
  started : ℕ → Starting
  waits_for_cid : Thread → Starting

-- `start`; the Boolean tells whether `st_thread_create` succeeds.
unfoldable pub start : Bool → Thread → Starting
start created t =
    if t.tid
    then started error_success
    else if not created
    then started error_st_create_cycle_thread
    else waits_for_cid (record t { tid = true; disposed = false; loop = true })

-- One test of `while (_cid < 0)`: without a cid the caller sleeps on.
unfoldable pub start_poll : Thread → Option Thread
start_poll t = elim t.cid [ none ↦ none | some c ↦ some (record t { can_run = true }) ]

-- The end of `stop`, behind `dispose`.
unfoldable pub stop_exit : Thread → Thread
stop_exit t = record t { cid = none; can_run = false; tid = false }

-- How far a call of `stop` comes before it first gives way: it returns, it joins the thread, or it
-- waits for `really_terminated`.
pub data Stopping : Type 0 where
  stopped : Thread → Stopping
  joins : Thread → Stopping
  waits_for_end : Thread → Stopping

-- `dispose`, from `stop`. `by_itself` tells that the thread stops itself: `st_thread_join` of the
-- calling thread fails at once, which the code ignores.
unfoldable pub dispose : Bool → Thread → Stopping
unfolding stop_exit
dispose by_itself t =
    if t.disposed
    then stopped (stop_exit t)
    else if t.joinable && not by_itself
    then joins t
    else waits_for_end t

unfoldable pub stop : Bool → Thread → Stopping
unfolding dispose
stop by_itself t = if not t.tid then stopped t else dispose by_itself (record t { loop = false })

-- One test of `while (!really_terminated)` at the end of `dispose`, and the rest of `stop`.
unfoldable pub stop_poll : Thread → Option Thread
unfolding stop_exit
stop_poll t = if t.really_terminated then some (stop_exit (record t { disposed = true })) else none

-- `thread_cycle` up to its first sleep.
unfoldable pub cycle_enter : ℕ → Thread → Thread
cycle_enter id t = record t { cid = some id; really_terminated = false }

-- Where `thread_cycle` stands after a sleep or a cycle of the handler.
pub data Turn : Type 0 where
  sleeps : Turn
  cycles : Turn
  ends : Thread → Turn

-- The end of `thread_cycle`.
unfoldable pub cycle_exit : Thread → Thread
cycle_exit t = record t { really_terminated = true; disposed = true }

-- The test of `while (loop)`.
unfoldable pub loop_test : Thread → Turn
unfolding cycle_exit
loop_test t = if t.loop then cycles else ends (cycle_exit t)

-- One test of `while (!can_run && loop)`, and the first test of the main loop behind it.
unfoldable pub hold_test : Thread → Turn
unfolding loop_test
hold_test t = if not t.can_run && t.loop then sleeps else loop_test t

-- `if (!loop) break;` behind a cycle of the handler, then the sleep of the interval.
unfoldable pub break_test : Thread → Turn
unfolding cycle_exit
break_test t = if not t.loop then ends (cycle_exit t) else sleeps
