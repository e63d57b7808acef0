-- ===== src/Tests/Lifecycle.antt =====
-- A thread object that is started and stopped, step by step.
use linkedon_push.Common.{◌≡◌, refl, true, false, none, some}
use linkedon_push.Thread.{
  Thread, interrupt, interrupted, start, start_poll, stop, stop_poll, cycle_enter, hold_test,
  break_test, loop_test, make_thread,
}
use linkedon_push.Thread.System.{
  System, Reach, here, next, fresh, call_start, poll_start, call_stop, join, poll_stop, enter, hold,
  cycle_end, stop_self, interrupts, cycling, free, exited, self_stopping, settling, joining,
  resting,
}
use linkedon_push.Thread.Inv.{alive}
use linkedon_push.Thread.Safety.{no_thread_without_tid, interrupted_lem}

-- The thread number 7 of a joinable object, let go.
abbrev working : Thread
working = record {
  tid = true;
  cid = some 7;
  loop = true;
  can_run = true;
  really_terminated = false;
  joinable = true;
  disposed = false;
}

abbrev at_work : System
at_work = record { thread = working; owner = free; child = cycling }

to_work : Reach (fresh true) at_work
unfolding start start_poll cycle_enter hold_test loop_test make_thread
    linkedon_push.Thread.System.after_start linkedon_push.Thread.System.after_turn
to_work =
    next (next (next (next here (call_start true refl)) (enter 7 refl)) (poll_start _ refl refl))
      (hold refl)

interrupted_lem_example : (interrupted working ≡ false) × (interrupted (interrupt working) ≡ false)
interrupted_lem_example = interrupted_lem true at_work to_work refl

-- It stops itself in a cycle.
abbrev stuck : System
stuck = record { thread = record working { loop = false }; owner = free; child = self_stopping }

to_stuck : Reach (fresh true) stuck
unfolding stop linkedon_push.Thread.System.after_self_stop
to_stuck = next to_work (stop_self refl)

-- The owner then calls `stop`, too.
abbrev still_stuck : System
still_stuck = record stuck { owner = joining }

to_still_stuck : Reach stuck still_stuck
unfolding stop linkedon_push.Thread.System.after_stop
to_still_stuck = next here (call_stop refl)

-- The owner stops it in a cycle.
abbrev awaited : System
awaited = record { thread = record working { loop = false }; owner = joining; child = cycling }

to_awaited : Reach (fresh true) awaited
unfolding stop linkedon_push.Thread.System.after_stop
to_awaited = next to_work (call_stop refl)

-- The stop has returned.
abbrev ended : System
ended = record {
  thread = record {
    tid = false;
    cid = none;
    loop = false;
    can_run = false;
    really_terminated = true;
    joinable = true;
    disposed = true;
  };
  owner = free;
  child = exited;
}

to_ended : Reach (fresh true) ended
unfolding break_test stop_poll linkedon_push.Thread.System.after_turn
to_ended = next (next (next to_awaited (cycle_end refl)) (join refl)) (poll_stop _ refl refl)

no_thread_without_tid_example : alive ended.child ≡ false
no_thread_without_tid_example = no_thread_without_tid true ended to_ended refl
