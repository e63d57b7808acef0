-- ===== src/Thread/Inv.antt =====
-- What holds of a thread object, its owner and its thread between any two steps.
use linkedon_push.Common.{◌≡◌, refl, Bool, true, false, not, ◌&&◌, none, some, arith}
use linkedon_push.Thread.{
  make_thread, interrupt, start, start_poll, stop, stop_poll, cycle_enter, loop_test, hold_test,
  break_test,
}
use linkedon_push.Thread.System.{
  Owner, free, starting, Child, absent, created, held, exited, System, fresh, after_start,
  after_stop, after_self_stop, after_turn, Step, call_start, poll_start, call_stop, join, poll_stop,
  enter, hold, cycle_end, wake, stop_self, poll_self, interrupts, Reach, here, next,
}

-- The thread was created and has not exited.
abbrev pub alive : Child → Bool
alive absent = false
alive exited = false
alive _ = true

-- It has run, too.
abbrev pub entered : Child → Bool
entered created = false
entered c = alive c

-- It has been let go by `start`.
abbrev pub at_work : Child → Bool
at_work held = false
at_work c = entered c

abbrev is_free : Owner → Bool
is_free free = true
is_free _ = false

abbrev is_starting : Owner → Bool
is_starting starting = true
is_starting _ = false

abbrev pub implies : Bool → Bool → Bool
implies true b = b
implies false b = true

pub record Inv (s : System) : Type 0 where
  pub live : implies (alive s.child) (s.thread.tid && not s.thread.disposed) ≡ true
  pub unfinished : implies (entered s.child) (not s.thread.really_terminated) ≡ true
  pub known : implies (entered s.child) (elim s.thread.cid [ none ↦ false | some c ↦ true ]) ≡ true
  pub waited :
      implies
        (alive s.child && not (entered s.child))
        (is_starting s.owner && elim s.thread.cid [ none ↦ true | some c ↦ false ])
      ≡ true
  pub let_go : implies (at_work s.child) s.thread.can_run ≡ true
  pub unborn :
      implies
        (not s.thread.tid)
        (is_free s.owner && elim s.thread.cid [ none ↦ true | some c ↦ false ])
      ≡ true

pub fresh-Inv : (joinable : Bool) → Inv (fresh joinable)
unfolding make_thread
fresh-Inv joinable = record {
  live = refl;
  unfinished = refl;
  known = refl;
  waited = refl;
  let_go = refl;
  unborn = refl;
}

pub Step-Inv : {s s' : System} → Step s s' → Inv s → Inv s'
unfolding start start_poll stop stop_poll cycle_enter loop_test hold_test break_test interrupt
    after_start after_stop after_self_stop after_turn
Step-Inv (call_start c o) v = ground arith
Step-Inv (poll_start t o e) v = ground arith
Step-Inv (call_stop o) v = ground arith
Step-Inv (join o) v = ground arith
Step-Inv (poll_stop t o e) v = ground arith
Step-Inv (enter id c) v = ground arith
Step-Inv (hold c) v = ground arith
Step-Inv (cycle_end c) v = ground arith
Step-Inv (wake c) v = ground arith
Step-Inv (stop_self c) v = ground arith
Step-Inv (poll_self t c e) v = ground arith
Step-Inv interrupts v = ground arith

pub Reach-Inv : {s s' : System} → Reach s s' → Inv s → Inv s'
Reach-Inv here v = v
Reach-Inv (next r st) v = Step-Inv st (Reach-Inv r v)
