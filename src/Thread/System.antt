-- ===== src/Thread/System.antt =====
-- A thread object with its owner, who starts and stops it, and the thread that it runs: all orders in
-- which the two can go on. A step is what one of them does between two calls of the library.
use linkedon_push.Common.{ℕ, ◌≡◌, Bool, true, false, some}
use linkedon_push.Thread.{
  Thread, make_thread, interrupt, Starting, start, started, waits_for_cid, start_poll, Stopping,
  stop, stopped, joins, waits_for_end, stop_poll, cycle_enter, Turn, sleeps, cycles, ends,
  loop_test, hold_test, break_test,
}

-- Where the owner stands: outside, in `start`, in `st_thread_join`, or in the last loop of `dispose`.
pub data Owner : Type 0 where
  free starting joining settling : Owner

-- Where the thread stands: none was created, it has not run yet, it waits for `can_run`, it runs a cycle of
-- the handler, it sleeps between two cycles, it waits in a `stop` of its own, or it has exited.
pub data Child : Type 0 where
  absent created held cycling resting self_stopping exited : Child

pub record System : Type 0 where
  pub thread : Thread
  pub owner : Owner
  pub child : Child

abbrev pub fresh : Bool → System
fresh joinable = record { thread = make_thread joinable; owner = free; child = absent }

unfoldable pub after_start : System → Starting → System
after_start s (started ret) = s
after_start s (waits_for_cid t) = record { thread = t; owner = starting; child = created }

unfoldable pub after_stop : System → Stopping → System
after_stop s (stopped t) = record s { thread = t }
after_stop s (joins t) = record s { thread = t; owner = joining }
after_stop s (waits_for_end t) = record s { thread = t; owner = settling }

-- The same for a thread that stops itself.
unfoldable pub after_self_stop : System → Stopping → System
after_self_stop s (stopped t) = record s { thread = t }
after_self_stop s (joins t) = record s { thread = t; child = self_stopping }
after_self_stop s (waits_for_end t) = record s { thread = t; child = self_stopping }

-- `asleep` is where the thread stands if it sleeps next.
unfoldable pub after_turn : System → Child → Turn → System
after_turn s asleep sleeps = record s { child = asleep }
after_turn s asleep cycles = record s { child = cycling }
after_turn s asleep (ends t) = record s { thread = t; child = exited }

pub data Step (s : System) : System → Type 0 where
  -- The owner calls `start` or `stop`, and goes on in them.
  call_start : (created : Bool) → s.owner ≡ free → Step s (after_start s (start created s.thread))
  poll_start :
      (t : Thread)
      → s.owner ≡ starting
      → start_poll s.thread ≡ some t
      → Step s (record s { thread = t; owner = free })
  call_stop : s.owner ≡ free → Step s (after_stop s (stop false s.thread))
  -- st_thread_join(3) returns when the thread has exited, or with -1 before that.
  join : s.owner ≡ joining → Step s (record s { owner = settling })
  poll_stop :
      (t : Thread)
      → s.owner ≡ settling
      → stop_poll s.thread ≡ some t
      → Step s (record s { thread = t; owner = free })
  -- The thread runs.
  enter :
      (id : ℕ)
      → s.child ≡ created
      → Step s (record s { thread = cycle_enter id s.thread; child = held })
  hold : s.child ≡ held → Step s (after_turn s held (hold_test s.thread))
  cycle_end : s.child ≡ cycling → Step s (after_turn s resting (break_test s.thread))
  wake : s.child ≡ resting → Step s (after_turn s resting (loop_test s.thread))
  stop_self : s.child ≡ cycling → Step s (after_self_stop s (stop true s.thread))
  poll_self :
      (t : Thread)
      → s.child ≡ self_stopping
      → stop_poll s.thread ≡ some t
      → Step s (record s { thread = t; child = cycling })
  -- Anyone calls `interrupt`.
  interrupts : Step s (record s { thread = interrupt s.thread })

-- What can follow a state, in any number of steps.
pub data Reach (s : System) : System → Type 0 where
  here : Reach s s
  next : {t u : System} → Reach s t → Step t u → Reach s u
