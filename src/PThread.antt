-- ===== src/PThread.antt =====
-- src/app/lpushPThread.cpp: `LPushPThread`, a handler in a POSIX thread. The two threads run at the same time and
-- share the flags without a lock, so each function below is what one of them does up to its next
-- access of a flag, or its next call of the library. `_pid` is unsigned: `while (_pid < 0)` is never entered.
pub mod Inv
pub mod Joined
use linkedon_push.Common.{ℕ, ◌≡◌, Bool, true, false, if◌then◌else◌}
use linkedon_push.Errors.{error_success, error_pthread_create}

pub record PThread : Type 0 where
  pub can_run : Bool
  pub loop : Bool
  pub disposed : Bool

unfoldable pub make_pthread : PThread
make_pthread = record { can_run = false; loop = false; disposed = true }

unfoldable pub can_loop : PThread → Bool
can_loop t = t.can_run

unfoldable pub stop_loop : PThread → PThread
stop_loop t = record t { loop = false }

-- Where the caller of `start` and `stop` stands: outside; in `start` before `pthread_create`, before
-- `disposed = false`, before `can_run = true`; in `stop` before the test of `dispose`, in
-- `pthread_join`, behind it, and before `can_run = false`.
pub data Owner : Type 0 where
  free creating publishing letting_go disposing joining marking clearing : Owner

-- Where the thread stands in `thread_cycle`: there is none; before each read of the loop that waits; before
-- the test of the main loop; in the handler; before the test behind it; before `disposed = true`;
-- behind that, where it does not touch the object any more; and it has exited.
pub data Child : Type 0 where
  absent held held_on testing cycling checking ending returning exited : Child

pub record System : Type 0 where
  pub thread : PThread
  pub owner : Owner
  pub child : Child

abbrev pub fresh : System
fresh = record { thread = make_pthread; owner = free; child = absent }

-- `start`, in its four parts; the second gives its return code.
unfoldable pub start_begin : System → System
start_begin s = record s { thread = record (s.thread) { loop = true }; owner = creating }

unfoldable pub start_create : Bool → System → ℕ × System
start_create created s =
    if created
    then (error_success, record s { owner = publishing; child = held })
    else (error_pthread_create, record s { owner = free })

unfoldable pub start_publish : System → System
start_publish s = record s { thread = record (s.thread) { disposed = false }; owner = letting_go }

unfoldable pub start_let_go : System → System
start_let_go s = record s { thread = record (s.thread) { can_run = true }; owner = free }

-- `stop` with `dispose`.
unfoldable pub stop_begin : System → System
unfolding stop_loop
stop_begin s = record s { thread = stop_loop s.thread; owner = disposing }

unfoldable pub dispose_test : System → System
dispose_test s =
    if s.thread.disposed then record s { owner = clearing } else record s { owner = joining }

unfoldable pub dispose_mark : System → System
dispose_mark s = record s { thread = record (s.thread) { disposed = true }; owner = clearing }

unfoldable pub stop_clear : System → System
stop_clear s = record s { thread = record (s.thread) { can_run = false }; owner = free }

-- `thread_cycle`.
unfoldable pub hold_run : System → System
hold_run s = record s { child = if s.thread.can_run then testing else held_on }

unfoldable pub hold_loop : System → System
hold_loop s = record s { child = if s.thread.loop then held else testing }

unfoldable pub loop_test : System → System
loop_test s = record s { child = if s.thread.loop then cycling else ending }

unfoldable pub break_test : System → System
break_test s = record s { child = if s.thread.loop then testing else ending }

unfoldable pub cycle_exit : System → System
cycle_exit s = record s { thread = record (s.thread) { disposed = true }; child = returning }

-- One step of either thread. An object is started once: a second thread would take the place of the first.
pub data Step (s : System) : System → Type 0 where
  begin_start : s.owner ≡ free → s.child ≡ absent → Step s (start_begin s)
  create : (created : Bool) → s.owner ≡ creating → Step s (start_create created s).1
  publish : s.owner ≡ publishing → Step s (start_publish s)
  let_go : s.owner ≡ letting_go → Step s (start_let_go s)
  begin_stop : s.owner ≡ free → Step s (stop_begin s)
  test_disposed : s.owner ≡ disposing → Step s (dispose_test s)
  -- pthread_join(3) returns when the thread has exited.
  join : s.owner ≡ joining → s.child ≡ exited → Step s (record s { owner = marking })
  mark : s.owner ≡ marking → Step s (dispose_mark s)
  clear : s.owner ≡ clearing → Step s (stop_clear s)
  read_run : s.child ≡ held → Step s (hold_run s)
  read_loop : s.child ≡ held_on → Step s (hold_loop s)
  test_loop : s.child ≡ testing → Step s (loop_test s)
  cycle : s.child ≡ cycling → Step s (record s { child = checking })
  test_break : s.child ≡ checking → Step s (break_test s)
  exit : s.child ≡ ending → Step s (cycle_exit s)
  return : s.child ≡ returning → Step s (record s { child = exited })
  -- Anyone calls `stop_loop`.
  stops_loop : Step s (record s { thread = stop_loop s.thread })

pub data Reach (s : System) : System → Type 0 where
  here : Reach s s
  next : {t u : System} → Reach s t → Step t u → Reach s u
