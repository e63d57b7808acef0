-- ===== src/PThread/Inv.antt =====
-- What holds of a POSIX thread object between any two accesses of its flags.
use linkedon_push.Common.{◌≡◌, refl, Bool, true, false, not, ◌&&◌, ◌||◌, arith}
use linkedon_push.PThread.{
  make_pthread, stop_loop, Owner, creating, publishing, disposing, joining, marking, clearing,
  Child, absent, returning, exited, System, fresh, start_begin, start_create, start_publish,
  start_let_go, stop_begin, dispose_test, dispose_mark, stop_clear, hold_run, hold_loop, loop_test,
  break_test, cycle_exit, Step, begin_start, create, publish, let_go, begin_stop, test_disposed,
  join, mark, clear, read_run, read_loop, test_loop, cycle, test_break, exit, return, stops_loop,
  Reach, here, next,
}

-- The thread does not touch the object any more, or it never did.
abbrev pub gone : Child → Bool
gone absent = true
gone returning = true
gone exited = true
gone _ = false

abbrev pub has_exited : Child → Bool
has_exited exited = true
has_exited _ = false

abbrev is_absent : Child → Bool
is_absent absent = true
is_absent _ = false

-- The owner is in `start` before `disposed = false`.
abbrev unpublished : Owner → Bool
unpublished creating = true
unpublished publishing = true
unpublished _ = false

abbrev is_creating : Owner → Bool
is_creating creating = true
is_creating _ = false

-- The owner is in `stop`.
abbrev pub in_stop : Owner → Bool
in_stop disposing = true
in_stop joining = true
in_stop marking = true
in_stop clearing = true
in_stop _ = false

abbrev is_marking : Owner → Bool
is_marking marking = true
is_marking _ = false

abbrev is_clearing : Owner → Bool
is_clearing clearing = true
is_clearing _ = false

-- There is a thread.
abbrev with_child : Owner → Bool
with_child publishing = true
with_child joining = true
with_child _ = false

abbrev implies : Bool → Bool → Bool
implies true b = b
implies false b = true

pub record Inv (s : System) : Type 0 where
  pub over : implies (s.thread.disposed && not (unpublished s.owner)) (gone s.child) ≡ true
  pub unborn : implies (is_creating s.owner) (is_absent s.child) ≡ true
  pub joined : implies (is_marking s.owner) (has_exited s.child) ≡ true
  pub cleared : implies (is_clearing s.owner) (gone s.child) ≡ true
  pub told : implies (in_stop s.owner) (not s.thread.loop) ≡ true
  pub born : implies (with_child s.owner || not s.thread.disposed) (not (is_absent s.child)) ≡ true

pub fresh-Inv : Inv fresh
unfolding make_pthread
fresh-Inv = record {
  over = refl;
  unborn = refl;
  joined = refl;
  cleared = refl;
  told = refl;
  born = refl;
}

pub Step-Inv : {s s' : System} → Step s s' → Inv s → Inv s'
unfolding stop_loop start_begin start_create start_publish start_let_go stop_begin dispose_test
    dispose_mark stop_clear hold_run hold_loop loop_test break_test cycle_exit
Step-Inv (begin_start o c) v = ground arith
Step-Inv (create made o) v = ground arith
Step-Inv (publish o) v = ground arith
Step-Inv (let_go o) v = ground arith
Step-Inv (begin_stop o) v = ground arith
Step-Inv (test_disposed o) v = ground arith
Step-Inv (join o c) v = ground arith
Step-Inv (mark o) v = ground arith
Step-Inv (clear o) v = ground arith
Step-Inv (read_run c) v = ground arith
Step-Inv (read_loop c) v = ground arith
Step-Inv (test_loop c) v = ground arith
Step-Inv (cycle c) v = ground arith
Step-Inv (test_break c) v = ground arith
Step-Inv (exit c) v = ground arith
Step-Inv (return c) v = ground arith
Step-Inv stops_loop v = ground arith

pub Reach-Inv : {s s' : System} → Reach s s' → Inv s → Inv s'
Reach-Inv here v = v
Reach-Inv (next r st) v = Step-Inv st (Reach-Inv r v)
