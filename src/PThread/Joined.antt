-- ===== src/PThread/Joined.antt =====
-- What `stop` of a POSIX thread object comes to.
use linkedon_push.Common.{◌≡◌, ◌≢◌, refl, ap, ◌⊎◌, inl, Bool, true, false, arith}
use linkedon_push.PThread.{
  stop_loop, Owner, free, disposing, joining, marking, clearing, cycling, checking, ending,
  returning, exited, System, fresh, start_begin, start_create, start_publish, start_let_go,
  stop_begin, dispose_test, dispose_mark, stop_clear, hold_run, hold_loop, loop_test, break_test,
  cycle_exit, Step, begin_start, create, publish, let_go, begin_stop, test_disposed, join, mark,
  clear, read_run, read_loop, test_loop, cycle, test_break, exit, return, stops_loop, Reach, here,
  next,
}
use linkedon_push.PThread.Inv.{Inv, fresh-Inv, Reach-Inv, gone}

-- The owner is neither in `start` nor in `pthread_join`.
abbrev pub unjoined : Owner → Bool
unjoined free = true
unjoined disposing = true
unjoined clearing = true
unjoined _ = false

Inv-clearing : {s : System} → Inv s → s.owner ≡ clearing → gone s.child ≡ true
Inv-clearing v o = ground arith

-- In every order of the accesses of the two threads, when `stop` is behind `dispose`, the thread does not touch
-- the object any more: none was created, it has exited, or it is behind its last access.
pub stop_leaves_none : (s : System) → Reach fresh s → s.owner ≡ clearing → gone s.child ≡ true
stop_leaves_none s r = Inv-clearing (Reach-Inv r fresh-Inv)

-- The end of a `stop` behind `s`.
pub record Finished (s : System) : Type 0 where
  pub end : System
  pub reached : Reach s end
  pub outside : end.owner ≡ free
  pub no_thread : gone end.child ≡ true

one_more : {s t : System} → Step s t → Finished t → Finished s
one_more st f = record {
  end = f.end;
  reached = before st f.reached;
  outside = f.outside;
  no_thread = f.no_thread;
}
  where
    before : {s t u : System} → Step s t → Reach t u → Reach s u
    before st here = next here st
    before st (next r st') = next (before st r) st'

finish_clearing : (s : System) → s.owner ≡ clearing → gone s.child ≡ true → Finished s
unfolding stop_clear
finish_clearing s o g = record {
  end = stop_clear s;
  reached = next here (clear o);
  outside = refl;
  no_thread = g;
}

finish_marking : (s : System) → s.owner ≡ marking → s.child ≡ exited → Finished s
unfolding dispose_mark
finish_marking s o c = one_more (mark o) (finish_clearing (dispose_mark s) refl (ap gone c))

-- While the owner joins, the thread goes on to its exit from every place, `loop` being false.
finish_exited : (s : System) → s.owner ≡ joining → s.child ≡ exited → Finished s
finish_exited s o c = one_more (join o c) (finish_marking (record s { owner = marking }) refl c)

finish_returning : (s : System) → s.owner ≡ joining → s.child ≡ returning → Finished s
finish_returning s o c = one_more (return c) (finish_exited (record s { child = exited }) o refl)

finish_ending : (s : System) → s.owner ≡ joining → s.child ≡ ending → Finished s
unfolding cycle_exit
finish_ending s o c = one_more (exit c) (finish_returning (cycle_exit s) o refl)

module _ (s : System) (o : s.owner ≡ joining) (told : s.thread.loop ≡ false) where
  finish_checking : s.child ≡ checking → Finished s
  unfolding break_test
  finish_checking c = one_more (test_break c) (finish_ending (break_test s) o (rw told refl))

pub finish_cycling :
    (s : System) → s.owner ≡ joining → s.thread.loop ≡ false → s.child ≡ cycling → Finished s
finish_cycling s o told c =
    one_more (cycle c) (finish_checking (record s { child = checking }) o told refl)

record Ended (s : System) : Type 0 where
  disposed : s.thread.disposed ≡ true
  at_end : (s.child ≡ returning) ⊎ (s.child ≡ exited)
  apart : unjoined s.owner ≡ true

Step-Ended : {s s' : System} → Step s s' → Ended s → Ended s'
unfolding stop_loop start_begin start_create start_publish start_let_go stop_begin dispose_test
    dispose_mark stop_clear hold_run hold_loop loop_test break_test cycle_exit
Step-Ended (begin_start o c) v = ground arith
Step-Ended (create made o) v = ground arith
Step-Ended (publish o) v = ground arith
Step-Ended (let_go o) v = ground arith
Step-Ended (begin_stop o) v = ground arith
Step-Ended (test_disposed o) v = ground arith
Step-Ended (join o c) v = ground arith
Step-Ended (mark o) v = ground arith
Step-Ended (clear o) v = ground arith
Step-Ended (read_run c) v = ground arith
Step-Ended (read_loop c) v = ground arith
Step-Ended (test_loop c) v = ground arith
Step-Ended (cycle c) v = ground arith
Step-Ended (test_break c) v = ground arith
Step-Ended (exit c) v = ground arith
Step-Ended (return c) v = ground arith
Step-Ended stops_loop v = ground arith

Reach-Ended : {s s' : System} → Reach s s' → Ended s → Ended s'
Reach-Ended here v = v
Reach-Ended (next r st) v = Step-Ended st (Reach-Ended r v)

-- A thread that has ended by itself while nobody was in `start` or `stop` is never joined: in every state that
-- follows, `stop` does not wait in `pthread_join`.
pub never_joined :
    (s s' : System)
    → s.thread.disposed ≡ true
    → s.child ≡ returning
    → s.owner ≡ free
    → Reach s s'
    → s'.owner ≢ joining
never_joined s s' d c o r z =
    let v = Reach-Ended r (record { disposed = d; at_end = inl c; apart = ap unjoined o }) in
    absurd (ground arith)
