-- ===== src/Thread/Finish.antt =====
-- That a `stop` of the owner can come to its end.
use linkedon_push.Common.{◌≡◌, Bool, true, false, not, ◌&&◌, ◌||◌}
use linkedon_push.Thread.{Thread}
use linkedon_push.Thread.System.{Owner, free, joining, settling, Child, exited, System, Reach}
use linkedon_push.Thread.Inv.{alive, entered, implies, Inv}

-- The owner is in `stop`.
abbrev pub stopping : Owner → Bool
stopping joining = true
stopping settling = true
stopping _ = false

abbrev has_exited : Child → Bool
has_exited exited = true
has_exited _ = false

record Closing (s : System) : Type 0 where
  told : implies (stopping s.owner) (not s.thread.loop && s.thread.tid) ≡ true
  begun : implies (s.thread.tid && stopping s.owner) (entered s.child || has_exited s.child) ≡ true
  over : implies (has_exited s.child) s.thread.really_terminated ≡ true
  dead : implies (not (alive s.child) && s.thread.tid) (has_exited s.child) ≡ true

-- The end of a `stop` behind `s`: the owner is outside again, and no thread is left.
pub record Finished (s : System) : Type 0 where
  pub end : System
  pub reached : Reach s end
  pub outside : end.owner ≡ free
  pub cleared : end.thread.tid ≡ false
  pub no_thread : alive end.child ≡ false
