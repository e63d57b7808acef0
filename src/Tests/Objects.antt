-- ===== src/Tests/Objects.antt =====
-- POSIX threads, sockets, descriptors and thread ids at concrete inputs.
use linkedon_push.Common.{
  ℕ, ◌≡◌, ◌⊎◌, refl, true, false, List, [], ◌∷◌, some, nat_key, codes, arith,
}
use linkedon_push.Listener.{Listener, make_listener}
use linkedon_push.Listener.Closing.{Files}
use linkedon_push.Logger.Context.{Call, generates, gets, calls, get_id, make_log_context, ids_apart}
use linkedon_push.PThread.{
  System, fresh, joining, clearing, exited, here, next, begin_start, create, publish, let_go,
  begin_stop, test_disposed, read_run, test_loop, exit, return, join, mark, Reach, start_begin,
  start_create, start_publish, start_let_go, stop_begin, dispose_test, hold_run, loop_test,
  cycle_exit, make_pthread, stop_loop, dispose_mark,
}
use linkedon_push.PThread.Inv.{gone}
use linkedon_push.PThread.Joined.{stop_leaves_none}
use linkedon_push.Socket.Core.{make_socket}
use linkedon_push.Socket.Core.Agrees.{reads, core_call, st_call, st_socket, sockets_agree}
use linkedon_push.Socket.Pipe.{Ends, pipe}

-- `start`, then `stop` up to `pthread_join`.
abbrev at_join : System
at_join =
    dispose_test
      (stop_begin (start_let_go (start_publish (start_create true (start_begin fresh)).1)))

at_join-Reach : Reach fresh at_join
unfolding start_begin start_create start_publish start_let_go stop_begin make_pthread stop_loop
at_join-Reach =
    next
      (next
        (next (next (next (next here (begin_start refl refl)) (create true refl)) (publish refl))
          (let_go refl))
        (begin_stop refl))
      (test_disposed refl)

-- The thread goes on to its exit, and `stop` behind it.
abbrev at_exit : System
at_exit = record (cycle_exit (loop_test (hold_run at_join))) { child = exited }

abbrev at_clear : System
at_clear = dispose_mark (record at_exit { owner = linkedon_push.PThread.marking })

at_clear-Reach : Reach fresh at_clear
unfolding start_begin start_create start_publish start_let_go stop_begin dispose_test make_pthread
    stop_loop hold_run loop_test cycle_exit
at_clear-Reach =
    next
      (next
        (next (next (next (next at_join-Reach (read_run refl)) (test_loop refl)) (exit refl))
          (return refl))
        (join refl refl))
      (mark refl)

stop_leaves_none_example : gone at_clear.child ≡ true
unfolding dispose_mark
stop_leaves_none_example = stop_leaves_none at_clear at_clear-Reach refl

abbrev one_end : Ends
one_end = record { incoming = codes "ab"; outgoing = [] }

sockets_agree_example :
    core_call pipe (λ s. false) (reads 1) (make_socket 7 one_end)
    ≡ st_call pipe (reads 1) (st_socket (make_socket 7 one_end))
unfolding make_socket
sockets_agree_example = sockets_agree pipe (λ s. false) (reads 1) (make_socket 7 one_end) refl

-- A listener under descriptor 7, which a client gets while the destructor waits.
abbrev listening : Listener
listening = record make_listener { fd = some 7; stfd = some 8 }

abbrev meanwhile : Files → Files
meanwhile files = (7, 99) ∷ files

abbrev some_calls : List Call
some_calls = generates 5 ∷ gets 6 ∷ generates 8 ∷ []

ids_apart_example : ((get_id 5 (calls some_calls make_log_context)).0 ≡ 0) ⊎ (◌≡◌ {A = ℕ} 5 5)
ids_apart_example = ids_apart some_calls 5 5 (omega arith) refl
