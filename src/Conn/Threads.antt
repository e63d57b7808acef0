-- ===== src/Conn/Threads.antt =====
-- The objects of src/app/lpushRecvThread.cpp and src/app/lpushConsumThread.cpp: how they start and stop their
-- thread. The rounds of the two loops are in `Conn.Cycle`.
use linkedon_push.Common.{Bool, true, false}
use linkedon_push.Thread.{Thread, make_thread, Starting, start, Stopping, stop}

-- `LPushRecvThread` holds no state of its own but its thread.
unfoldable pub make_recv_thread : Thread
make_recv_thread = make_thread true

unfoldable pub start_recv : Bool → Thread → Starting
start_recv created trd = start created trd

-- `stop`, and the destructor, which is the same for the thread.
unfoldable pub stop_recv : Bool → Thread → Stopping
stop_recv by_itself trd = stop by_itself trd

pub record ConsumThread : Type 0 where
  pub trd : Thread
  pub can_run : Bool

unfoldable pub make_consum_thread : ConsumThread
make_consum_thread = record { trd = make_thread true; can_run = false }

unfoldable pub start_consum : Bool → ConsumThread → Starting × ConsumThread
start_consum created t = (start created t.trd, record t { can_run = true })

-- `stop` tells the loop of `cycle` only: the thread calls `cycle` again.
unfoldable pub stop_consum : ConsumThread → ConsumThread
stop_consum t = record t { can_run = false }

-- The destructor, with the destructor of its thread.
unfoldable pub destroy_consum : Bool → ConsumThread → Stopping × ConsumThread
unfolding stop_consum
destroy_consum by_itself t = let t' = stop_consum t in (stop by_itself t'.trd, t')
