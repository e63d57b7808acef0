-- ===== src/Conn/Heartbeat.antt =====
-- The heartbeat test of `do_cycle`: which times it compares.
use linkedon_push.Common.{ℕ, ◌+◌, ◌^◌, ◌<◌, ◌≡◌, ◌↔◌, ◌∙◌, true, some, arith, >>=-eq-some}
use linkedon_push.Heap.{Allocator}
use linkedon_push.Protocol.{Chunk, Data, null, block, uninit}
use linkedon_push.Conn.{Env, Session, sign_extend, is_expired}
use linkedon_push.Conn.Forward.{
  forward_server, dispatch, hreatbeat, do_dispose, recv_push_callback, callback_data, callback_ids,
}

expired_of_times :
    {S : Type 0} (s : Session S) (t1 t2 : ℕ)
    → t1 < 2 ^ 31
    → t2 < 2 ^ 31
    → s.before_data_time ≡ sign_extend t1
    → s.now_data_time ≡ sign_extend t2
    → (is_expired s ≡ true) ↔ (t1 + 60 < t2)
unfolding is_expired sign_extend
expired_of_times s t1 t2 h1 h2 e1 e2 = (λ h. ground arith, λ h. ground arith)

-- What `forwardServer` makes of the two times.
module _ {S : Type 0} (env : Env) (heap : Allocator) where
  times_after :
      (m : Chunk) (s s' : Session S) (ret : ℕ)
      → forward_server env heap m s ≡ some (ret, s')
      → s'.now_data_time ≡ sign_extend m.header.timestamp
  unfolding forward_server
  times_after m s s' ret e = let ((r, s1), d, f) = >>=-eq-some (dispatch env heap m s) _ e in cc f

  hreatbeat_times :
      (s s' : Session S) (ret : ℕ)
      → hreatbeat s ≡ some (ret, s')
      → s'.now_data_time ≡ s.now_data_time
  unfolding hreatbeat
  hreatbeat_times s s' ret e = ground arith

  dispose_times : (s s' : Session S) → do_dispose s ≡ some s' → s'.now_data_time ≡ s.now_data_time
  unfolding do_dispose
  dispose_times s s' e = ground arith

  callback_times :
      (m : Chunk) (s s' : Session S) (ret : ℕ)
      → recv_push_callback env heap m s ≡ some (ret, s')
      → s'.now_data_time ≡ s.now_data_time
  unfolding recv_push_callback
  callback_times m s s' ret e = data_times m.body e
    where
      data_times :
          (d : Data)
          → callback_data env heap d s ≡ some (ret, s')
          → s'.now_data_time ≡ s.now_data_time
      data_times null h = cc
      data_times uninit h = cc
      data_times (block buf) h =
          let (ids, got, f) = >>=-eq-some (callback_ids heap buf) _ h in ground (arith, f)

  dispatch_times :
      (m : Chunk) (s s' : Session S) (ret : ℕ)
      → dispatch env heap m s ≡ some (ret, s')
      → s'.now_data_time ≡ s.now_data_time
  unfolding dispatch
  dispatch_times m s s' ret e =
      ground (arith, hreatbeat_times s s' ret, callback_times m s s' ret, dispose_times s s')

  before_after :
      (m : Chunk) (s s' : Session S) (ret : ℕ)
      → forward_server env heap m s ≡ some (ret, s')
      → s'.before_data_time ≡ s.now_data_time
  unfolding forward_server
  before_after m s s' ret e =
      let ((r, s1), d, f) = >>=-eq-some (dispatch env heap m s) _ e in
      cc (f, dispatch_times m s s1 r d)

  -- After two messages that `forwardServer` handled, whatever their types, with timestamps below 2
  -- ^ 31, the connection counts as expired exactly if the second timestamp lies more than 60 above
  -- the first; how long the client was silent does not matter.
  pub expired_iff :
      (m1 m2 : Chunk) (s s1 s2 : Session S) (ret1 ret2 : ℕ)
      → m1.header.timestamp < 2 ^ 31
      → m2.header.timestamp < 2 ^ 31
      → forward_server env heap m1 s ≡ some (ret1, s1)
      → forward_server env heap m2 s1 ≡ some (ret2, s2)
      → (is_expired s2 ≡ true) ↔ (m1.header.timestamp + 60 < m2.header.timestamp)
  expired_iff m1 m2 s s1 s2 ret1 ret2 h1 h2 e1 e2 =
      let now1 = times_after m1 s s1 ret1 e1 in
      let now2 = times_after m2 s1 s2 ret2 e2 in
      let before2 = before_after m2 s1 s2 ret2 e2 in
      expired_of_times s2 m1.header.timestamp m2.header.timestamp h1 h2 (before2 ∙ now1) now2
