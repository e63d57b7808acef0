-- ===== src/Listener.antt =====
-- src/app/lpushAppListener.cpp: the sockets that the server listens at. What a call of the operating system or of
-- the state-threads library answers is in `Calls`; descriptors are numbers.
pub mod Closing
use linkedon_push.Common.{ℕ, Bool, true, false, not, Option, none, some, if◌then◌else◌, Bytes}
use linkedon_push.Errors.{
  error_success, error_socket_create, error_socket_setreuse, error_socket_bind, error_socket_listen,
  error_st_open_socket,
}
use linkedon_push.Thread.{
  Thread, make_thread, Starting, started, waits_for_cid, start, start_poll, cycle_enter,
}

-- The answers of socket(2), setsockopt(2), bind(2), listen(2) and `st_netfd_open_socket`, and the id that the thread
-- takes if `st_thread_create` succeeds.
pub record Calls : Type 0 where
  pub socket : Option ℕ
  pub setsockopt : Bool
  pub bind : Bool
  pub listen : Bool
  pub netfd_open : Option ℕ
  pub thread_create : Option ℕ

-- `LPushTcpListener` and `LPushUdpListener`: `_fd`, which is -1 before, `_stfd` and `pthread`.
pub record Listener : Type 0 where
  pub fd : Option ℕ
  pub stfd : Option ℕ
  pub thread : Thread

-- The constructors; `LPushReusableThread` makes a joinable thread.
abbrev pub make_listener : Listener
make_listener = record { fd = none; stfd = none; thread = make_thread true }

-- The wait of `start` for the id of its thread, which goes by while the thread enters its cycle.
unfoldable pub let_go : ℕ → Thread → Thread
unfolding cycle_enter start_poll
let_go id t = let t' = cycle_enter id t in elim (start_poll t') [ none ↦ t' | some t2 ↦ t2 ]

-- `pthread->start()` and its return code.
unfoldable pub after_start : ℕ → Starting → Listener → ℕ × Listener
unfolding let_go
after_start id (started ret) l = (ret, l)
after_start id (waits_for_cid t) l = (error_success, record l { thread = let_go id t })

unfoldable pub start_thread : Option ℕ → Listener → ℕ × Listener
unfolding after_start start
start_thread none l = after_start 0 (start false l.thread) l
start_thread (some id) l = after_start id (start true l.thread) l

-- From `st_netfd_open_socket` on.
unfoldable pub open_stfd : Calls → Listener → ℕ × Listener
unfolding start_thread
open_stfd c l = elim c.netfd_open [
  | none ↦ (error_st_open_socket, record l { stfd = none })
  | some stfd ↦ start_thread c.thread_create (record l { stfd = some stfd })
]

-- `LPushTcpListener::listen`.
unfoldable pub tcp_listen : Calls → Listener → ℕ × Listener
unfolding open_stfd
tcp_listen c l = elim c.socket [
  | none ↦ (error_socket_create, record l { fd = none })
  | some fd ↦
      let l' = record l { fd = some fd } in
      if not c.setsockopt
      then (error_socket_setreuse, l')
      else if not c.bind
      then (error_socket_bind, l')
      else if not c.listen
      then (error_socket_listen, l')
      else open_stfd c l'
]

-- `LPushUdpListener::listen`.
unfoldable pub udp_listen : Calls → Listener → ℕ × Listener
unfolding open_stfd
udp_listen c l = elim c.socket [
  | none ↦ (error_socket_create, record l { fd = none })
  | some fd ↦
      let l' = record l { fd = some fd } in
      if not c.setsockopt
      then (error_socket_setreuse, l')
      else if not c.bind
      then (error_socket_bind, l')
      else open_stfd c l'
]

-- `LPushTcpListener::cycle`: what `st_accept` returned, and the handler of a new client.
unfoldable pub tcp_cycle {ℓ} : {S : Type ℓ} → (ℕ → S → ℕ × S) → Option ℕ → S → ℕ × S
tcp_cycle on_tcp_client none s = (error_success, s)
tcp_cycle on_tcp_client (some client_stfd) s = on_tcp_client client_stfd s

-- `LPushUdpListener::cycle`: the packet, or nothing if `st_recvfrom` failed or read no byte.
unfoldable pub udp_cycle {ℓ} : {S : Type ℓ} → (Bytes → S → ℕ × S) → Option Bytes → S → ℕ × S
udp_cycle on_udp_packet none s = (error_success, s)
udp_cycle on_udp_packet (some packet) s = on_udp_packet packet s
