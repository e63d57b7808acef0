-- ===== src/Server/Boot.antt =====
-- What holds when the main program has come to the server's cycle.
use linkedon_push.Common.{
  ℕ, ◌≡◌, ◌≤◌, refl, true, [], ◌∷◌, some, arith, Option-cases, Bool-cases, ltb, ◌⊎◌, ◌^◌, inl, inr,
  ap, sym, ◌∙◌,
}
use linkedon_push.Errors.{error_success}
use linkedon_push.Wire.{is_negative}
use linkedon_push.Config.{Config}
use linkedon_push.Listener.{
  Listener, Calls, make_listener, tcp_listen, open_stfd, start_thread, after_start, let_go,
}
use linkedon_push.Thread.{make_thread, start, start_poll, cycle_enter}
use linkedon_push.Server.{Server, close_listeners}
use linkedon_push.Server.Signals
use linkedon_push.Server.Signals.{start_ret, start_signals, make_signal_manager}
use linkedon_push.Server.Start.{
  PidCalls, Lock, locked, busy, failed, Boot, Run, cycles, returned, run, and_then, lp_st_init,
  initializer_st, acquire_pid_file, lock_pid, write_pid, listen_lpush,
}

and_then_cycles :
    (ret : ℕ) (s : Server) (rest : Run) {s' : Server}
    → and_then ret s rest ≡ cycles s'
    → (ret ≡ error_success) × (rest ≡ cycles s')
unfolding and_then
and_then_cycles ret s rest e = ground (arith)

lock_pid_lem :
    (c : PidCalls) (l : Lock) (fd : ℕ) (s : Server)
    → (lock_pid c l fd s).0 ≡ error_success
    → (l ≡ locked) × ((lock_pid c l fd s).1 ≡ record s { pid_fd = some fd })
unfolding lock_pid write_pid
lock_pid_lem c locked fd s e = (refl, ground arith)
lock_pid_lem c busy fd s e = absurd (omega arith)
lock_pid_lem c failed fd s e = absurd (omega arith)

-- If `acquire_pid_file` succeeds, the file was opened and locked, and its descriptor is kept; nothing else of the
-- server has changed.
pub acquire_pid_file_lem :
    (c : PidCalls) (s : Server)
    → (acquire_pid_file c s).0 ≡ error_success
    → (fd : ℕ) × (c.opened ≡ some fd)
      × (c.lock ≡ locked)
      × ((acquire_pid_file c s).1 ≡ record s { pid_fd = some fd })
unfolding acquire_pid_file
acquire_pid_file_lem c s e = elim (Option-cases c.opened) [
  | inl absent ↦ absurd (ground arith)
  | inr (fd, o) ↦ let (l, kept) = lock_pid_lem c c.lock fd s (rw o at e) in (fd, o, l, rw o kept)
]

-- If `listen` of a new TCP listener succeeds, it has both its descriptors and a thread.
pub tcp_listen_lem :
    (c : Calls)
    → (tcp_listen c make_listener).0 ≡ error_success
    → (fd : ℕ) × (stfd : ℕ) × ((tcp_listen c make_listener).1.fd ≡ some fd)
      × ((tcp_listen c make_listener).1.stfd ≡ some stfd)
      × ((tcp_listen c make_listener).1.thread.tid ≡ true)
unfolding tcp_listen open_stfd start_thread after_start let_go start start_poll cycle_enter
    make_thread
tcp_listen_lem c e = elim (Option-cases c.socket) [
  | inl absent ↦ absurd (ground arith)
  | inr (fd, o) ↦ elim (Option-cases c.netfd_open) [
    | inl absent ↦ absurd (ground arith)
    | inr (stfd, o') ↦ (fd, stfd, ground arith, ground arith, ground arith)
  ]
]

initializer_st_limit :
    (st_init : ℕ) (conf : Config)
    → initializer_st st_init conf ≡ error_success
    → (conf.maxconnect ≤ 32756) ⊎ (2 ^ 31 ≤ conf.maxconnect)
unfolding initializer_st
initializer_st_limit st_init conf e = elim (Bool-cases (ltb 32756 conf.maxconnect)) [
  | inl over ↦ elim (Bool-cases (is_negative conf.maxconnect)) [
    | inl negative ↦ inr (ground arith)
    | inr positive ↦ absurd (ground arith)
  ]
  | inr within ↦ inl (ground arith)
]

abbrev server_of : Run → Server
server_of (returned ret s) = s
server_of (cycles s) = s

-- If `run` comes to the server's cycle, `maxconnect` is at most 32756 or negative, the descriptor of the pid
-- file is kept, there is one listener, which has a descriptor and a thread, and the connections
-- and the two keys are those that there were before.
pub run_lem :
    (b : Boot) (conf : Config) (s : Server) {s' : Server}
    → run b conf s ≡ cycles s'
    → ((conf.maxconnect ≤ 32756) ⊎ (2 ^ 31 ≤ conf.maxconnect))
      × ((fd : ℕ) × (b.pid.opened ≡ some fd) × (s'.pid_fd ≡ some fd))
      × ((l : Listener) × (s'.listeners ≡ l ∷ [])
          × (l.thread.tid ≡ true)
          × ((fd : ℕ) × (l.fd ≡ some fd)))
      × (s'.conns ≡ s.conns)
      × (s'.server_key ≡ s.server_key)
      × (s'.task_key ≡ s.task_key)
unfolding run listen_lpush close_listeners
run_lem b conf s {s'} e =
    let s1 = (acquire_pid_file b.pid s).1 in
    let listening = listen_lpush b.calls s1 in
    let k5 = and_then listening.0 listening.1 (cycles listening.1) in
    let history = start_ret (start b.history_thread (make_thread true)) in
    let m = (Signals.initializer b.pipe b.pipe_opened make_signal_manager).1 in
    let signals = (start_signals b.signal_thread m).0 in
    let k3 = and_then signals s1 (and_then history s1 k5) in
    let piped = (Signals.initializer b.pipe b.pipe_opened make_signal_manager).0 in
    let (r1, e1) = and_then_cycles (initializer_st (lp_st_init b.st) conf) s _ e in
    let (r2, e2) = and_then_cycles (acquire_pid_file b.pid s).0 s1 (and_then piped s1 k3) e1 in
    let (r3, e3) = and_then_cycles piped s1 k3 e2 in
    let (r4, e4) = and_then_cycles signals s1 (and_then history s1 k5) e3 in
    let (r5, e5) = and_then_cycles history s1 k5 e4 in
    let (r6, e6) = and_then_cycles listening.0 listening.1 (cycles listening.1) e5 in
    let same : listening.1 ≡ s' = ap server_of e6 in
    let (fd, opened, l, kept) = acquire_pid_file_lem b.pid s r2 in
    let (sock, stfd, has_fd, has_stfd, has_thread) = tcp_listen_lem b.calls r6 in
    (
      initializer_st_limit (lp_st_init b.st) conf r1,
      (fd, opened, ap (λ (x : Server). x.pid_fd) (sym same) ∙ ap (λ (x : Server). x.pid_fd) kept),
      (
        (tcp_listen b.calls make_listener).1,
        ap (λ (x : Server). x.listeners) (sym same),
        has_thread,
        (sock, has_fd),
      ),
      ap (λ (x : Server). x.conns) (sym same) ∙ ap (λ (x : Server). x.conns) kept,
      ap (λ (x : Server). x.server_key) (sym same) ∙ ap (λ (x : Server). x.server_key) kept,
      ap (λ (x : Server). x.task_key) (sym same) ∙ ap (λ (x : Server). x.task_key) kept,
    )
