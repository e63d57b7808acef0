-- ===== src/Conn/Cycle/Single.antt =====
-- One round of the consume thread.
use linkedon_push.Common.{
  ◌≡◌, ◌<◌, ◌^◌, refl, ap, sym, ◌∙◌, true, List, [], ◌∷◌, ◌++◌, some, Bytes, length, find, nat_key,
  find-replace, replace, append-nil, append_assoc, arith, ℕ, ◌⊎◌, inl, inr, take, false, ◌==◌,
  ◌>>=◌,
}
use linkedon_push.Errors.{error_success, error_socket_timeout, error_socket_write}
use linkedon_push.Socket.{StIo}
use linkedon_push.Socket.Stream.{IsWriter}
use linkedon_push.Protocol.Packet.{packet}
use linkedon_push.Source.Message.{WorkerMessage, Members, to_json_string}
use linkedon_push.Source.Message.RoundTrip.{copy_lem}
use linkedon_push.Source.Registry.{
  Registry, Client, Queue, push, queue_push, pop, queue_pop, can_loop, queue_empty,
}
use linkedon_push.Source.Keys.{AppKey, Platform}
use linkedon_push.Conn.{Env, Session, log, redis_del, redis_zrem}
use linkedon_push.Conn.Forward.{do_dispose}
use linkedon_push.Conn.Push.{json_value, push_header, playing, send_forward, send_forward_lem}
use linkedon_push.Conn.Cycle.{Round, arrive, consume_round}

-- The push packet of a message, with the clock of its round.
abbrev pub push_packet : (Members → Bytes) → ℕ → WorkerMessage → Bytes
push_packet to_styled_string time m =
    let json = to_json_string to_styled_string m in packet (push_header time json) (json_value json)

-- The texts of these messages fit into a packet.
abbrev pub IsShort : (Members → Bytes) → WorkerMessage → Type 0
IsShort to_styled_string m = length (to_json_string to_styled_string m) < 2 ^ 30

pub find-arrive :
    (source : ℕ) (ms : List WorkerMessage) (q : Queue) (reg : Registry)
    → find source reg.queues ≡ some q
    → (reg' : Registry) × (arrive source ms reg ≡ some reg')
      × (find source reg'.queues ≡ some (q ++ ms))
unfolding arrive push queue_push
find-arrive source [] q reg e = (reg, refl, e ∙ ap some (sym (append-nil q)))
find-arrive source (m ∷ ms) q reg e =
    let reg1 = record reg { queues = replace source (q ++ (m ∷ [])) reg.queues } in
    let there : find source reg1.queues ≡ some (q ++ (m ∷ [])) =
      ground (arith, find-replace source source (q ++ (m ∷ [])) reg.queues, e) in
    let (reg', ran, left) = find-arrive source ms (q ++ (m ∷ [])) reg1 there in
    (reg', rw e ran, left ∙ ap some (append_assoc q (m ∷ []) ms))

-- `do_dispose` of a session that was registered.
abbrev disposed_of : {S : Type 0} → AppKey → Platform → Session S → Session S
disposed_of app platform s =
    log
      (redis_del s.client_key
        ∷ redis_zrem app.app_key app.key
        ∷ redis_zrem platform.platform_key platform.key
        ∷ [])
      (record s { dispose = true })

do_dispose_lem :
    {S : Type 0} (s : Session S) {app : AppKey} {platform : Platform}
    → s.redis_app ≡ some app
    → s.redis_platform ≡ some platform
    → do_dispose s ≡ some (disposed_of app platform s)
unfolding do_dispose
do_dispose_lem s {app} {platform} a p =
    ap (λ o. o >>= λ x. s.redis_platform >>= λ y. some (disposed_of x y s)) a
    ∙ ap (λ o. o >>= λ y. some (disposed_of app y s)) p

module _ (rt : StIo) (sent : rt.State → Bytes) (writer : IsWriter rt sent)
    (to_styled_string : Members → Bytes) (client : Client) where
  -- What a round on a queue that has a message comes to.
  pub record Forwarded (env : Env) (m : WorkerMessage) (q : Queue) (s s' : Session rt.State)
      : Type 0 where
    pub round : consume_round rt env to_styled_string client s ≡ some (true, error_success, s')
    pub taken : find client.source s'.registry.queues ≡ some q
    pub same_app : s'.redis_app ≡ s.redis_app
    pub same_platform : s'.redis_platform ≡ s.redis_platform
    pub out : sent s'.skt.io ≡ sent s.skt.io ++ push_packet to_styled_string env.time m

  pub record Failed (env : Env) (m : WorkerMessage) (s : Session rt.State) (r : Round rt.State)
      : Type 0 where
    pub round : consume_round rt env to_styled_string client s ≡ some r
    pub ends : r.0 ≡ false
    pub disposed : r.2.dispose ≡ true
    pub code : (r.1 ≡ error_socket_timeout) ⊎ (r.1 ≡ error_socket_write)
    pub part : ℕ
    pub out : sent r.2.skt.io ≡ sent s.skt.io ++ take part (push_packet to_styled_string env.time m)

  pub consume_round_lem :
      (env : Env) (m : WorkerMessage) (q : Queue) (s : Session rt.State) {app : AppKey}
      {platform : Platform}
      → find client.source s.registry.queues ≡ some (m ∷ q)
      → IsShort to_styled_string m
      → s.redis_app ≡ some app
      → s.redis_platform ≡ some platform
      → ((s' : Session rt.State) × Forwarded env m q s s')
        ⊎ ((r : Round rt.State) × Failed env m s r)
  unfolding consume_round can_loop queue_empty playing pop queue_pop send_forward
  consume_round_lem env m q s {app} {platform} there short has_app has_platform =
      let taken = record s.registry { queues = replace client.source q s.registry.queues } in
      let s1 = record s { registry = taken } in
      let (ret, skt', ran, sent_or) =
        send_forward_lem rt env sent writer to_styled_string m s1 short in
      elim sent_or [
        | inl (ok, out) ↦ inl (
          record s1 { skt = skt' },
          record {
            round = rw (there, copy_lem m, ran, ok) refl;
            taken =
                ground (arith, find-replace client.source client.source q s.registry.queues, there);
            same_app = refl;
            same_platform = refl;
            out = out;
          },
        )
        | inr (code, (part, out)) ↦ inr (
          (false, ret, disposed_of app platform (record s1 { skt = skt' })),
          record {
            round =
                rw (there, copy_lem m, ran, error_code ret code)
                  (rw (do_dispose_lem (record s1 { skt = skt' }) has_app has_platform)
                    (rw (error_code ret code) refl));
            ends = refl;
            disposed = refl;
            code = code;
            part = part;
            out = out;
          },
        )
      ]
    where
      error_code :
          (ret : ℕ)
          → (ret ≡ error_socket_timeout) ⊎ (ret ≡ error_socket_write)
          → (ret == error_success) ≡ false
      error_code ret (inl e) = rw e refl
      error_code ret (inr e) = rw e refl

  pub idle_round :
      (env : Env) (s : Session rt.State)
      → find client.source s.registry.queues ≡ some []
      → consume_round rt env to_styled_string client s ≡ some (true, error_success, s)
  unfolding consume_round can_loop queue_empty
  idle_round env s e = rw e refl
