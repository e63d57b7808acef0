-- ===== src/Conn/Cycle/Consume.antt =====
-- What the rounds of the consume thread do to the queue of its client and to the stream.
use linkedon_push.Common.{
  ◌≡◌, refl, ap, sym, ◌∙◌, true, List, [], ◌∷◌, ◌++◌, some, Bytes, length, All, find, nat_key,
  append-nil, append_assoc, arith, ℕ, ◌≤◌, ◌⊎◌, inl, inr, take, false, length-append,
}
use mathlib.Core.Path.{subst}
use linkedon_push.Errors.{error_success, error_socket_timeout, error_socket_write}
use linkedon_push.Socket.{StIo}
use linkedon_push.Socket.Stream.{IsWriter}
use linkedon_push.Source.Message.{WorkerMessage, Members}
use linkedon_push.Source.Registry.{Client, Queue}
use linkedon_push.Source.Keys.{AppKey, Platform}
use linkedon_push.Conn.{Env, Session}
use linkedon_push.Conn.Cycle.{Round, Turn, consume_rounds}
use linkedon_push.Conn.Cycle.Single.{
  push_packet, IsShort, find-arrive, Failed, consume_round_lem, idle_round,
}

-- The packets of these messages, in their order.
abbrev pub pushed : (Members → Bytes) → List (ℕ × WorkerMessage) → Bytes
pushed to_styled_string [] = []
pushed to_styled_string ((time, m) ∷ ms) =
    push_packet to_styled_string time m ++ pushed to_styled_string ms

abbrev pub sent_messages : List (ℕ × WorkerMessage) → List WorkerMessage
sent_messages [] = []
sent_messages ((time, m) ∷ ms) = m ∷ sent_messages ms

-- All that comes in these rounds.
abbrev pub arrivals : List Turn → List WorkerMessage
arrivals [] = []
arrivals ((env, ms) ∷ turns) = ms ++ arrivals turns

-- Each message has the clock of a round, a later message that of a later round.
pub data Stamped : List (ℕ × WorkerMessage) → List Turn → Type 0 where
  unused : {turns : List Turn} → Stamped [] turns
  idle :
      {done : List (ℕ × WorkerMessage)} {turns : List Turn} {t : Turn}
      → Stamped done turns
      → Stamped done (t ∷ turns)
  used :
      {done : List (ℕ × WorkerMessage)} {turns : List Turn} {t : Turn} {m : WorkerMessage}
      → Stamped done turns
      → Stamped ((t.0.time, m) ∷ done) (t ∷ turns)

module _ (rt : StIo) (sent : rt.State → Bytes) (writer : IsWriter rt sent)
    (to_styled_string : Members → Bytes) (client : Client) where
  -- What some rounds leave of a session whose client had the queue `q`.
  pub record Consumed (turns : List Turn) (q : Queue) (s : Session rt.State) (r : Round rt.State)
      : Type 0 where
    pub done : List (ℕ × WorkerMessage)
    pub left : Queue
    pub stamped : Stamped done turns
    pub in_order : sent_messages done ++ left ≡ q ++ arrivals turns
    pub outcome :
        ((r.0 ≡ true)
          × (find client.source r.2.registry.queues ≡ some left)
          × (sent r.2.skt.io ≡ sent s.skt.io ++ pushed to_styled_string done)
          × ((length q ≤ length done) ⊎ (length turns ≤ length done)))
        ⊎ ((r.0 ≡ false)
            × (r.2.dispose ≡ true)
            × ((r.1 ≡ error_socket_timeout) ⊎ (r.1 ≡ error_socket_write))
            × ((time part : ℕ) × (m : WorkerMessage) × (rest : Queue) × (left ≡ m ∷ rest)
                × (sent r.2.skt.io
                    ≡ sent s.skt.io
                      ++ (pushed to_styled_string done
                          ++ take part (push_packet to_styled_string time m)))))

  here_lem :
      (q : Queue) (s : Session rt.State)
      → find client.source s.registry.queues ≡ some q
      → Consumed [] q s (true, error_success, s)
  here_lem q s there = record {
    done = [];
    left = q;
    stamped = unused;
    in_order = sym (append-nil q);
    outcome = inl (refl, there, sym (append-nil (sent s.skt.io)), inr (omega arith));
  }

  -- The rounds behind one that forwarded `m`.
  forwarded_lem :
      (env : Env) (ms : List WorkerMessage) (turns : List Turn) (m : WorkerMessage) (q : Queue)
      (s s1 s2 : Session rt.State) (r : Round rt.State)
      → sent s1.skt.io ≡ sent s.skt.io ++ push_packet to_styled_string env.time m
      → s2.skt ≡ s1.skt
      → Consumed turns (q ++ ms) s2 r
      → Consumed ((env, ms) ∷ turns) (m ∷ q) s r
  forwarded_lem env ms turns m q s s1 s2 r out same c = record {
    done = (env.time, m) ∷ c.done;
    left = c.left;
    stamped = used c.stamped;
    in_order = ap (λ t. m ∷ t) (c.in_order ∙ append_assoc q ms (arrivals turns));
    outcome = elim c.outcome [
      | inl (goes, there, on, progress) ↦ inl (
        goes,
        there,
        joined _ on,
        elim progress [
          | inl all ↦ inl (omega (arith, length-append q ms, all))
          | inr each ↦ inr (omega (arith, each))
        ],
      )
      | inr (ends, gone, code, (time, part, m', rest, next, on)) ↦ inr (
        ends,
        gone,
        code,
        (
          time,
          part,
          m',
          rest,
          next,
          joined _ on
              ∙ ap (λ t. sent s.skt.io ++ t)
                  (sym (
                    append_assoc (push_packet to_styled_string env.time m)
                      (pushed to_styled_string c.done)
                      (take part (push_packet to_styled_string time m')))),
        ),
      )
    ];
  }
    where
      joined :
          (more : Bytes)
          → sent r.2.skt.io ≡ sent s2.skt.io ++ more
          → sent r.2.skt.io ≡ sent s.skt.io ++ (push_packet to_styled_string env.time m ++ more)
      joined more on =
          on
          ∙ ap (λ k. sent k.io ++ more) same
          ∙ ap (λ t. t ++ more) out
          ∙ append_assoc (sent s.skt.io) (push_packet to_styled_string env.time m) more

  -- The rounds behind one that found no message.
  idle_lem :
      (env : Env) (ms : List WorkerMessage) (turns : List Turn) (s s2 : Session rt.State)
      (r : Round rt.State)
      → s2.skt ≡ s.skt
      → Consumed turns ms s2 r
      → Consumed ((env, ms) ∷ turns) [] s r
  idle_lem env ms turns s s2 r same c = record {
    done = c.done;
    left = c.left;
    stamped = idle c.stamped;
    in_order = c.in_order;
    outcome = elim c.outcome [
      | inl (goes, there, on, progress) ↦ inl (
        goes,
        there,
        on ∙ ap (λ k. sent k.io ++ pushed to_styled_string c.done) same,
        inl (omega arith),
      )
      | inr (ends, gone, code, (time, part, m', rest, next, on)) ↦ inr (
        ends,
        gone,
        code,
        (
          time,
          part,
          m',
          rest,
          next,
          on
              ∙ ap
                  (λ k.
                    sent k.io
                    ++ (pushed to_styled_string c.done
                        ++ take part (push_packet to_styled_string time m')))
                  same,
        ),
      )
    ];
  }

  failed_lem :
      (env : Env) (ms : List WorkerMessage) (turns : List Turn) (m : WorkerMessage) (q : Queue)
      (s : Session rt.State) (r : Round rt.State)
      → Failed rt sent writer to_styled_string client env m s r
      → Consumed ((env, ms) ∷ turns) (m ∷ q) s r
  failed_lem env ms turns m q s r f = record {
    done = [];
    left = m ∷ (q ++ arrivals ((env, ms) ∷ turns));
    stamped = unused;
    in_order = refl;
    outcome = inr (f.ends, f.disposed, f.code, (env.time, f.part, m, _, refl, f.out));
  }

  -- The runtime writing all or failing behind a first part, for a client that was registered and whose messages,
  -- those in its queue and those that come, have texts shorter than 2 ^ 30 bytes: any number of
  -- rounds end without fault, and take the messages in their order, the queue first and then what
  -- came, with the clocks of rounds in the order of these. Either the loop goes on: one push packet of each
  -- message taken is on the stream, the others are still in the queue, and every message that was
  -- in the queue at the beginning is taken, or each round took one. Or the socket failed: the loop
  -- ends with its error and the connection disposed of, and behind the packets of the messages
  -- taken there is no more than a first part of one for the next message.
  pub consume_rounds_lem :
      (turns : List Turn) (q : Queue) (s : Session rt.State) {app : AppKey} {platform : Platform}
      → find client.source s.registry.queues ≡ some q
      → All (IsShort to_styled_string) (q ++ arrivals turns)
      → s.redis_app ≡ some app
      → s.redis_platform ≡ some platform
      → (r : Round rt.State) × (consume_rounds rt to_styled_string client turns s ≡ some r)
        × Consumed turns q s r
  unfolding consume_rounds
  consume_rounds_lem [] q s there short a p = ((true, error_success, s), refl, here_lem q s there)
  consume_rounds_lem ((env, ms) ∷ turns) [] s there short a p =
      let (reg, came, left) = find-arrive client.source ms [] s.registry there in
      let (r, ran, c) = consume_rounds_lem turns ms (record s { registry = reg }) left short a p in
      (
        r,
        rw (idle_round rt sent writer to_styled_string client env s there, came) ran,
        idle_lem env ms turns s _ r refl c,
      )
  consume_rounds_lem ((env, ms) ∷ turns) (m ∷ q) s there (first, others) a p =
      elim (consume_round_lem rt sent writer to_styled_string client env m q s there first a p) [
        | inl (s1, f) ↦
            let (reg, came, left) = find-arrive client.source ms q s1.registry f.taken in
            let (r, ran, c) =
              consume_rounds_lem turns (q ++ ms) (record s1 { registry = reg }) left
                (subst (All (IsShort to_styled_string)) (sym (append_assoc q ms (arrivals turns)))
                  others)
                (f.same_app ∙ a) (f.same_platform ∙ p) in
            (r, rw (f.round, came) ran, forwarded_lem env ms turns m q s s1 _ r f.out refl c)
        | inr (r, f) ↦ (r, rw (f.round, f.ends) refl, failed_lem env ms turns m q s r f)
      ]
