-- ===== src/Conn/Cycle/Receive.antt =====
-- A round of the receive thread: what it takes from the stream, and how the loop ends.
use linkedon_push.Common.{
  ℕ, ◌*◌, ◌≤◌, ◌≡◌, ◌≢◌, refl, sym, ap, ◌∙◌, Bool, true, false, none, some, ◌++◌, Bytes, arith, [],
  Bool-cases, inl, inr, ◌>>=◌, >>=-eq-some, append-nil, ◌==◌,
}
use mathlib.Core.Path.{subst}
use linkedon_push.Errors.{error_success}
use linkedon_push.Heap.{Allocator}
use linkedon_push.Socket.{StIo, StSocket}
use linkedon_push.Socket.Stream.{IsStream, IsLive}
use linkedon_push.FastBuffer.{FastBuffer, unread}
use linkedon_push.FastBuffer.Inv.{IsValid}
use linkedon_push.Protocol.{
  Header, Chunk, Data, block, uninit, empty_chunk, handshake_data_max, read_message, new_chunk,
  copy_data,
}
use linkedon_push.Protocol
use linkedon_push.Protocol.Packet.{IsPacket, packet}
use linkedon_push.Protocol.Receive.{read_message_lem, set_data_any}
use linkedon_push.Conn.{Env, Session}
use linkedon_push.Conn.Forward.{forward_server, do_dispose}
use linkedon_push.Conn.Cycle.{Round, finish_round, receive_chunk, handler, answer, recv_round}

-- The copy that the thread works on is the chunk that was read.
copy-packet :
    (h : Header) (body : Bytes)
    → IsPacket h body
    → Protocol.copy (record { header = h; body = block body })
      ≡ some (record { header = h; body = block body })
unfolding Protocol.copy copy_data new_chunk
copy-packet h body ok =
    ap (λ t. new_chunk h (some t)) (sym (append-nil body))
    ∙ set_data_any (record { header = h; body = uninit }) h body [] ok.announced (omega arith)
        (omega arith)

dispose_ends : {S : Type 0} (s s' : Session S) → do_dispose s ≡ some s' → s'.dispose ≡ true
unfolding do_dispose
dispose_ends s s' e =
    let (app, e1, e2) = >>=-eq-some s.redis_app _ e in
    let (platform, e3, e4) = >>=-eq-some s.redis_platform _ e2 in
    sym (ap (λ o. elim o [ none ↦ true | some t ↦ t.dispose ]) e4)

-- What the end of a round says: success goes on, an error comes with the disposal.
abbrev pub Ended : {S : Type 0} → Round S → Type 0
Ended (true, ret, s) = ret ≡ error_success
Ended (false, ret, s) = (ret ≢ error_success) × (s.dispose ≡ true)

some-path : {A : Type 0} (d : A) {a b : A} → some a ≡ some b → a ≡ b
some-path d e = ap (λ o. elim o [ none ↦ d | some t ↦ t ]) e

finish_round-Ended :
    {S : Type 0} (reply : ℕ × Session S) (r : Round S) → finish_round reply ≡ some r → Ended r
unfolding finish_round
finish_round-Ended reply r e = elim (Bool-cases (reply.0 == error_success)) [
  | inl ok ↦ subst Ended (some-path r (rw ok at e)) (ground (arith, ok))
  | inr wrong ↦
      let (s, e1, e2) = >>=-eq-some (do_dispose reply.1) _ (rw wrong at e) in
      subst Ended (some-path r e2) (ground (arith, wrong), dispose_ends reply.1 s e1)
]

module _ (rt : StIo) (env : Env) (heap : Allocator) where
  module _ (pending : rt.State → Bytes) (stream : IsStream rt pending)
      (live : IsLive rt pending) where
    -- On a live stream that begins with an allowed packet, and with a well-formed buffer of 800
    -- bytes at least, a round of an active session hands that packet to `forwardServer`, whole and
    -- alone: the rest of the stream stays for the rounds to come, and what `forwardServer` answers
    -- decides whether the loop goes on.
    pub recv_round_lem :
        (h : Header) (body rest : Bytes) (s : Session rt.State)
        → IsPacket h body
        → IsValid s.buffer
        → 2 * handshake_data_max ≤ s.buffer.nb_buffer
        → unread s.buffer ++ pending s.skt.io ≡ packet h body ++ rest
        → (fb : FastBuffer) × (skt : StSocket rt.State) × IsValid fb
          × (fb.nb_buffer ≡ s.buffer.nb_buffer)
          × (unread fb ++ pending skt.io ≡ rest)
          × (recv_round rt env true heap s ≡ (
              forward_server env heap
                (record { header = h; body = block body })
                (record s { buffer = fb; skt = skt })
              >>= λ reply. finish_round reply))
    unfolding recv_round receive_chunk handler answer
    recv_round_lem h body rest s ok valid big e =
        let (fb, skt, made, v, same, left) =
          read_message_lem rt pending stream live h body rest empty_chunk s.skt ok valid big e in
        (fb, skt, v, same, left, rw (made, copy-packet h body ok) refl)

  -- A round goes on only with success; a round that ends the loop has an error to report, and the
  -- session has been disposed of.
  pub recv_round_ends :
      (active : Bool) (s : Session rt.State) (r : Round rt.State)
      → recv_round rt env active heap s ≡ some r
      → Ended r
  unfolding recv_round
  recv_round_ends active s r e =
      let (got, e1, e2) = >>=-eq-some (receive_chunk rt env s) _ e in
      let (reply, e3, e4) = >>=-eq-some (answer rt env active heap got) _ e2 in
      finish_round-Ended reply r e4
