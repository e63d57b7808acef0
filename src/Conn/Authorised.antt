-- ===== src/Conn/Authorised.antt =====
-- Who gets through `do_cycle` to a running connection.
use linkedon_push.Common.{
  ℕ, ◌≡◌, refl, ap, ◌∙◌, sym, false, [], Option, none, some, Bytes, arith, >>=-eq-some, ◌==◌, All,
  Bool-cases, inl, inr, ==_iff,
}
use mathlib.Core.Path.{subst}
use linkedon_push.Errors.{error_success}
use linkedon_push.Heap.{Allocator}
use linkedon_push.Math.Laws.{IsDigit}
use linkedon_push.Socket.{StIo}
use linkedon_push.Fmt.Json.{Parsed}
use linkedon_push.Protocol.{read_message, empty_chunk}
use linkedon_push.Protocol.Send.{send_handshake, send_create_connection}
use linkedon_push.Protocol.Handshake.{
  HandshakeMessage, signature, handshake, empty_message, set_params, tomap,
}
use linkedon_push.Protocol.Handshake
use linkedon_push.Protocol.Authorised.{handshake_sound, set_params-tomap}
use linkedon_push.Source.Registry.{Registry, Client, create_client}
use linkedon_push.Conn.{Env, Session, check_user_message}
use linkedon_push.Conn.Open.{
  open_session, conn_handshake, dismiss, welcome, create_connection, register, announce, accept,
  refuse, decide_client,
}

client_of_message :
    (fd : ℕ) (m : HandshakeMessage) (conn : ℕ) (reg : Registry)
    → let c = (create_client fd m conn reg).0 in
      (c.user_id ≡ m.user_id) × (c.app_id ≡ m.app_id) × (c.screte_key ≡ m.screte_key)
unfolding create_client
client_of_message fd m conn reg = (refl, refl, refl)

module _ (rt : StIo) (env : Env) where
  -- What a session that was let in holds: its message, and the client made of it.
  pub record Admitted (m : HandshakeMessage) (s : Session rt.State) : Type 0 where
    pub same_message : s.handshake_msg ≡ m
    pub client_made :
        (c : Client) × (s.client ≡ some c)
        × (c.user_id ≡ m.user_id)
        × (c.app_id ≡ m.app_id)
        × (c.screte_key ≡ m.screte_key)

  accept_admits :
      (s s' : Session rt.State)
      → accept rt env s ≡ some (error_success, s')
      → Admitted s.handshake_msg s'
  unfolding accept
  accept_admits s s' e =
      let (reply, sent, f) = >>=-eq-some (send_create_connection rt env.time 1 s.skt) _ e in
      record {
        same_message = ground (arith, f);
        client_made = (
          (create_client s.stfd s.handshake_msg env.this_conn s.registry).0,
          ground (arith, f),
          (client_of_message s.stfd s.handshake_msg env.this_conn s.registry).0,
          (client_of_message s.stfd s.handshake_msg env.this_conn s.registry).1,
          (client_of_message s.stfd s.handshake_msg env.this_conn s.registry).2,
        );
      }

  decide_admits :
      (o : Option Client) (s s' : Session rt.State)
      → decide_client rt env o s ≡ some (error_success, s')
      → Admitted s.handshake_msg s'
  unfolding decide_client refuse
  decide_admits none s s' e = accept_admits s s' e
  decide_admits (some other) s s' e =
      let (reply, sent, f) = >>=-eq-some (send_create_connection rt env.time 2 s.skt) _ e in
      absurd (ground (arith, f))

  register_admits :
      (s s' : Session rt.State)
      → register rt env s ≡ some (error_success, s')
      → Admitted s.handshake_msg s'
  unfolding register announce
  register_admits s s' e = decide_admits _ (announce rt env s) s' e

  create_admits :
      (heap : Allocator) (s s' : Session rt.State)
      → create_connection rt env heap s ≡ some (error_success, s')
      → Admitted s.handshake_msg s'
  unfolding create_connection
  create_admits heap s s' e =
      let (got, read, e1) = >>=-eq-some (read_message rt empty_chunk s.buffer s.skt) _ e in
      elim (Bool-cases (got.0 == error_success)) [
        | inr bad ↦ absurd (ground (arith, rw bad at e1))
        | inl ok ↦
            let (request, asked, e2) =
              >>=-eq-some (Handshake.create_connection heap got.1 []) _ (rw ok at e1) in
            elim (Bool-cases (request.0 == error_success)) [
              | inr bad ↦ absurd (ground (arith, rw bad at e2))
              | inl granted ↦ register_admits _ s' (rw granted at e2)
            ]
      ]

  module _ (md5 : Bytes → Bytes) (parse : Bytes → Parsed) where
    welcome_admits :
        (heap : Allocator) (s s' : Session rt.State)
        → welcome rt env md5 parse heap s ≡ some (error_success, s')
        → Admitted s.handshake_msg s'
    unfolding welcome
    welcome_admits heap s s' e =
        let (reply, sent, f) = >>=-eq-some (send_handshake rt env.time 1 s.skt) _ e in
        elim (Bool-cases (reply.0 == error_success)) [
          | inr bad ↦ absurd (ground (arith, rw bad at f))
          | inl ok ↦ create_admits heap _ s' (rw ok at f)
        ]

    dismiss_fails :
        (verdict ret : ℕ) (s s' : Session rt.State)
        → (ret == error_success) ≡ false
        → dismiss rt env md5 parse verdict ret s ≡ some (error_success, s')
        → ⊥
    unfolding dismiss
    dismiss_fails verdict ret s s' bad e =
        let (reply, sent, f) = >>=-eq-some (send_handshake rt env.time verdict s.skt) _ e in
        ground (arith, f)

    handshake_admits :
        (s s' : Session rt.State) (m : HandshakeMessage)
        → conn_handshake rt env md5 parse s ≡ some (error_success, m, s')
        → All IsDigit m.user_id × (m.md5_data ≡ signature md5 m)
    unfolding conn_handshake
    handshake_admits s s' m e =
        let (got, read, e1) = >>=-eq-some (read_message rt empty_chunk s.buffer s.skt) _ e in
        elim (Bool-cases (got.0 == error_success)) [
          | inr bad ↦ absurd (ground (arith, rw bad at e1))
          | inl ok ↦
              let (answer, shaken, e2) =
                >>=-eq-some (handshake md5 parse got.1 empty_message) _ (rw ok at e1) in
              let (typed, digits, digest, from) =
                handshake_sound md5 parse got.1 empty_message m
                  (shaken ∙ ap some (ground (arith, e2))) in
              (digits, digest)
        ]

    -- A session is opened only with a handshake that has a user id of digits and the digest of its user id,
    -- application and secret, and whose secret `checkUserMessage` lets pass for its application,
    -- which an empty secret does, too, where one is stored; the session keeps this handshake, and
    -- the client made for it has its user id, application and secret.
    pub open_session_sound :
        (heap : Allocator) (s s' : Session rt.State)
        → open_session rt env md5 parse heap s ≡ some (error_success, s')
        → All IsDigit s'.handshake_msg.user_id
          × (s'.handshake_msg.md5_data ≡ signature md5 s'.handshake_msg)
          × (check_user_message env s'.handshake_msg ≡ error_success)
          × ((c : Client) × (s'.client ≡ some c)
              × (c.user_id ≡ s'.handshake_msg.user_id)
              × (c.app_id ≡ s'.handshake_msg.app_id)
              × (c.screte_key ≡ s'.handshake_msg.screte_key))
    unfolding open_session
    open_session_sound heap s s' e =
        let (answer, shaken, e1) = >>=-eq-some (conn_handshake rt env md5 parse _) _ e in
        elim (Bool-cases (answer.0 == error_success)) [
          | inr bad ↦ absurd (dismiss_fails 0 answer.0 answer.2 s' bad (rw bad at e1))
          | inl ok ↦ elim (Bool-cases (check_user_message env answer.1 == error_success)) [
            | inr bad ↦ absurd (dismiss_fails 2 _ _ s' bad (rw (ok, bad) at e1))
            | inl passed ↦
                let success : answer.0 ≡ error_success = (==_iff answer.0 error_success).0 ok in
                let (digits, digest) =
                  handshake_admits _ answer.2 answer.1
                    (shaken ∙ ap (λ r. some (r, answer.1, answer.2)) success) in
                let adm = welcome_admits heap _ s' (rw (ok, passed) at e1) in
                let (c, made, user, app, secret) = adm.client_made in
                subst
                  (λ m.
                    All IsDigit m.user_id
                    × (m.md5_data ≡ signature md5 m)
                    × (check_user_message env m ≡ error_success)
                    × ((c : Client) × (s'.client ≡ some c)
                        × (c.user_id ≡ m.user_id)
                        × (c.app_id ≡ m.app_id)
                        × (c.screte_key ≡ m.screte_key)))
                  (sym (adm.same_message ∙ set_params-tomap answer.1))
                  (
                    digits,
                    digest,
                    (==_iff (check_user_message env answer.1) error_success).0 passed,
                    (
                      c,
                      made,
                      user ∙ ap (λ (m : HandshakeMessage). m.user_id) (set_params-tomap answer.1),
                      app ∙ ap (λ (m : HandshakeMessage). m.app_id) (set_params-tomap answer.1),
                      secret
                          ∙ ap (λ (m : HandshakeMessage). m.screte_key) (set_params-tomap answer.1),
                    ),
                  )
          ]
        ]
