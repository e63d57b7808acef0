-- ===== src/Source/Registry/Inv.antt =====
-- What holds of the registry between two operations, and that the operations keep it.
use linkedon_push.Common.{
  ℕ, ◌≤◌, ◌<◌, ◌≡◌, ◌≢◌, refl, sym, ap, ◌∙◌, [], ◌∷◌, ◌++◌, none, some, Bytes, find, replace,
  bytes_key, nat_key, find-erase_key, find-replace, arith, bytes_eq_iff, insert_new_inv,
  insert_new_keeps, insert_new_here, insert_new_other, erase_key_inv, erase_key_other,
  erase_key-none, ◌==◌, inl, inr, Bool-cases,
}
use native.Mathlib.Decide.{dec_lt}
use linkedon_push.Protocol.Handshake.{HandshakeMessage}
use linkedon_push.Source.Message.{WorkerMessage}
use linkedon_push.Source.Registry.{
  Registry, Client, Queue, key_of, client_key, create_client, make_client, dispose_client, push,
}

pub record IsValid (reg : Registry) : Type 0 where
  -- Numbers from `next` on stand for no source.
  pub fresh : (i : ℕ) → reg.next ≤ i → find i reg.queues ≡ none
  -- Every source of the map is allocated.
  pub alive : (fd i : ℕ) → find fd reg.sources ≡ some i → (q : Queue) × (find i reg.queues ≡ some q)
  -- No source stands under two descriptors.
  pub one_source :
      (fd fd' i : ℕ) → find fd reg.sources ≡ some i → find fd' reg.sources ≡ some i → fd ≡ fd'
  -- A client stands under its own key, and its source under its descriptor.
  pub keyed : (k : Bytes) (c : Client) → find k reg.clients ≡ some c → key_of c ≡ k
  pub bound :
      (k : Bytes) (c : Client)
      → find k reg.clients ≡ some c
      → find c.cstfd reg.sources ≡ some c.source
  -- Two clients have two descriptors.
  pub one_client :
      (k k' : Bytes) (c c' : Client)
      → find k reg.clients ≡ some c
      → find k' reg.clients ≡ some c'
      → c.cstfd ≡ c'.cstfd
      → k ≡ k'

-- Two registered clients with one source are one client.
pub same_source :
    {reg : Registry} (v : IsValid reg) (k k' : Bytes) (c c' : Client)
    → find k reg.clients ≡ some c
    → find k' reg.clients ≡ some c'
    → c.source ≡ c'.source
    → k ≡ k'
same_source v k k' c c' e e' s =
    v.one_client k k' c c' e e'
      (v.one_source c.cstfd c'.cstfd c.source (v.bound k c e) (v.bound k' c' e' ∙ ap some (sym s)))

-- A number in use is below `next`.
used :
    {reg : Registry} (v : IsValid reg) (i : ℕ) (q : Queue)
    → find i reg.queues ≡ some q
    → i < reg.next
used {reg} v i q e = elim (dec_lt i reg.next) [ yes h ↦ h | no h ↦ cc (v.fresh i (omega arith)) ]

-- `push` on an allocated source of a well-formed registry keeps the registry well formed, adds the
-- message at the end of that queue, and leaves the clients, the sources and the other queues.
pub push-IsValid :
    {reg : Registry} (v : IsValid reg) (source : ℕ) (msg : WorkerMessage) (q : Queue)
    → find source reg.queues ≡ some q
    → (reg' : Registry) × (push source msg reg ≡ some reg')
      × IsValid reg'
      × (reg'.clients ≡ reg.clients)
      × (reg'.sources ≡ reg.sources)
      × (find source reg'.queues ≡ some (q ++ (msg ∷ [])))
      × ((j : ℕ) → j ≢ source → find j reg'.queues ≡ find j reg.queues)
unfolding push
push-IsValid {reg} v source msg q e = (
  record reg { queues = replace source (q ++ (msg ∷ [])) reg.queues },
  rw e,
  record {
    fresh = λ i h. ground (arith, find-replace source i (q ++ (msg ∷ [])) reg.queues, v.fresh i h);
    alive = λ fd i h. let (q', e') = v.alive fd i h in still i q' e';
    one_source = v.one_source;
    keyed = v.keyed;
    bound = v.bound;
    one_client = v.one_client;
  },
  refl,
  refl,
  ground (arith, find-replace source source (q ++ (msg ∷ [])) reg.queues),
  λ j ne. ground (arith, find-replace source j (q ++ (msg ∷ [])) reg.queues),
)
  where
    still :
        (i : ℕ) (q' : Queue)
        → find i reg.queues ≡ some q'
        → (q2 : Queue) × (find i (replace source (q ++ (msg ∷ [])) reg.queues) ≡ some q2)
    still i q' e' = elim (Bool-cases (source == i)) [
      | inl same ↦
          (q ++ (msg ∷ []), ground (arith, find-replace source i (q ++ (msg ∷ [])) reg.queues))
      | inr other ↦ (q', ground (arith, find-replace source i (q ++ (msg ∷ [])) reg.queues))
    ]

-- On a well-formed registry, a registration under a free descriptor and a free key keeps the
-- registry well formed; the client can be found, and its queue is empty.
pub create_client-IsValid :
    {reg : Registry} (v : IsValid reg) (fd : ℕ) (m : HandshakeMessage) (conn : ℕ)
    → find fd reg.sources ≡ none
    → find (client_key m.user_id m.app_id m.screte_key) reg.clients ≡ none
    → let (c, reg') = create_client fd m conn reg in
      IsValid reg'
      × (find (client_key m.user_id m.app_id m.screte_key) reg'.clients ≡ some c)
      × (find c.source reg'.queues ≡ some [])
unfolding create_client
create_client-IsValid {reg} v fd m conn no_fd no_key = (
  record {
    fresh = λ i h.
        insert_new_other reg.queues reg.next i [] (λ (p : reg.next ≡ i). absurd (omega arith))
        ∙ v.fresh i (omega arith);
    alive = λ fd' i h. elim (insert_new_inv reg.sources fd fd' reg.next i no_fd h) [
      | inl (same_fd, same_i) ↦ ([], rw same_i (insert_new_here reg.queues reg.next [] unused))
      | inr old ↦
          let (q, e) = v.alive fd' i old in (q, insert_new_keeps reg.queues reg.next i [] q e)
    ];
    one_source = λ fd1 fd2 i h1 h2. elim (insert_new_inv reg.sources fd fd1 reg.next i no_fd h1) [
      | inl (p1, q1) ↦ elim (insert_new_inv reg.sources fd fd2 reg.next i no_fd h2) [
        | inl (p2, q2) ↦ p1 ∙ sym p2
        | inr old ↦ absurd (not_next fd2 (rw q1 at old))
      ]
      | inr old1 ↦ elim (insert_new_inv reg.sources fd fd2 reg.next i no_fd h2) [
        | inl (p2, q2) ↦ absurd (not_next fd1 (rw q2 at old1))
        | inr old2 ↦ v.one_source fd1 fd2 i old1 old2
      ]
    ];
    keyed = λ k c h. elim (insert_new_inv reg.clients key k client c no_key h) [
      | inl (p, q) ↦ ap key_of q ∙ (unfold make_client in refl) ∙ sym p
      | inr old ↦ v.keyed k c old
    ];
    bound = λ k c h. elim (insert_new_inv reg.clients key k client c no_key h) [
      | inl (p, q) ↦ rw q (unfold make_client in insert_new_here reg.sources fd reg.next no_fd)
      | inr old ↦ insert_new_keeps reg.sources fd c.cstfd reg.next c.source (v.bound k c old)
    ];
    one_client = λ k k' c c' h h' e. elim (insert_new_inv reg.clients key k client c no_key h) [
      | inl (p, q) ↦ elim (insert_new_inv reg.clients key k' client c' no_key h') [
        | inl (p', q') ↦ p ∙ sym p'
        | inr old ↦ absurd (
            not_fd k' c' old
              (sym e ∙ ap (λ (x : Client). x.cstfd) q ∙ (unfold make_client in refl)))
      ]
      | inr old ↦ elim (insert_new_inv reg.clients key k' client c' no_key h') [
        | inl (p', q') ↦
            absurd
              (not_fd k c old (e ∙ ap (λ (x : Client). x.cstfd) q' ∙ (unfold make_client in refl)))
        | inr old' ↦ v.one_client k k' c c' old old' e
      ]
    ];
  },
  insert_new_here reg.clients key client no_key,
  unfold make_client in insert_new_here reg.queues reg.next [] unused,
)
  where
    key : Bytes
    key = client_key m.user_id m.app_id m.screte_key

    client : Client
    client = make_client fd m conn reg.next

    unused : find reg.next reg.queues ≡ none
    unused = v.fresh reg.next (omega arith)

    not_next : (fd' : ℕ) → find fd' reg.sources ≡ some reg.next → ⊥
    not_next fd' h = let (q, e) = v.alive fd' reg.next h in cc (e, unused)

    not_fd : (k : Bytes) (c : Client) → find k reg.clients ≡ some c → c.cstfd ≡ fd → ⊥
    not_fd k c h p = cc (v.bound k c h, ap (λ (f : ℕ). find f reg.sources) p)

-- Disposing of a client that a well-formed registry holds keeps the registry well formed, frees
-- its key and its queue, and leaves every other client with its queue.
pub dispose_client-IsValid :
    {reg : Registry} (v : IsValid reg) (k : Bytes) (c : Client)
    → find k reg.clients ≡ some c
    → let reg' = dispose_client c reg in
      IsValid reg'
      × (find k reg'.clients ≡ none)
      × (find c.source reg'.queues ≡ none)
      × ((k' : Bytes) (c' : Client)
          → k ≢ k'
          → find k' reg.clients ≡ some c'
          → (find k' reg'.clients ≡ some c')
            × (find c'.source reg'.queues ≡ find c'.source reg.queues))
unfolding dispose_client
dispose_client-IsValid {reg} v k c h =
    rw (v.bound k c h, v.keyed k c h)
      (
        record {
          fresh = λ i n. erase_key-none reg.queues c.source i (v.fresh i n);
          alive = λ fd i e.
              let (ne, old) = erase_key_inv reg.sources c.cstfd fd i e in
              let (q, there) = v.alive fd i old in
              (
                q,
                erase_key_other reg.queues c.source i (λ (p : c.source ≡ i).
                      ne (v.one_source c.cstfd fd i (v.bound k c h ∙ ap some p) old))
                    ∙ there,
              );
          one_source = λ fd fd' i e e'.
              v.one_source fd fd' i (erase_key_inv reg.sources c.cstfd fd i e).1
                (erase_key_inv reg.sources c.cstfd fd' i e').1;
          keyed = λ k' c' e. v.keyed k' c' (erase_key_inv reg.clients k k' c' e).1;
          bound = λ k' c' e.
              let (ne, old) = erase_key_inv reg.clients k k' c' e in
              erase_key_other reg.sources c.cstfd c'.cstfd
                (λ (p : c.cstfd ≡ c'.cstfd). ne (v.one_client k k' c c' h old p))
              ∙ v.bound k' c' old;
          one_client = λ k1 k2 c1 c2 e1 e2.
              v.one_client k1 k2 c1 c2 (erase_key_inv reg.clients k k1 c1 e1).1
                (erase_key_inv reg.clients k k2 c2 e2).1;
        },
        ground (arith, find-erase_key k k reg.clients, bytes_eq_iff k k),
        ground (arith, find-erase_key c.source c.source reg.queues),
        λ k' c' ne e. (
          erase_key_other reg.clients k k' ne ∙ e,
          erase_key_other reg.queues c.source c'.source
              (λ (p : c.source ≡ c'.source). ne (same_source v k k' c c' h e p)),
        ),
      )
