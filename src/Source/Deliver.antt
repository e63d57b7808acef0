-- ===== src/Source/Deliver.antt =====
-- `LPushSource::cycle_all` against an independent description of the delivery of messages.
use linkedon_push.Common.{
  ℕ, suc, ◌+◌, ◌≡◌, ◌≢◌, refl, sym, ap, ◌∙◌, false, List, [], ◌∷◌, ◌++◌, Option, none, some,
  if◌then◌else◌, Bytes, find, bytes_key, nat_key, ◌>>=◌, arith, length, bytes_eq, bytes_eq_iff, inl,
  inr, Bool-cases, Option-cases, append-nil, append_assoc, >>=-eq-some,
}
use mathlib.Core.Path.{subst}
use linkedon_push.Source.Message.{WorkerMessage, Document, of_json, copy}
use linkedon_push.Source.Message.RoundTrip.{copy_lem}
use linkedon_push.Source.Registry.{
  Registry, Client, Queue, client_key, cycle_all, cycle_works, deliver, instance_client, push,
}
use linkedon_push.Source.Registry.Inv.{IsValid, push-IsValid, same_source}

-- The messages that the texts hold; `none` if one of them makes the constructor throw.
unfoldable pub read_all : (Bytes → Document) → List Bytes → Option (List WorkerMessage)
read_all parse [] = some []
read_all parse (w ∷ ws) = of_json parse w >>= λ m. read_all parse ws >>= λ ms. some (m ∷ ms)

abbrev pub target : WorkerMessage → Bytes
target m = client_key m.user_id m.app_key m.app_secret

-- The messages that carry a key, in their order.
unfoldable pub addressed : Bytes → List WorkerMessage → Queue
addressed k [] = []
addressed k (m ∷ ms) = if bytes_eq (target m) k then m ∷ addressed k ms else addressed k ms

-- What a delivery of `ms` makes of a registry.
pub record Delivered (reg reg' : Registry) (ms : List WorkerMessage) : Type 0 where
  pub valid : IsValid reg'
  pub same_clients : reg'.clients ≡ reg.clients
  pub same_sources : reg'.sources ≡ reg.sources
  pub queued :
      (k : Bytes) (c : Client) (q : Queue)
      → find k reg.clients ≡ some c
      → find c.source reg.queues ≡ some q
      → find c.source reg'.queues ≡ some (q ++ addressed k ms)

pub none-Delivered : (reg : Registry) → IsValid reg → Delivered reg reg []
unfolding addressed
none-Delivered reg v = record {
  valid = v;
  same_clients = refl;
  same_sources = refl;
  queued = λ k c q h e. e ∙ ap some (sym (append-nil q));
}

-- One delivery, then others.
then-Delivered :
    {reg reg1 reg2 : Registry} (m : WorkerMessage) (ms : List WorkerMessage)
    → Delivered reg reg1 (m ∷ [])
    → Delivered reg1 reg2 ms
    → Delivered reg reg2 (m ∷ ms)
unfolding addressed
then-Delivered {reg} {reg1} {reg2} m ms d1 d2 = record {
  valid = d2.valid;
  same_clients = d2.same_clients ∙ d1.same_clients;
  same_sources = d2.same_sources ∙ d1.same_sources;
  queued = λ k c q h e. elim (Bool-cases (bytes_eq (target m) k)) [
    | inl mine ↦ rw mine (
        d2.queued k c (q ++ m ∷ []) (ap (find k) d1.same_clients ∙ h)
          (rw mine at (d1.queued k c q h e))
        ∙ ap some (append_assoc q (m ∷ []) (addressed k ms)))
    | inr other ↦ rw other (
        d2.queued k c q (ap (find k) d1.same_clients ∙ h)
          (rw (other, append-nil) at (d1.queued k c q h e)))
  ];
}

-- A message whose client is not registered is dropped.
deliver_nobody :
    {reg : Registry} (v : IsValid reg) (m : WorkerMessage)
    → find (target m) reg.clients ≡ none
    → Delivered reg reg (m ∷ [])
unfolding addressed
deliver_nobody {reg} v m absent = record {
  valid = v;
  same_clients = refl;
  same_sources = refl;
  queued = λ k c q h e. rw (not_target k c h) (e ∙ ap some (sym (append-nil q)));
}
  where
    not_target :
        (k : Bytes) (c : Client) → find k reg.clients ≡ some c → bytes_eq (target m) k ≡ false
    not_target k c h = elim (Bool-cases (bytes_eq (target m) k)) [
      | inr e ↦ e
      | inl e ↦
          let p : target m ≡ k = (bytes_eq_iff (target m) k).0 e in
          absurd (cc (absent, h, ap (λ (t : Bytes). find t reg.clients) p))
    ]

-- A message whose client is registered goes to the end of its queue.
deliver_client :
    {reg : Registry} (v : IsValid reg) (m : WorkerMessage) (c : Client)
    → find (target m) reg.clients ≡ some c
    → (reg' : Registry) × (push c.source (copy m) reg ≡ some reg') × Delivered reg reg' (m ∷ [])
unfolding addressed
deliver_client {reg} v m c there =
    let (q0, at_source) = v.alive c.cstfd c.source (v.bound (target m) c there) in
    let (reg', pushed, v', clients, sources, here, others) =
      push-IsValid v c.source (copy m) q0 at_source in
    (
      reg',
      pushed,
      record {
        valid = v';
        same_clients = clients;
        same_sources = sources;
        queued = λ k c' q h e. elim (Bool-cases (bytes_eq (target m) k)) [
          | inl mine ↦
              let p : target m ≡ k = (bytes_eq_iff (target m) k).0 mine in
              let same : c ≡ c' = cc (there, h, ap (λ (t : Bytes). find t reg.clients) p) in
              let q_eq : q0 ≡ q =
                cc (at_source, e, ap (λ (x : Client). find x.source reg.queues) same) in
              rw mine (
                ap (λ (x : Client). find x.source reg'.queues) (sym same)
                ∙ here
                ∙ ap (λ (t : Queue). some (t ++ copy m ∷ [])) q_eq
                ∙ ap (λ (n : WorkerMessage). some (q ++ n ∷ [])) (copy_lem m))
          | inr other ↦
              let ne : c'.source ≢ c.source =
                λ p. not_target (same_source v k (target m) c' c h there p) other in
              rw other (others c'.source ne ∙ e ∙ ap some (sym (append-nil q)))
        ];
      },
    )
  where
    not_target : {k : Bytes} → k ≡ target m → bytes_eq (target m) k ≡ false → ⊥
    not_target {k} p e = cc (e, (bytes_eq_iff (target m) k).1 (sym p))

deliver_one :
    {reg : Registry} (v : IsValid reg) (m : WorkerMessage)
    → (reg' : Registry) × (deliver m (instance_client m.user_id m.app_key m.app_secret reg) reg
        ≡ some reg')
      × Delivered reg reg' (m ∷ [])
unfolding deliver instance_client
deliver_one {reg} v m = elim (Option-cases (find (target m) reg.clients)) [
  | inl absent ↦ (reg, rw absent, deliver_nobody v m absent)
  | inr (c, there) ↦
      let (reg', pushed, d) = deliver_client v m c there in (reg', rw there pushed, d)
]

cycle_works_lem :
    (parse : Bytes → Document) (works : List Bytes) (ms : List WorkerMessage) (index : ℕ)
    {reg : Registry}
    → IsValid reg
    → read_all parse works ≡ some ms
    → (reg' : Registry) × (cycle_works parse works index reg ≡ some (index + length works, reg'))
      × Delivered reg reg' ms
unfolding cycle_works read_all
cycle_works_lem parse [] ms index {reg} v e = (
  reg,
  ap (λ n. some (n, reg)) {x = index} {y = index + 0} (omega arith),
  subst (Delivered reg reg) (cc e) (none-Delivered reg v),
)
cycle_works_lem parse (w ∷ works) ms index {reg} v e =
    let (m, read_w, e1) = >>=-eq-some (of_json parse w) _ e in
    let (ms', read_works, e2) = >>=-eq-some (read_all parse works) _ e1 in
    let (reg1, delivered, d) = deliver_one v m in
    let (reg2, cycled, d2) = cycle_works_lem parse works ms' (index + 1) d.valid read_works in
    (
      reg2,
      rw (read_w, delivered)
          (cycled
            ∙ ap (λ n. some (n, reg2)) {x = index + 1 + length works}
                {y = index + suc (length works)} (omega arith)),
      subst (Delivered reg reg2) (cc e2) (then-Delivered m ms' d d2),
    )

-- On a well-formed registry and readable texts `cycle_all` ends without fault and reports their
-- number; the registry stays well formed with the same clients and sources, and the queue of every
-- client has grown by exactly the messages that carry its key, in the order of the store.
pub cycle_all_lem :
    (parse : Bytes → Document) (works : List Bytes) (ms : List WorkerMessage) {reg : Registry}
    → IsValid reg
    → read_all parse works ≡ some ms
    → (reg' : Registry) × (cycle_all parse works reg ≡ some (length works, reg'))
      × Delivered reg reg' ms
unfolding cycle_all
cycle_all_lem parse works ms {reg} v e =
    let (reg', cycled, d) = cycle_works_lem parse works ms 0 v e in
    (
      reg',
      cycled ∙ ap (λ n. some (n, reg')) {x = 0 + length works} {y = length works} (omega arith),
      d,
    )
