-- ===== src/Source/Mailbox/Steps.antt =====
-- One operation on the registry does what it does on the mailboxes.
use linkedon_push.Common.{
  ℕ, ◌≡◌, refl, sym, ap, ◌∙◌, true, [], ◌∷◌, ◌++◌, Option, none, some, Bytes, bytes_eq, find,
  bytes_key, nat_key, ◌>>=◌, inl, inr, Option-cases, Bool-cases, bytes_eq_iff,
}
use linkedon_push.Protocol.Handshake.{HandshakeMessage}
use linkedon_push.Source.Message.{WorkerMessage, copy}
use linkedon_push.Source.Message.RoundTrip.{copy_lem}
use linkedon_push.Source.Registry.{
  Registry, Client, Queue, create_client, dispose_client, instance_client, deliver, can_loop,
  queue_empty, pop, queue_pop, push, queue_push,
}
use linkedon_push.Source.Registry.Inv.{IsValid, create_client-IsValid, dispose_client-IsValid}
use linkedon_push.Source.Deliver.{target}
use linkedon_push.Source.Mailbox.{
  Op, joins, leaves, posts, takes, Boxes, put_box, spec, spec_join, spec_post, spec_take, consume,
  join_client, leave_client, take_client, step, view, Fits, key_of_message,
}
use linkedon_push.Source.Mailbox.Queues.{
  with_queue, with_queue-IsValid, view-with_queue, view-none, view-some, put_box_here,
  put_box_other,
}
use linkedon_push.Source.Mailbox.Members.{view-create_client, view-dispose_client}

-- A step of the registry that does what the mailboxes do.
pub record Simulated (op : Op) (reg : Registry) : Type 0 where
  pub next : Registry
  pub valid : IsValid next
  pub stepped : step op reg ≡ some ((spec op (view reg)).0, next)
  pub shown : view next ≡ (spec op (view reg)).1

push_lem :
    (source : ℕ) (m n : WorkerMessage) (q : Queue) (reg : Registry)
    → m ≡ n
    → find source reg.queues ≡ some q
    → push source m reg ≡ some (with_queue source (q ++ (n ∷ [])) reg)
unfolding push queue_push
push_lem source m n q reg same at = rw (at, same) refl

can_loop_lem :
    (source : ℕ) (m : WorkerMessage) (q : Queue) (reg : Registry)
    → find source reg.queues ≡ some (m ∷ q)
    → can_loop source reg ≡ some true
unfolding can_loop queue_empty
can_loop_lem source m q reg at = rw at refl

pop_lem :
    (source : ℕ) (m : WorkerMessage) (q : Queue) (reg : Registry)
    → find source reg.queues ≡ some (m ∷ q)
    → pop source reg ≡ some (m, with_queue source q reg)
unfolding pop queue_pop
pop_lem source m q reg at =
    rw at (ap (λ (n : WorkerMessage). some (n, with_queue source q reg)) (copy_lem m))

consume_lem :
    (source : ℕ) (m : WorkerMessage) (q : Queue) (reg : Registry)
    → find source reg.queues ≡ some (m ∷ q)
    → consume source reg ≡ some (some m, with_queue source q reg)
unfolding consume
consume_lem source m q reg at = rw (can_loop_lem source m q reg at, pop_lem source m q reg at) refl

consume-none :
    (source : ℕ) (reg : Registry)
    → find source reg.queues ≡ some []
    → consume source reg ≡ some (none, reg)
unfolding consume can_loop queue_empty
consume-none source reg at = rw at refl

simulated :
    (op : Op) (reg reg' : Registry) (out : Option WorkerMessage) (boxes : Boxes)
    → step op reg ≡ some (out, reg')
    → spec op (view reg) ≡ (out, boxes)
    → IsValid reg'
    → ((j : Bytes) → view reg' j ≡ boxes j)
    → Simulated op reg
simulated op reg reg' out boxes e s v h = record {
  next = reg';
  valid = v;
  stepped = e ∙ ap (λ (p : Option WorkerMessage × Boxes). some (p.0, reg')) (sym s);
  shown = (λ i j. h j i) ∙ ap (λ (p : Option WorkerMessage × Boxes). p.1) (sym s);
}

joins-Simulated :
    (fd : ℕ) (m : HandshakeMessage) (conn : ℕ) (reg : Registry)
    → IsValid reg
    → find fd reg.sources ≡ none
    → Simulated (joins fd m conn) reg
unfolding step spec spec_join join_client instance_client
joins-Simulated fd m conn reg v free = elim (Option-cases (find (key_of_message m) reg.clients)) [
  | inl absent ↦
      simulated (joins fd m conn) reg (create_client fd m conn reg).1 none
        (put_box (key_of_message m) (some []) (view reg))
        (ap (λ o. some (join_client fd m conn o reg)) absent)
        (ap (λ o. spec_join (key_of_message m) o (view reg))
          (view-none reg (key_of_message m) absent))
        (create_client-IsValid v fd m conn free absent).0
        (view-create_client v fd m conn free absent)
  | inr (c, there) ↦
      let (q, at) = v.alive c.cstfd c.source (v.bound (key_of_message m) c there) in
      simulated (joins fd m conn) reg reg none (view reg)
        (ap (λ o. some (join_client fd m conn o reg)) there)
        (ap (λ o. spec_join (key_of_message m) o (view reg))
          (view-some reg (key_of_message m) c there ∙ at))
        v (λ j. refl)
]

leaves-Simulated : (k : Bytes) (reg : Registry) → IsValid reg → Simulated (leaves k) reg
unfolding step spec leave_client
leaves-Simulated k reg v = elim (Option-cases (find k reg.clients)) [
  | inl absent ↦
      simulated (leaves k) reg reg none (put_box k none (view reg))
        (ap (λ o. some (leave_client o reg)) absent) refl v (nobody absent)
  | inr (c, there) ↦
      simulated (leaves k) reg (dispose_client c reg) none (put_box k none (view reg))
        (ap (λ o. some (leave_client o reg)) there) refl (dispose_client-IsValid v k c there).0
        (view-dispose_client v k c there)
]
  where
    nobody : find k reg.clients ≡ none → (j : Bytes) → view reg j ≡ put_box k none (view reg) j
    nobody absent j = elim (Bool-cases (bytes_eq k j)) [
      | inl same ↦
          let p : k ≡ j = (bytes_eq_iff k j).0 same in
          view-none reg j (ap (λ (t : Bytes). find t reg.clients) (sym p) ∙ absent)
          ∙ sym (put_box_here k j none (view reg) p)
      | inr other ↦ sym (put_box_other k j none (view reg) other)
    ]

posts-Simulated : (m : WorkerMessage) (reg : Registry) → IsValid reg → Simulated (posts m) reg
unfolding step spec spec_post instance_client deliver
posts-Simulated m reg v = elim (Option-cases (find (target m) reg.clients)) [
  | inl absent ↦
      simulated (posts m) reg reg none (view reg)
        (ap (λ o. deliver m o reg >>= λ reg'. some (none, reg')) absent)
        (ap (λ o. spec_post m o (view reg)) (view-none reg (target m) absent)) v (λ j. refl)
  | inr (c, there) ↦
      let (q, at) = v.alive c.cstfd c.source (v.bound (target m) c there) in
      simulated (posts m) reg (with_queue c.source (q ++ (m ∷ [])) reg) none
        (put_box (target m) (some (q ++ (m ∷ []))) (view reg))
        (ap (λ o. deliver m o reg >>= λ reg'. some (none, reg')) there
          ∙ ap (λ o. o >>= λ reg'. some (none, reg')) (pushed c q at))
        (ap (λ o. spec_post m o (view reg)) (view-some reg (target m) c there ∙ at))
        (with_queue-IsValid v c.source (q ++ (m ∷ [])))
        (view-with_queue v (target m) c q (q ++ (m ∷ [])) there at)
]
  where
    pushed :
        (c : Client) (q : Queue)
        → find c.source reg.queues ≡ some q
        → push c.source (copy m) reg ≡ some (with_queue c.source (q ++ (m ∷ [])) reg)
    pushed c q at = push_lem c.source (copy m) m q reg (copy_lem m) at

takes-Simulated : (k : Bytes) (reg : Registry) → IsValid reg → Simulated (takes k) reg
unfolding step spec spec_take take_client
takes-Simulated k reg v = elim (Option-cases (find k reg.clients)) [
  | inl absent ↦
      simulated (takes k) reg reg none (view reg) (ap (λ o. take_client o reg) absent)
        (ap (λ o. spec_take k o (view reg)) (view-none reg k absent)) v (λ j. refl)
  | inr (c, there) ↦
      let (q, at) = v.alive c.cstfd c.source (v.bound k c there) in from_queue c there q at
]
  where
    from_queue :
        (c : Client)
        → find k reg.clients ≡ some c
        → (q : Queue) → find c.source reg.queues ≡ some q
        → Simulated (takes k) reg
    from_queue c there [] at =
        simulated (takes k) reg reg none (view reg)
          (ap (λ o. take_client o reg) there ∙ consume-none c.source reg at)
          (ap (λ o. spec_take k o (view reg)) (view-some reg k c there ∙ at)) v (λ j. refl)
    from_queue c there (m ∷ q) at =
        simulated (takes k) reg (with_queue c.source q reg) (some m) (put_box k (some q) (view reg))
          (ap (λ o. take_client o reg) there ∙ consume_lem c.source m q reg at)
          (ap (λ o. spec_take k o (view reg)) (view-some reg k c there ∙ at))
          (with_queue-IsValid v c.source q) (view-with_queue v k c (m ∷ q) q there at)

pub step-Simulated : (op : Op) (reg : Registry) → IsValid reg → Fits op reg → Simulated op reg
unfolding Fits
step-Simulated (joins fd m conn) reg v free = joins-Simulated fd m conn reg v free
step-Simulated (leaves k) reg v f = leaves-Simulated k reg v
step-Simulated (posts m) reg v f = posts-Simulated m reg v
step-Simulated (takes k) reg v f = takes-Simulated k reg v
