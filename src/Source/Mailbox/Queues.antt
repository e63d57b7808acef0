-- ===== src/Source/Mailbox/Queues.antt =====
-- A change of the queue of one client, as its mailbox shows it.
use linkedon_push.Common.{
  ℕ, ◌≡◌, ◌≢◌, sym, ap, ◌∙◌, false, Option, none, some, if◌then◌else◌, ◌==◌, Bytes, bytes_eq,
  bytes_eq_iff, find, replace, bytes_key, nat_key, find-replace, arith, inl, inr, Bool-cases,
  Option-cases,
}
use linkedon_push.Source.Registry.{Registry, Client, Queue}
use linkedon_push.Source.Registry.Inv.{IsValid, same_source}
use linkedon_push.Source.Mailbox.{Boxes, put_box, view}

abbrev pub with_queue : ℕ → Queue → Registry → Registry
with_queue source q reg = record reg { queues = replace source q reg.queues }

pub with_queue-IsValid :
    {reg : Registry} (v : IsValid reg) (source : ℕ) (q : Queue) → IsValid (with_queue source q reg)
with_queue-IsValid {reg} v source q = record {
  fresh = λ i h. ground (arith, find-replace source i q reg.queues, v.fresh i h);
  alive = λ fd i h. let (q', e') = v.alive fd i h in still i q' e';
  one_source = v.one_source;
  keyed = v.keyed;
  bound = v.bound;
  one_client = v.one_client;
}
  where
    still :
        (i : ℕ) (q' : Queue)
        → find i reg.queues ≡ some q'
        → (q2 : Queue) × (find i (replace source q reg.queues) ≡ some q2)
    still i q' e' = elim (Bool-cases (source == i)) [
      | inl same ↦ (q, ground (arith, find-replace source i q reg.queues))
      | inr other ↦ (q', ground (arith, find-replace source i q reg.queues))
    ]

pub view-some :
    (reg : Registry) (k : Bytes) (c : Client)
    → find k reg.clients ≡ some c
    → view reg k ≡ find c.source reg.queues
view-some reg k c there =
    ap (λ (o : Option Client). elim o [ none ↦ none | some d ↦ find d.source reg.queues ]) there

pub view-none : (reg : Registry) (k : Bytes) → find k reg.clients ≡ none → view reg k ≡ none
view-none reg k absent =
    ap (λ (o : Option Client). elim o [ none ↦ none | some d ↦ find d.source reg.queues ]) absent

pub put_box_here :
    (k j : Bytes) (o : Option Queue) (boxes : Boxes) → k ≡ j → put_box k o boxes j ≡ o
put_box_here k j o boxes p = ap (λ b. if b then o else boxes j) ((bytes_eq_iff k j).1 p)

pub put_box_other :
    (k j : Bytes) (o : Option Queue) (boxes : Boxes)
    → bytes_eq k j ≡ false
    → put_box k o boxes j ≡ boxes j
put_box_other k j o boxes e = ap (λ b. if b then o else boxes j) e

pub differs : (k j : Bytes) → bytes_eq k j ≡ false → k ≢ j
differs k j e p = cc (e, (bytes_eq_iff k j).1 p)

pub view-with_queue :
    {reg : Registry} (v : IsValid reg) (k : Bytes) (c : Client) (q q' : Queue)
    → find k reg.clients ≡ some c
    → find c.source reg.queues ≡ some q
    → (j : Bytes) → view (with_queue c.source q' reg) j ≡ put_box k (some q') (view reg) j
view-with_queue {reg} v k c q q' there at j = elim (Bool-cases (bytes_eq k j)) [
  | inl same ↦
      let p : k ≡ j = (bytes_eq_iff k j).0 same in
      view-some (with_queue c.source q' reg) j c
        (ap (λ (t : Bytes). find t reg.clients) (sym p) ∙ there)
      ∙ ground (arith, find-replace c.source c.source q' reg.queues)
      ∙ sym (put_box_here k j (some q') (view reg) p)
  | inr other ↦ elim (Option-cases (find j reg.clients)) [
    | inl absent ↦
        view-none (with_queue c.source q' reg) j absent
        ∙ sym (view-none reg j absent)
        ∙ sym (put_box_other k j (some q') (view reg) other)
    | inr (c', there') ↦
        view-some (with_queue c.source q' reg) j c' there'
        ∙ elsewhere c' (λ p. differs k j other (same_source v k j c c' there there' p))
        ∙ sym (view-some reg j c' there')
        ∙ sym (put_box_other k j (some q') (view reg) other)
  ]
]
  where
    elsewhere :
        (c' : Client)
        → c.source ≢ c'.source
        → find c'.source (replace c.source q' reg.queues) ≡ find c'.source reg.queues
    elsewhere c' ne = ground (arith, find-replace c.source c'.source q' reg.queues)
