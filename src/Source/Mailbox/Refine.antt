-- ===== src/Source/Mailbox/Refine.antt =====
-- The registry implements the mailboxes, in any number of operations.
use linkedon_push.Common.{
  ◌≡◌, refl, ap, ◌∙◌, List, [], ◌∷◌, Option, some, bytes_key, nat_key, ◌>>=◌,
}
use linkedon_push.Source.Message.{WorkerMessage}
use linkedon_push.Source.Registry.{Registry}
use linkedon_push.Source.Registry.Inv.{IsValid}
use linkedon_push.Source.Mailbox.{Op, Boxes, spec, step, view, Fits}
use linkedon_push.Source.Mailbox.Steps.{step-Simulated}

-- The outputs of a sequence of operations, and what it leaves.
unfoldable pub run_ops : List Op → Registry → Option (List (Option WorkerMessage) × Registry)
unfolding step
run_ops [] reg = some ([], reg)
run_ops (op ∷ ops) reg =
    step op reg >>= λ r. run_ops ops r.1 >>= λ rest. some (r.0 ∷ rest.0, rest.1)

unfoldable pub spec_ops : List Op → Boxes → List (Option WorkerMessage) × Boxes
unfolding spec
spec_ops [] boxes = ([], boxes)
spec_ops (op ∷ ops) boxes =
    let rest = spec_ops ops (spec op boxes).1 in ((spec op boxes).0 ∷ rest.0, rest.1)

-- Every descriptor that comes is free when it comes.
unfoldable pub FitsAll : List Op → Registry → Type 0
FitsAll [] reg = Unit {0}
FitsAll (op ∷ ops) reg =
    Fits op reg
    × ((out : Option WorkerMessage) (reg' : Registry)
        → step op reg ≡ some (out, reg')
        → FitsAll ops reg')

run_ops-cons :
    (op : Op) (ops : List Op) (reg reg' reg2 : Registry) (out : Option WorkerMessage)
    (outs : List (Option WorkerMessage))
    → step op reg ≡ some (out, reg')
    → run_ops ops reg' ≡ some (outs, reg2)
    → run_ops (op ∷ ops) reg ≡ some (out ∷ outs, reg2)
unfolding run_ops
run_ops-cons op ops reg reg' reg2 out outs e e' = rw (e, e') refl

-- On a well-formed registry, any sequence of clients that come with free descriptors, clients that go, messages that
-- are delivered and consumers that look for the next message ends without fault and keeps the registry well formed; it hands
-- out exactly the messages that the mailboxes hand out, and the registry then holds exactly their contents.
pub run_ops_refines :
    (ops : List Op) (reg : Registry)
    → IsValid reg
    → FitsAll ops reg
    → (reg' : Registry) × (run_ops ops reg ≡ some ((spec_ops ops (view reg)).0, reg'))
      × IsValid reg'
      × (view reg' ≡ (spec_ops ops (view reg)).1)
unfolding run_ops spec_ops FitsAll
run_ops_refines [] reg v f = (reg, refl, v, refl)
run_ops_refines (op ∷ ops) reg v (f, fs) =
    let s = step-Simulated op reg v f in
    let (reg', ran, v', shown) =
      run_ops_refines ops s.next s.valid (fs (spec op (view reg)).0 s.next s.stepped) in
    (
      reg',
      run_ops-cons op ops reg s.next reg' (spec op (view reg)).0 _ s.stepped
          (ran ∙ ap (λ b. some ((spec_ops ops b).0, reg')) s.shown),
      v',
      shown ∙ ap (λ b. (spec_ops ops b).1) s.shown,
    )
