-- ===== src/Tests/Mailboxes.antt =====
-- The registry and the mailboxes under one sequence of operations.
use linkedon_push.Common.{◌≡◌, refl, List, [], ◌∷◌, none, some, codes}
use linkedon_push.Protocol.Handshake.{HandshakeMessage}
use linkedon_push.Source.Registry.{Registry}
use linkedon_push.Source.Registry.Inv.{IsValid}
use linkedon_push.Source.Mailbox.{Op, joins, leaves, posts, takes, view}
use linkedon_push.Source.Mailbox.Refine.{run_ops, spec_ops, FitsAll, run_ops_refines}
use linkedon_push.Tests.Samples.{alice}
use linkedon_push.Tests.Sources.{with_alice, with_alice-IsValid, alice_key, news}

abbrev bob : HandshakeMessage
bob = record alice { user_id = codes "13" }

-- Bob comes, a message for alice is delivered, she looks for messages twice, and goes.
abbrev some_ops : List Op
some_ops = joins 5 bob 9 ∷ posts news ∷ takes alice_key ∷ takes alice_key ∷ leaves alice_key ∷ []

some_ops-FitsAll : FitsAll some_ops with_alice
unfolding FitsAll linkedon_push.Source.Mailbox.Fits
some_ops-FitsAll = (refl, λ o r e. (tt, λ o r e. (tt, λ o r e. (tt, λ o r e. (tt, λ o r e. tt)))))

run_ops_refines_example :
    (reg : Registry) × (run_ops some_ops with_alice
      ≡ some (none ∷ none ∷ some news ∷ none ∷ none ∷ [], reg))
    × IsValid reg
    × (view reg ≡ (spec_ops some_ops (view with_alice)).1)
unfolding spec_ops
run_ops_refines_example = run_ops_refines some_ops with_alice with_alice-IsValid some_ops-FitsAll
