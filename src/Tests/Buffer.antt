-- ===== src/Tests/Buffer.antt =====
-- The receive buffer at concrete inputs.
use linkedon_push.Common.{◌≡◌, ◌≤◌, [], ◌∷◌, ◌++◌, some, length, arith}
use linkedon_push.Errors.{error_success}
use linkedon_push.Socket.Pipe.{pipe, pipe-IsStream, pipe-IsLive}
use linkedon_push.FastBuffer.{Grown, grow, unread}
use linkedon_push.FastBuffer.Inv.{IsValid}
use linkedon_push.FastBuffer.Fill.{Extends}
use linkedon_push.FastBuffer.Grow.{grow_lem, grow_live}
use linkedon_push.Tests.Samples.{small, socket_of, hello_body}

pub small-IsValid : IsValid small
small-IsValid = omega arith

grow_lem_example :
    (g : Grown pipe) × (grow pipe 4 small (socket_of hello_body) ≡ some g)
    × Extends pipe (λ s. s.incoming) pipe-IsStream small (socket_of hello_body) 4 g
grow_lem_example =
    grow_lem pipe (λ s. s.incoming) pipe-IsStream 4 (socket_of hello_body) small-IsValid
      (omega arith)

grow_live_example :
    (g : Grown pipe) × (grow pipe 4 small (socket_of hello_body) ≡ some g)
    × (g.0 ≡ error_success)
    × IsValid g.1
    × (g.1.nb_buffer ≡ 8)
    × (unread g.1 ++ g.2.io.incoming ≡ 10 ∷ 11 ∷ 1 ∷ 2 ∷ 3 ∷ [])
    × (4 ≤ length (unread g.1))
grow_live_example =
    grow_live pipe (λ s. s.incoming) pipe-IsStream 4 (socket_of hello_body) pipe-IsLive
      small-IsValid (omega arith) (omega arith)
