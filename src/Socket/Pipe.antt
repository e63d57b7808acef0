-- ===== src/Socket/Pipe.antt =====
-- A runtime for the examples: what the peer sent lies in one list and is read in pieces of at most
-- the size asked for; what the program writes is kept in another.
use linkedon_push.Common.{
  ℕ, zero, suc, ◌<◌, ◌≢◌, refl, List, [], ◌∷◌, ◌++◌, Bytes, length, take, drop, length-take,
  take-append-drop, arith, append-nil, ap, inl,
}
use linkedon_push.Socket.{StIo, got, put}
use linkedon_push.Socket.Stream.{IsStream, IsLive, IsWriter}

pub record Ends : Type 0 where
  pub incoming : Bytes
  pub outgoing : Bytes

abbrev joined : List Bytes → Bytes
joined [] = []
joined (v ∷ vs) = v ++ joined vs

abbrev pub pipe : StIo
pipe = record {
  State = Ends;
  st_read = λ n t s. (got (take n s.incoming), record s { incoming = drop n s.incoming });
  st_read_fully = λ n t s. (got (take n s.incoming), record s { incoming = drop n s.incoming });
  st_write = λ bs t s. (put (length bs), record s { outgoing = s.outgoing ++ bs });
  st_writev = λ vs t s. (put (length (joined vs)), record s { outgoing = s.outgoing ++ joined vs });
}

pub pipe-IsStream : IsStream pipe (λ s. s.incoming)
pipe-IsStream = record {
  read_fits = λ n t s. omega (arith, length-take n s.incoming);
  read_next = λ n t s. take-append-drop n s.incoming;
}

take_some : (n : ℕ) (bs : Bytes) → 0 < n → bs ≢ [] → take n bs ≢ []
take_some n [] h some_bytes e = some_bytes refl
take_some zero (b ∷ bs) h some_bytes e = absurd (omega arith)
take_some (suc n) (b ∷ bs) h some_bytes e = absurd (omega (arith, ap length e))

pub pipe-IsLive : IsLive pipe (λ s. s.incoming)
pipe-IsLive n t s h some_bytes = take_some n s.incoming h some_bytes

pub pipe-IsWriter : IsWriter pipe (λ s. s.outgoing)
pipe-IsWriter = record {
  write_all = λ a b t s. inl (
    ap (λ r. put (length (a ++ r))) (append-nil b),
    ap (λ r. s.outgoing ++ (a ++ r)) (append-nil b),
  );
}
