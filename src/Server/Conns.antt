-- ===== src/Server/Conns.antt =====
-- The connections of the server under every sequence of clients that come and connections that end.
use linkedon_push.Common.{
  ℕ, ◌+◌, ◌≡◌, ◌≢◌, ◌≤◌, refl, false, List, [], ◌∷◌, ◌++◌, Option, none, some, if◌then◌else◌, ◌==◌,
  length, arith, length-append,
}
use linkedon_push.Server.{
  Server, Connection, Accepting, accept_client, enter_connection, lp_close_stfd, remove, find_conn,
  erase_conn, connection_cycle,
}

-- A client comes with a descriptor, or `do_cycle` of a connection returns.
pub data Event : Type 0 where
  comes : Accepting → ℕ → Event
  ends : ℕ → ℕ → Event

-- Only a connection with a thread has a `do_cycle` that returns.
unfoldable pub end_cycle : ℕ → ℕ → Server → Option Connection → Server
unfolding connection_cycle
end_cycle ret address s none = s
end_cycle ret address s (some c) = if c.running then (connection_cycle ret address s).1 else s

unfoldable pub happen : ℕ → Event → Server → Server
unfolding accept_client end_cycle find_conn
happen max_connections (comes a stfd) s = (accept_client max_connections a stfd s).1
happen max_connections (ends ret address) s = end_cycle ret address s (find_conn address s.conns)

unfoldable pub run_events : ℕ → List Event → Server → Server
unfolding happen
run_events max_connections [] s = s
run_events max_connections (e ∷ es) s = run_events max_connections es (happen max_connections e s)

-- How often a descriptor was handed over, is held by a connection, and was closed.
unfoldable pub count : ℕ → List ℕ → ℕ
count fd [] = 0
count fd (x ∷ xs) = (if x == fd then 1 else 0) + count fd xs

unfoldable pub held : ℕ → List Connection → ℕ
held fd [] = 0
held fd (c ∷ cs) = (if c.stfd == fd then 1 else 0) + held fd cs

unfoldable pub arrivals : ℕ → List Event → ℕ
arrivals fd [] = 0
arrivals fd (comes a x ∷ es) = (if x == fd then 1 else 0) + arrivals fd es
arrivals fd (ends ret address ∷ es) = arrivals fd es

held-append : (fd : ℕ) (cs ds : List Connection) → held fd (cs ++ ds) ≡ held fd cs + held fd ds
unfolding held
held-append fd [] ds = omega arith
held-append fd (c ∷ cs) ds = omega (arith, held-append fd cs ds)

held-erase_conn :
    (fd address : ℕ) (cs : List Connection) (c : Connection)
    → find_conn address cs ≡ some c
    → held fd cs ≡ (if c.stfd == fd then 1 else 0) + held fd (erase_conn address cs)
unfolding held find_conn erase_conn
held-erase_conn fd address [] c e = cc e
held-erase_conn fd address (d ∷ ds) c e = ground (arith, held-erase_conn fd address ds c)

length-erase_conn :
    (address : ℕ) (cs : List Connection) → length (erase_conn address cs) ≤ length cs
unfolding erase_conn
length-erase_conn address [] = omega arith
length-erase_conn address (c ∷ cs) = ground (arith, length-erase_conn address cs)

-- A descriptor that a connection holds or that was closed counts once.
abbrev pub balance : ℕ → Server → ℕ
balance fd s = held fd s.conns + count fd s.closed

accept_client-balance :
    (max_connections : ℕ) (a : Accepting) (x fd : ℕ) (s : Server)
    → balance fd (accept_client max_connections a x s).1 ≡ (if x == fd then 1 else 0) + balance fd s
unfolding accept_client enter_connection lp_close_stfd count held
accept_client-balance max_connections a x fd s = ground (
  arith,
  held-append fd s.conns (record { address = s.next; stfd = x; running = a.created } ∷ []),
)

ends-balance :
    (ret address fd : ℕ) (s : Server) (o : Option Connection)
    → find_conn address s.conns ≡ o
    → balance fd (end_cycle ret address s o) ≡ balance fd s
unfolding end_cycle connection_cycle remove lp_close_stfd count
ends-balance ret address fd s none e = refl
ends-balance ret address fd s (some c) e = ground (arith, e, held-erase_conn fd address s.conns c e)

happen-balance :
    (max_connections : ℕ) (e : Event) (es : List Event) (fd : ℕ) (s : Server)
    → arrivals fd es + balance fd (happen max_connections e s) ≡ arrivals fd (e ∷ es) + balance fd s
unfolding happen arrivals
happen-balance max_connections (comes a x) es fd s =
    omega (arith, accept_client-balance max_connections a x fd s)
happen-balance max_connections (ends ret address) es fd s =
    omega (arith, ends-balance ret address fd s (find_conn address s.conns) refl)

-- Whatever clients come and connections end: for every descriptor, the number of connections that
-- hold it and the number of times it was closed add up to what they were before and the number of
-- times it came.
pub run_events-balance :
    (max_connections : ℕ) (es : List Event) (fd : ℕ) (s : Server)
    → balance fd (run_events max_connections es s) ≡ arrivals fd es + balance fd s
unfolding run_events arrivals
run_events-balance max_connections [] fd s = omega arith
run_events-balance max_connections (e ∷ es) fd s = omega (
  arith,
  run_events-balance max_connections es fd (happen max_connections e s),
  happen-balance max_connections e es fd s,
)

happen_bound :
    (max_connections : ℕ) (e : Event) (s : Server)
    → length s.conns ≤ max_connections
    → length (happen max_connections e s).conns ≤ max_connections
unfolding happen accept_client enter_connection lp_close_stfd end_cycle connection_cycle remove
happen_bound max_connections (comes a x) s h =
    ground (
      arith,
      length-append s.conns (record { address = s.next; stfd = x; running = a.created } ∷ []),
    )
happen_bound max_connections (ends ret address) s h =
    ground (arith, length-erase_conn address s.conns)

-- The number of connections never exceeds `maxconnect`, whatever clients come and connections end, if it did not at
-- the beginning.
pub run_events_bound :
    (max_connections : ℕ) (es : List Event) (s : Server)
    → length s.conns ≤ max_connections
    → length (run_events max_connections es s).conns ≤ max_connections
unfolding run_events
run_events_bound max_connections [] s h = h
run_events_bound max_connections (e ∷ es) s h =
    run_events_bound max_connections es (happen max_connections e s)
      (happen_bound max_connections e s h)

find_conn-append :
    (address : ℕ) (cs ds : List Connection) (c : Connection)
    → find_conn address cs ≡ some c
    → find_conn address (cs ++ ds) ≡ some c
unfolding find_conn
find_conn-append address [] ds c e = cc e
find_conn-append address (d ∷ cs) ds c e = ground (arith, find_conn-append address cs ds c)

find_conn-erase_conn :
    (address other : ℕ) (cs : List Connection)
    → address ≢ other
    → find_conn address (erase_conn other cs) ≡ find_conn address cs
unfolding find_conn erase_conn
find_conn-erase_conn address other [] ne = refl
find_conn-erase_conn address other (c ∷ cs) ne =
    ground (arith, find_conn-erase_conn address other cs ne)

happen_stuck :
    (max_connections : ℕ) (e : Event) (s : Server) (address : ℕ) (c : Connection)
    → find_conn address s.conns ≡ some c
    → c.running ≡ false
    → find_conn address (happen max_connections e s).conns ≡ some c
unfolding happen accept_client enter_connection lp_close_stfd end_cycle connection_cycle remove
happen_stuck max_connections (comes a x) s address c e h = ground (
  arith,
  find_conn-append address s.conns (record { address = s.next; stfd = x; running = a.created } ∷ [])
      c e,
)
happen_stuck max_connections (ends ret other) s address c e h =
    ground (arith, find_conn-erase_conn address other s.conns)

-- A connection whose thread could not be created is in the list for good, whatever clients come and
-- connections end.
pub run_events_stuck :
    (max_connections : ℕ) (es : List Event) (s : Server) (address : ℕ) (c : Connection)
    → find_conn address s.conns ≡ some c
    → c.running ≡ false
    → find_conn address (run_events max_connections es s).conns ≡ some c
unfolding run_events
run_events_stuck max_connections [] s address c e h = e
run_events_stuck max_connections (x ∷ es) s address c e h =
    run_events_stuck max_connections es (happen max_connections x s) address c
      (happen_stuck max_connections x s address c e h) h
