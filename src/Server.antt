-- ===== src/Server.antt =====
-- src/app/lpushServer.cpp: the server's connections, its signals and its files; src/core/lpushConnection.cpp, the
-- base of a connection. What the operating system answers is an argument; descriptors and addresses
-- are numbers.
pub mod Conns
pub mod Signals
pub mod Start
pub mod Boot
pub mod Cycle
pub mod Tasks
pub mod Ticks
use linkedon_push.Common.{
  ℕ, suc, Bool, true, false, not, ◌&&◌, ◌||◌, List, [], ◌∷◌, ◌++◌, Option, none, some,
  if◌then◌else◌, ◌==◌, leb, ltb, Bytes, length,
}
use linkedon_push.Errors.{
  error_success, error_socket_closed, error_socket_read, error_socket_read_fully,
  error_socket_write, error_system_pid_get_file_info, error_system_pid_set_file_info,
  error_st_create_cycle_thread,
}
use linkedon_push.Wire.{is_negative}
use linkedon_push.Listener.{Listener}

-- What the server knows of an `LPushConnection`: the address of the object, its `stfd`, and whether
-- `start` got it a thread.
pub record Connection : Type 0 where
  pub address : ℕ
  pub stfd : ℕ
  pub running : Bool

-- The fields of `LPushServer`. `closed` are the descriptors of clients that were closed, the latest first, and
-- `next` is an address that was not used yet.
pub record Server : Type 0 where
  pub pid_fd : Option ℕ
  pub conns : List Connection
  pub listeners : List Listener
  pub signal_reload : Bool
  pub signal_gracefully_quit : Bool
  pub start_time : ℕ
  pub before_time : ℕ
  pub server_key : Bytes
  pub task_key : Bytes
  pub closed : List ℕ
  pub next : ℕ

-- The constructor, which leaves `pid_fd` unset: it is an argument.
abbrev pub make_server : Option ℕ → Server
make_server pid_fd = record {
  pid_fd = pid_fd;
  conns = [];
  listeners = [];
  signal_reload = false;
  signal_gracefully_quit = false;
  start_time = 0;
  before_time = 0;
  server_key = [];
  task_key = [];
  closed = [];
  next = 0;
}

unfoldable pub lp_close_stfd : ℕ → Server → Server
lp_close_stfd stfd s = record s { closed = stfd ∷ s.closed }

-- Whether fcntl(2) with F_GETFD and with F_SETFD and `st_thread_create` succeed.
pub record Accepting : Type 0 where
  pub getfd : Bool
  pub setfd : Bool
  pub created : Bool

-- `LPushConnection::start`.
unfoldable pub start_connection : Bool → ℕ
start_connection created = if not created then error_st_create_cycle_thread else error_success

-- `new LPushConn`, `conns.push_back` and `conn->start()`.
unfoldable pub enter_connection : Bool → ℕ → Server → ℕ × Server
unfolding start_connection
enter_connection created stfd s = (
  start_connection created,
  record s {
    conns = s.conns ++ (record { address = s.next; stfd = stfd; running = created } ∷ []);
    next = suc s.next;
  },
)

unfoldable pub accept_client : ℕ → Accepting → ℕ → Server → ℕ × Server
unfolding lp_close_stfd enter_connection
accept_client max_connections a client_stfd s =
    if is_negative max_connections || leb max_connections (length s.conns)
    then (error_success, lp_close_stfd client_stfd s)
    else if not a.getfd
    then (error_system_pid_get_file_info, lp_close_stfd client_stfd s)
    else if not a.setfd
    then (error_system_pid_set_file_info, lp_close_stfd client_stfd s)
    else enter_connection a.created client_stfd s

-- `LPushStreamListener::on_tcp_client`.
unfoldable pub on_tcp_client : ℕ → Accepting → ℕ → Server → ℕ × Server
unfolding accept_client
on_tcp_client max_connections a stfd s = accept_client max_connections a stfd s

unfoldable pub find_conn : ℕ → List Connection → Option Connection
find_conn address [] = none
find_conn address (c ∷ cs) = if c.address == address then some c else find_conn address cs

unfoldable pub erase_conn : ℕ → List Connection → List Connection
erase_conn address [] = []
erase_conn address (c ∷ cs) = if c.address == address then cs else c ∷ erase_conn address cs

-- `remove`, with the destructor of the connection, which closes its descriptor.
unfoldable pub remove : ℕ → Server → Server
unfolding find_conn erase_conn lp_close_stfd
remove address s = elim (find_conn address s.conns) [
  | none ↦ s
  | some c ↦ lp_close_stfd c.stfd (record s { conns = erase_conn address s.conns })
]

-- `LPushConnection::cycle` behind `do_cycle`: what it logs of the return code, and `server->remove(this)`.
unfoldable pub connection_ret : ℕ → ℕ
connection_ret ret =
    if ret == error_socket_read || ret == error_socket_read_fully || ret == error_socket_write
    then error_socket_closed
    else ret

unfoldable pub connection_cycle : ℕ → ℕ → Server → ℕ × Server
unfolding connection_ret remove
connection_cycle ret address s = (connection_ret ret, remove address s)

unfoldable pub close_listeners : Server → Server
close_listeners s = record s { listeners = [] }

unfoldable pub close_all : List Connection → List ℕ → List ℕ
close_all [] closed = closed
close_all (c ∷ cs) closed = close_all cs (c.stfd ∷ closed)

unfoldable pub close_conns : Server → Server
unfolding close_all
close_conns s = record s { conns = []; closed = close_all s.conns s.closed }

-- What a signal does: the server goes on, or the process exits.
pub data Reaction : Type 0 where
  goes_on : Server → Reaction
  exits : Reaction

abbrev pub sighup : ℕ
sighup = 1

abbrev pub sigint : ℕ
sigint = 2

abbrev pub sigusr2 : ℕ
sigusr2 = 12

abbrev pub sigterm : ℕ
sigterm = 15

-- A SIGPIPE is only logged.
unfoldable pub on_signal : ℕ → Server → Reaction
on_signal signo s =
    if signo == sighup
    then goes_on (record s { signal_reload = true })
    else if signo == sigint || signo == sigusr2
    then exits
    else if signo == sigterm && not s.signal_gracefully_quit
    then goes_on (record s { signal_gracefully_quit = true })
    else goes_on s
