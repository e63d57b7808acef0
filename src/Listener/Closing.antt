-- ===== src/Listener/Closing.antt =====
-- How the listeners of src/app/lpushAppListener.cpp, and those of src/app/lpushServer.cpp that own them, give back
-- their descriptors. `Files` are the open descriptors of the process, each with what it stands for.
use linkedon_push.Common.{
  ℕ, ◌≡◌, refl, List, Option, none, some, if◌then◌else◌, ◌==◌, Bytes, find, erase_key,
  find-erase_key, nat_key, ◌>>=◌,
}
use linkedon_push.Listener.{Listener, Calls, make_listener, tcp_listen}

abbrev pub Files : Type 0
Files = List (ℕ × ℕ)

-- close(2), which leaves a descriptor alone that is not open; -1 is `none`.
unfoldable pub close_fd : Option ℕ → Files → Files
close_fd none files = files
close_fd (some fd) files = erase_key fd files

-- `lp_close_stfd`: `st_netfd_close` closes the descriptor behind `stfd`; its failure ends the process by
-- an assertion, which is `none`.
unfoldable pub close_open : ℕ → Option ℕ → Files → Option Files
close_open fd none files = none
close_open fd (some content) files = some (erase_key fd files)

unfoldable pub close_behind : Option ℕ → Files → Option Files
unfolding close_open
close_behind none files = none
close_behind (some fd) files = close_open fd (find fd files) files

unfoldable pub lp_close_stfd : Option ℕ → Option ℕ → Files → Option Files
unfolding close_behind
lp_close_stfd none fd files = some files
lp_close_stfd (some stfd) fd files = close_behind fd files

-- The destructors of `LPushTcpListener` and `LPushUdpListener`. `meanwhile` is what the other threads do to the
-- descriptors while `pthread->stop()` waits.
unfoldable pub destroy_listener : (Files → Files) → Listener → Files → Option Files
unfolding lp_close_stfd close_fd
destroy_listener meanwhile l files = do
  closed ← lp_close_stfd l.stfd l.fd files
  some (close_fd l.fd (meanwhile closed))

-- The fields of `LPushStreamListener`.
pub record StreamListener : Type 0 where
  pub tcp_listener : Option Listener
  pub ip : Bytes
  pub port : ℕ

-- `SafeDelete(tcpListener)`, which is the destructor, too.
unfoldable pub delete_listener : (Files → Files) → Option Listener → Files → Option Files
unfolding destroy_listener
delete_listener meanwhile none files = some files
delete_listener meanwhile (some l) files = destroy_listener meanwhile l files

-- `listen`: the return code, the object, and the descriptors before the new socket is opened.
unfoldable pub stream_listen :
    (Files → Files)
    → Calls
    → Bytes
    → ℕ
    → StreamListener
    → Files
    → Option (ℕ × StreamListener × Files)
unfolding delete_listener tcp_listen
stream_listen meanwhile c i p s files = do
  closed ← delete_listener meanwhile s.tcp_listener files
  let listening = tcp_listen c make_listener
  some (listening.0, record { tcp_listener = some listening.1; ip = i; port = p }, closed)

module _ (meanwhile : Files → Files) (l : Listener) (fd stfd content : ℕ) (files : Files) where
  -- For a listener whose descriptor is open and has its `stfd`, the destructor closes that descriptor before it
  -- waits for the thread and once more behind that: what the other threads have under any other
  -- descriptor stays, and whatever they have opened under this one meanwhile is closed.
  pub destroy_listener_lem :
      l.fd ≡ some fd
      → l.stfd ≡ some stfd
      → find fd files ≡ some content
      → (after : Files) × (destroy_listener meanwhile l files ≡ some after)
        × ((g : ℕ)
            → find g after ≡ (if fd == g then none else find g (meanwhile (erase_key fd files))))
  unfolding destroy_listener lp_close_stfd close_behind close_open close_fd
  destroy_listener_lem has_fd has_stfd is_open = (
    erase_key fd (meanwhile (erase_key fd files)),
    rw (has_fd, has_stfd, is_open) refl,
    λ g. find-erase_key fd g (meanwhile (erase_key fd files)),
  )
