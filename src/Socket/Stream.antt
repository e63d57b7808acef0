-- ===== src/Socket/Stream.antt =====
-- What the code relies on of the state-threads runtime on a connected TCP socket, as hypotheses
-- about its calls.
use linkedon_push.Common.{ℕ, ◌≤◌, ◌<◌, ◌≡◌, ◌⊎◌, Bool, [], ◌∷◌, ◌++◌, ◌≢◌, Bytes, length, take}
use linkedon_push.Errors.{error_success, error_socket_timeout, error_socket_write}
use linkedon_push.Socket.{StIo, StRead, got, read_failed, put, write_failed}

-- The bytes of a reading that did arrive.
abbrev pub arrived : StRead → Bytes
arrived (got bs) = bs
arrived (read_failed t) = []

-- st_read(3): at most `size` bytes are stored, and they are the next ones of the stream; an error
-- takes none. `pending` is what the peer has sent and the program has not yet read.
pub record IsStream (rt : StIo) (pending : rt.State → Bytes) : Type 0 where
  pub read_fits : (n t : ℕ) (s : rt.State) → length (arrived (rt.st_read n t s).0) ≤ n
  pub read_next :
      (n t : ℕ) (s : rt.State)
      → arrived (rt.st_read n t s).0 ++ pending (rt.st_read n t s).1 ≡ pending s

-- While bytes are pending, a read of a positive size takes some of them.
abbrev pub IsLive : (rt : StIo) → (rt.State → Bytes) → Type 0
IsLive rt pending =
    (n t : ℕ) (s : rt.State) → 0 < n → pending s ≢ [] → arrived (rt.st_read n t s).0 ≢ []

-- st_writev(3): all vectors are written, in order, and their total is returned; or -1 is, and what reached the
-- peer is some first part of them.
pub record IsWriter (rt : StIo) (sent : rt.State → Bytes) : Type 0 where
  pub write_all :
      (a b : Bytes) (t : ℕ) (s : rt.State)
      → (((rt.st_writev (a ∷ b ∷ []) t s).0 ≡ put (length (a ++ b)))
          × (sent (rt.st_writev (a ∷ b ∷ []) t s).1 ≡ sent s ++ (a ++ b)))
        ⊎ ((late : Bool) × (part : ℕ) × ((rt.st_writev (a ∷ b ∷ []) t s).0 ≡ write_failed late)
            × (sent (rt.st_writev (a ∷ b ∷ []) t s).1 ≡ sent s ++ take part (a ++ b)))

-- What becomes of `bytes` that a call writes and answers with `ret`: all are on the stream behind a success, and
-- some first part of them behind an error of the socket.
abbrev pub Sent : {S : Type 0} → (S → Bytes) → Bytes → S → ℕ → S → Type 0
Sent sent bytes before ret after =
    ((ret ≡ error_success) × (sent after ≡ sent before ++ bytes))
    ⊎ (((ret ≡ error_socket_timeout) ⊎ (ret ≡ error_socket_write))
        × ((part : ℕ) × (sent after ≡ sent before ++ take part bytes)))
