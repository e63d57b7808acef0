-- ===== src/Protocol/Send.antt =====
-- `sendPacket` and the replies of src/protocol/lpushProtocolStack.cpp, and what they put on the stream.
-- `time` is the answer of `getCurrentTime`, cut to an `int`.
use linkedon_push.Common.{
  ℕ, Bool, true, false, ◌⊎◌, inl, inr, ◌%◌, ◌/◌, ◌<◌, ◌≡◌, refl, ap, ◌∙◌, [], ◌∷◌, ◌++◌, Option,
  none, some, Bytes, length, ◌==◌, if◌then◌else◌, arith, ◌>>=◌, lt→leb, le→leb, length-append,
  take-append_left, ◌^◌,
}
use mathlib.Core.Path.{subst}
use linkedon_push.Errors.{error_success, error_socket_timeout, error_socket_write}
use linkedon_push.Wire.{split_int, is_negative}
use linkedon_push.Socket.{StIo, StSocket, StWrite, put, write_failed, finish_write}
use linkedon_push.Socket
use linkedon_push.Socket.Stream.{IsWriter, Sent}
use linkedon_push.Protocol.{Header, Chunk, Data, null, block, uninit, new_chunk, copy_of}
use linkedon_push.Protocol.Packet.{header_bytes, packet}

-- The 14 bytes of `buf`, one `*pbuf++ |= …` after the other on zeroed memory.
unfoldable pub header_block : Header → Bytes
header_block h =
    b'L'
    ∷ b'P'
    ∷ b'U'
    ∷ b'S'
    ∷ b'H'
    ∷ h.timestamp / 16777216 % 256
    ∷ h.timestamp / 65536 % 256
    ∷ h.timestamp / 256 % 256
    ∷ h.timestamp % 256
    ∷ h.data_type
    ∷ h.datalenght / 16777216 % 256
    ∷ h.datalenght / 65536 % 256
    ∷ h.datalenght / 256 % 256
    ∷ h.datalenght % 256
    ∷ []

-- The second vector: `datalenght` bytes from `data` on. A negative length is a huge `size_t`.
unfoldable pub body_vector : Data → ℕ → Option Bytes
body_vector (block bs) n = if is_negative n then none else copy_of bs n
body_vector null n = if n == 0 then some [] else none
body_vector uninit n = if n == 0 then some [] else none

module _ (rt : StIo) where
  unfoldable pub send_packet : Chunk → StSocket rt.State → Option (ℕ × StSocket rt.State)
  send_packet message skt = do
    body ← body_vector message.body message.header.datalenght
    some (Socket.writev rt (header_block message.header ∷ body ∷ []) skt)

  -- `sendHandshake` and `sendCreateConnection` differ in the packet's type: a body of one byte.
  unfoldable pub send_byte : ℕ → ℕ → ℕ → StSocket rt.State → Option (ℕ × StSocket rt.State)
  send_byte data_type time issuccess skt = do
    message ←
        new_chunk (record { timestamp = time; data_type = data_type; datalenght = 1 })
          (some (issuccess ∷ []))
    send_packet message skt

  unfoldable pub send_handshake : ℕ → ℕ → StSocket rt.State → Option (ℕ × StSocket rt.State)
  send_handshake time issuccess skt = send_byte 1 time issuccess skt

  unfoldable pub send_create_connection : ℕ → ℕ → StSocket rt.State → Option (ℕ × StSocket rt.State)
  send_create_connection time issuccess skt = send_byte 4 time issuccess skt

  unfoldable pub send_hreatbeat : Chunk → StSocket rt.State → Option (ℕ × StSocket rt.State)
  send_hreatbeat message skt = send_packet message skt

-- The block that the code fills is the header of the packet format.
pub header_block-eq : (h : Header) → header_block h ≡ header_bytes h
unfolding header_block split_int
header_block-eq h = refl

body_vector_lem :
    (body more : Bytes) (n : ℕ)
    → length body ≡ n
    → n < 2147483648
    → body_vector (block (body ++ more)) n ≡ some body
unfolding body_vector
body_vector_lem body more n e small = rw (
  lt→leb 2147483648 n small,
  le→leb n (length (body ++ more)) (omega (arith, length-append body more)),
  take-append_left n body more e,
)

-- The answer of a write that failed.
finish_write_failed :
    {S : Type 0} (skt : StSocket S) (r : StWrite) (s : S) (late : Bool)
    → r ≡ write_failed late
    → (((finish_write skt (r, s)).0 ≡ error_socket_timeout)
        ⊎ ((finish_write skt (r, s)).0 ≡ error_socket_write))
      × ((finish_write skt (r, s)).1.io ≡ s)
unfolding finish_write
finish_write_failed skt r s true e = rw e (inl refl, refl)
finish_write_failed skt r s false e = rw e (inr refl, refl)

finish_write_put :
    {S : Type 0} (skt : StSocket S) (r : StWrite) (s : S) (n : ℕ)
    → r ≡ put n
    → 0 < n
    → ((finish_write skt (r, s)).0 ≡ error_success) × ((finish_write skt (r, s)).1.io ≡ s)
unfolding finish_write
finish_write_put skt r s n e h = rw e (ground arith, ground arith)

module _ (rt : StIo) (sent : rt.State → Bytes) (writer : IsWriter rt sent) where
  writev_lem :
      (a b : Bytes) (skt : StSocket rt.State)
      → 0 < length a
      → Sent sent
          (a ++ b)
          skt.io
          (Socket.writev rt (a ∷ b ∷ []) skt).0
          (Socket.writev rt (a ∷ b ∷ []) skt).1.io
  unfolding Socket.writev finish_write
  writev_lem a b skt h =
      let after = (rt.st_writev (a ∷ b ∷ []) skt.send_timeout skt.io).1 in
      elim (writer.write_all a b skt.send_timeout skt.io) [
        | inl (all, there) ↦
            let (ok, same) =
              finish_write_put skt _ after (length (a ++ b)) all
                (omega (arith, length-append a b)) in
            inl (ok, ap sent same ∙ there)
        | inr (late, part, failed, there) ↦
            let (code, same) = finish_write_failed skt _ after late failed in
            inr (code, (part, ap sent same ∙ there))
      ]

  -- The runtime writing all or failing behind a first part: `sendPacket` of a chunk whose block holds what its
  -- header announces, less than 2 ^ 31 bytes, returns; either it succeeds, and exactly the packet
  -- of the format is on the stream, or it reports the timeout or the error of the socket, and no
  -- more than a first part of that packet is there.
  pub send_packet_lem :
      (h : Header) (body more : Bytes) (skt : StSocket rt.State)
      → length body ≡ h.datalenght
      → h.datalenght < 2 ^ 31
      → (ret : ℕ) × (skt' : StSocket rt.State) × (send_packet rt
            (record { header = h; body = block (body ++ more) })
            skt
          ≡ some (ret, skt'))
        × Sent sent (packet h body) skt.io ret skt'.io
  unfolding send_packet
  send_packet_lem h body more skt e small =
      let wrote = Socket.writev rt (header_block h ∷ body ∷ []) skt in
      (
        wrote.0,
        wrote.1,
        rw (body_vector_lem body more h.datalenght e small) refl,
        subst (λ t. Sent sent (t ++ body) skt.io wrote.0 wrote.1.io) (header_block-eq h)
            (writev_lem (header_block h) body skt (unfold header_block in omega arith)),
      )

  -- The reply to a handshake or a connection request is a packet of one byte: the verdict.
  pub send_reply_lem :
      (time issuccess : ℕ) (skt : StSocket rt.State)
      → let reply = λ (t : ℕ).
        packet (record { timestamp = time; data_type = t; datalenght = 1 }) (issuccess ∷ []) in
        ((ret : ℕ) × (skt' : StSocket rt.State) × (send_handshake rt time issuccess skt
            ≡ some (ret, skt'))
          × Sent sent (reply 1) skt.io ret skt'.io)
        × ((ret : ℕ) × (skt' : StSocket rt.State) × (send_create_connection rt time issuccess skt
              ≡ some (ret, skt'))
            × Sent sent (reply 4) skt.io ret skt'.io)
  unfolding send_handshake send_create_connection send_byte new_chunk
  send_reply_lem time issuccess skt = (
    send_packet_lem (record { timestamp = time; data_type = 1; datalenght = 1 }) (issuccess ∷ []) []
        skt refl (omega arith),
    send_packet_lem (record { timestamp = time; data_type = 4; datalenght = 1 }) (issuccess ∷ []) []
        skt refl (omega arith),
  )
