-- ===== src/Protocol/Receive.antt =====
-- `readMessage` over a stream socket.
use linkedon_push.Common.{
  ℕ, ◌*◌, ◌≤◌, ◌<◌, ◌≡◌, refl, sym, ap, ◌∙◌, ◌++◌, Option, some, Bytes, length, drop, take, arith,
  append_assoc, length-append, lt→leb, lt→ltb, le→leb, take-append_left, take-append-drop,
  take-append_le, drop-append_le, drop-append_left,
}
use mathlib.Core.Path.{subst}
use linkedon_push.Errors.{error_success}
use linkedon_push.Socket.{StIo, StSocket}
use linkedon_push.Socket.Stream.{IsStream, IsLive}
use linkedon_push.FastBuffer.{FastBuffer, unread, read_slice}
use linkedon_push.FastBuffer.Inv.{IsValid}
use linkedon_push.FastBuffer.Grow.{grow_live}
use linkedon_push.FastBuffer.View.{Holds, advance, advance-Holds, mem_at_p, read_slice-Holds}
use linkedon_push.Protocol.{
  Header, Chunk, block, empty_header, handshake_data_max, read_body, read_message, set_data,
  set_block, Received,
}
use linkedon_push.Protocol.Packet.{header_bytes, packet, IsPacket, length-header_bytes}
use linkedon_push.Protocol.Parse.{read_header_lem, header_consumed, judged}

-- A stream that begins with `xs`, of which the buffer already has enough: the buffer then begins with
-- `xs` itself.
pub front_of :
    (xs rest more : Bytes) {fb : FastBuffer}
    → IsValid fb
    → unread fb ++ more ≡ xs ++ rest
    → length xs ≤ length (unread fb)
    → Holds fb (xs ++ drop (length xs) (unread fb)) × (drop (length xs) (unread fb) ++ more ≡ rest)
front_of xs rest more {fb} v e h = (
  record {
    valid = v;
    exact = sym (ap (λ t. t ++ back) front_eq ∙ take-append-drop (length xs) (unread fb));
  },
  drop_eq,
)
  where
    back : Bytes
    back = drop (length xs) (unread fb)

    front_eq : xs ≡ take (length xs) (unread fb)
    front_eq =
        sym (take-append_left (length xs) xs rest refl)
        ∙ ap (take (length xs)) (sym e)
        ∙ take-append_le (length xs) (unread fb) more h

    drop_eq : back ++ more ≡ rest
    drop_eq =
        sym (drop-append_le (length xs) (unread fb) more h)
        ∙ ap (drop (length xs)) e
        ∙ drop-append_left (length xs) xs rest refl

-- `setData` with a block that has what the header announces, and maybe more behind it.
pub set_data_any :
    (lpc : Chunk) (h : Header) (body more : Bytes)
    → length body ≡ h.datalenght
    → 0 < h.datalenght
    → h.datalenght < 2147483648
    → set_data lpc h (some (body ++ more)) ≡ some (record { header = h; body = block body })
unfolding set_data set_block
set_data_any lpc h body more e pos small = rw (
  lt→ltb 0 h.datalenght pos,
  lt→leb 2147483648 h.datalenght small,
  le→leb h.datalenght (length (body ++ more)) (omega (arith, length-append body more)),
  take-append_left h.datalenght body more e,
)

take_slice :
    (n : ℕ) (xs rest : Bytes) {fb : FastBuffer}
    → length xs ≡ n
    → 0 < length xs
    → Holds fb (xs ++ rest)
    → (read_slice n fb ≡ some (fb.p, advance n fb)) × Holds (advance n fb) rest
take_slice n xs rest {fb} e pos h =
    subst (λ k. (read_slice k fb ≡ some (fb.p, advance k fb)) × Holds (advance k fb) rest) e
      (read_slice-Holds xs rest h pos, advance-Holds xs rest h)

header_accepted :
    (h : Header) (body : Bytes) (lph : Header) (fb : FastBuffer)
    → IsPacket h body
    → judged lph h fb ≡ (error_success, h, fb)
header_accepted h body lph fb ok = ground arith

module _ (rt : StIo) (pending : rt.State → Bytes) (stream : IsStream rt pending)
    (live : IsLive rt pending) where
  -- What the call gives: success, the chunk, and the rest of the stream.
  abbrev pub Delivers : Option (Received rt) → Chunk → Bytes → ℕ → Type 0
  Delivers result chunk rest capacity =
      (fb : FastBuffer) × (skt : StSocket rt.State) × (result
        ≡ some (error_success, chunk, fb, skt))
      × IsValid fb
      × (fb.nb_buffer ≡ capacity)
      × (unread fb ++ pending skt.io ≡ rest)

  read_body_lem :
      (h : Header) (body rest : Bytes) (lpc : Chunk) {fb : FastBuffer} (skt : StSocket rt.State)
      → IsPacket h body
      → IsValid fb
      → 2 * handshake_data_max ≤ fb.nb_buffer
      → unread fb ++ pending skt.io ≡ body ++ rest
      → Delivers
          (read_body rt h lpc fb skt)
          (record { header = h; body = block body })
          rest
          fb.nb_buffer
  unfolding read_body
  read_body_lem h body rest lpc {fb} skt ok v big e =
      let (g, made, success, v', same, kept, enough) =
        grow_live rt pending stream h.datalenght skt live v (omega arith)
          (omega (arith, ap length e, length-append body rest)) in
      let (there, left) = front_of body rest (pending g.2.io) v' (kept ∙ e) (omega arith) in
      let (sliced, holds) = take_slice h.datalenght body _ ok.announced (omega arith) there in
      (
        advance h.datalenght g.1,
        g.2,
        rw (
          made,
          success,
          sliced,
          mem_at_p body _ there,
          set_data_any lpc h body _ ok.announced ok.some_data (omega arith),
        ),
        holds.valid,
        same,
        ap (λ t. t ++ pending g.2.io) holds.exact ∙ left,
      )

  -- On a live stream that begins with an allowed packet, and with a well-formed buffer of 800
  -- bytes at least, `readMessage` succeeds with the chunk of that packet, keeps the buffer well
  -- formed, and leaves exactly the bytes behind the packet.
  pub read_message_lem :
      (h : Header) (body rest : Bytes) (lpc : Chunk) {fb : FastBuffer} (skt : StSocket rt.State)
      → IsPacket h body
      → IsValid fb
      → 2 * handshake_data_max ≤ fb.nb_buffer
      → unread fb ++ pending skt.io ≡ packet h body ++ rest
      → Delivers
          (read_message rt lpc fb skt)
          (record { header = h; body = block body })
          rest
          fb.nb_buffer
  unfolding read_message
  read_message_lem h body rest lpc {fb} skt ok v big e =
      let (g, made, success, v', same, kept, enough) =
        grow_live rt pending stream 14 skt live v (omega arith) (
          omega (
            arith,
            ap length e,
            length-append (packet h body) rest,
            length-append (header_bytes h) body,
            length-header_bytes h,
          )) in
      let (there, left) =
        front_of (header_bytes h) (body ++ rest) (pending g.2.io) v'
          (kept ∙ e ∙ append_assoc (header_bytes h) body rest)
          (omega (arith, length-header_bytes h)) in
      let (fb', skt', read, v2, same2, rest2) =
        read_body_lem h body rest lpc g.2 ok (header_consumed h _ there).valid (omega arith)
          (ap (λ t. t ++ pending g.2.io) (header_consumed h _ there).exact ∙ left) in
      (
        fb',
        skt',
        rw
            (
              made,
              success,
              read_header_lem h empty_header _ ok.time_int (omega arith) there,
              header_accepted h body empty_header (advance 14 g.1) ok,
              lt→ltb 0 h.datalenght ok.some_data,
              lt→leb 2147483648 h.datalenght (omega arith),
            )
            read,
        v2,
        same2 ∙ same,
        rest2,
      )
