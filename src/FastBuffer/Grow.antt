-- ===== src/FastBuffer/Grow.antt =====
-- `LPushFastBuffer::grow` over a stream socket: termination, the bytes it keeps, and its errors.
use linkedon_push.Common.{
  ℕ, ◌+◌, ◌-◌, ◌≤◌, ◌<◌, ◌≡◌, refl, sym, ap, ◌∙◌, inl, inr, [], ◌++◌, some, Bytes, length, arith,
  lt→ltb, lt→leb, le→leb, le→ltb, Bytes-cases, append-nil,
}
use native.Mathlib.Decide.{dec_le}
use linkedon_push.Errors.{error_success, error_reader_buffer_overflow}
use linkedon_push.Socket.{StIo, StSocket}
use linkedon_push.Socket.Stream.{IsStream, IsLive}
use linkedon_push.FastBuffer.{FastBuffer, unread, Grown, grow}
use linkedon_push.FastBuffer.Inv.{IsValid, length-unread, compact_lem}
use linkedon_push.FastBuffer.Fill.{Stalled, Extends, fill_lem}

module _ (rt : StIo) (pending : rt.State → Bytes) (stream : IsStream rt pending) where
  compacted :
      (required : ℕ) {fb : FastBuffer} (skt : StSocket rt.State) (v : IsValid fb)
      → required + required ≤ fb.nb_buffer
      → fb.end - fb.p < required
      → fb.nb_buffer - fb.end < required
      → (g : Grown rt) × (grow rt required fb skt ≡ some g)
        × Extends rt pending stream fb skt required g
  unfolding grow
  compacted required {fb} skt v small short full =
      let (fb', made, v', same, cap, at_end, at_start) = compact_lem v (omega arith) in
      let (g, e, x) =
        fill_lem rt pending stream required required {fb = fb'} skt v' (omega arith)
          (omega arith) in
      (
        g,
        rw
            (
              lt→leb _ _ short,
              lt→ltb 0 required (omega arith),
              lt→leb _ _ full,
              made,
              le→ltb (fb'.nb_buffer - fb'.end) required (omega arith),
            )
            e,
        record {
          valid = x.valid;
          capacity = x.capacity ∙ cap;
          conserved = x.conserved ∙ ap (λ t. t ++ pending skt.io) same;
          outcome = x.outcome;
        },
      )

  -- For a request of at most half the block of a well-formed buffer, `grow` returns: the unread
  -- bytes followed by the pending ones are the same bytes as before, the buffer stays well formed,
  -- and either the request is met with success, or `grow` fails on a read that brought nothing.
  pub grow_lem :
      (required : ℕ) {fb : FastBuffer} (skt : StSocket rt.State)
      → IsValid fb
      → required + required ≤ fb.nb_buffer
      → (g : Grown rt) × (grow rt required fb skt ≡ some g)
        × Extends rt pending stream fb skt required g
  unfolding grow
  grow_lem required {fb} skt v small = elim (dec_le required (fb.end - fb.p)) [
    | yes enough ↦ (
      (error_success, fb, skt),
      rw (le→leb _ _ enough),
      record { valid = v; capacity = refl; conserved = refl; outcome = inl (refl, enough) },
    )
    | no short ↦ elim (dec_le required (fb.nb_buffer - fb.end)) [
      | no full ↦ compacted required skt v small (omega arith) (omega arith)
      | yes room ↦
          let (g, e, x) =
            fill_lem rt pending stream required required skt v (omega arith) (omega arith) in
          (
            g,
            rw
                (
                  lt→leb required (fb.end - fb.p) (omega arith),
                  lt→ltb 0 required (omega arith),
                  le→leb _ _ room,
                )
                e,
            x,
          )
    ]
  ]

  Stalled-empty :
      {skt : StSocket rt.State}
      → IsLive rt pending
      → Stalled rt pending stream skt
      → pending skt.io ≡ []
  Stalled-empty {skt} live st = elim (Bytes-cases (pending skt.io)) [
    | inl e ↦ e
    | inr ne ↦
        absurd
          (live st.asked st.timeout st.before st.positive (λ e. ne (sym st.same ∙ e)) st.nothing)
  ]

  -- On a live stream with enough bytes under way, `grow` succeeds on a request of at most half the
  -- block of a well-formed buffer: as many bytes as asked for are unread, none is lost, and the
  -- buffer stays well formed.
  pub grow_live :
      (required : ℕ) {fb : FastBuffer} (skt : StSocket rt.State)
      → IsLive rt pending
      → IsValid fb
      → required + required ≤ fb.nb_buffer
      → required ≤ length (unread fb ++ pending skt.io)
      → (g : Grown rt) × (grow rt required fb skt ≡ some g)
        × (g.0 ≡ error_success)
        × IsValid g.1
        × (g.1.nb_buffer ≡ fb.nb_buffer)
        × (unread g.1 ++ pending g.2.io ≡ unread fb ++ pending skt.io)
        × (required ≤ length (unread g.1))
  grow_live required {fb} skt live v small there =
      let (g, e, x) = grow_lem required skt v small in
      elim x.outcome [
        | inl (ok, enough) ↦
            (g, e, ok, x.valid, x.capacity, x.conserved, omega (arith, length-unread x.valid))
        | inr (bad, short, st) ↦
            let empty : pending g.2.io ≡ [] = Stalled-empty live st in
            let all : unread g.1 ≡ unread fb ++ pending skt.io =
              sym (append-nil (unread g.1)) ∙ rw empty at x.conserved in
            absurd (omega (arith, ap length all, length-unread x.valid))
      ]

  -- On a well-formed buffer, a request that is not met yet and does not fit beside the unread
  -- bytes is refused with ERROR_READER_BUFFER_OVERFLOW before anything is read, and no unread byte
  -- is lost.
  pub grow_overflow :
      (required : ℕ) {fb : FastBuffer} (skt : StSocket rt.State)
      → IsValid fb
      → fb.end - fb.p < required
      → fb.end - fb.p < fb.nb_buffer
      → fb.nb_buffer - (fb.end - fb.p) < required
      → (fb' : FastBuffer) × (grow rt required fb skt
          ≡ some (error_reader_buffer_overflow, fb', skt))
        × IsValid fb'
        × (unread fb' ≡ unread fb)
  unfolding grow
  grow_overflow required {fb} skt v short part over =
      let (fb', made, v', same, cap, at_end, at_start) = compact_lem v part in
      (
        fb',
        rw (
          lt→leb _ _ short,
          lt→ltb 0 required (omega arith),
          lt→leb required (fb.nb_buffer - fb.end) (omega arith),
          made,
          lt→ltb (fb'.nb_buffer - fb'.end) required (omega arith),
        ),
        v',
        same,
      )
