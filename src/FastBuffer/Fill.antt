-- ===== src/FastBuffer/Fill.antt =====
-- The loop of `LPushFastBuffer::grow`: a read of the socket, then a round, then all of them.
use linkedon_push.Common.{
  ℕ, zero, suc, ◌+◌, ◌-◌, ◌≤◌, ◌<◌, ◌≡◌, refl, sym, ap, ◌∙◌, ◌⊎◌, inl, inr, true, false, [], ◌∷◌,
  ◌++◌, some, Bytes, length, arith, ◌==◌, lt→ltb, lt→leb, le→leb, append_assoc,
}
use native.Mathlib.Decide.{dec_le}
use linkedon_push.Errors.{error_success}
use linkedon_push.Socket.{StIo, StSocket, StRead, got, read_failed, finish_read}
use linkedon_push.Socket
use linkedon_push.Socket.Stream.{IsStream, arrived}
use linkedon_push.FastBuffer.{FastBuffer, unread, Grown, fill}
use linkedon_push.FastBuffer.Inv.{IsValid, extended, extended-IsValid, unread-extended}

-- What `LPushStSocket::read` returns: success exactly with a positive count.
pub finish_read_lem :
    {S : Type 0} (skt : StSocket S) (r : StRead) (s : S)
    → let (ret, bytes, skt') = finish_read skt (r, s) in
      (bytes ≡ arrived r)
      × (skt'.io ≡ s)
      × ((ret ≡ error_success) × (0 < length bytes) ⊎ (0 < ret) × (bytes ≡ []))
unfolding finish_read
finish_read_lem skt (got []) s = (refl, refl, inr (omega arith, refl))
finish_read_lem skt (got (b ∷ bs)) s = (refl, refl, inl (refl, omega arith))
finish_read_lem skt (read_failed true) s = (refl, refl, inr (omega arith, refl))
finish_read_lem skt (read_failed false) s = (refl, refl, inr (omega arith, refl))

module _ (rt : StIo) (pending : rt.State → Bytes) (stream : IsStream rt pending) where
  -- One call of the socket's `read`.
  pub read_lem :
      (n : ℕ) (skt : StSocket rt.State)
      → let (ret, bytes, skt') = Socket.read rt n skt in
        (length bytes ≤ n)
        × (bytes ++ pending skt'.io ≡ pending skt.io)
        × ((ret ≡ error_success) × (0 < length bytes) ⊎ (0 < ret) × (bytes ≡ []))
  unfolding Socket.read
  read_lem n skt =
      let (eb, es, c) =
        finish_read_lem skt (rt.st_read n skt.recv_timeout skt.io).0
          (rt.st_read n skt.recv_timeout skt.io).1 in
      (
        rw eb (stream.read_fits n skt.recv_timeout skt.io),
        rw (eb, es) (stream.read_next n skt.recv_timeout skt.io),
        c,
      )

  -- A read of the socket that brought nothing, and left the stream as `skt` has it now.
  pub record Stalled (skt : StSocket rt.State) : Type 0 where
    pub asked : ℕ
    pub timeout : ℕ
    pub before : rt.State
    pub positive : 0 < asked
    pub nothing : arrived (rt.st_read asked timeout before).0 ≡ []
    pub same : pending before ≡ pending skt.io

  -- What a run of the loop or of `grow` leaves.
  pub record Extends (fb : FastBuffer) (skt : StSocket rt.State) (required : ℕ) (g : Grown rt)
      : Type 0 where
    pub valid : IsValid g.1
    pub capacity : g.1.nb_buffer ≡ fb.nb_buffer
    -- Received and pending bytes together stay the same, in the same order.
    pub conserved : unread g.1 ++ pending g.2.io ≡ unread fb ++ pending skt.io
    -- It ends with enough bytes, or on a read that brought nothing.
    pub outcome :
        (g.0 ≡ error_success) × (required ≤ g.1.end - g.1.p)
        ⊎ (0 < g.0) × (g.1.end - g.1.p < required) × Stalled g.2

  Stalled-after :
      (n : ℕ) (skt : StSocket rt.State)
      → 0 < n
      → (Socket.read rt n skt).1 ≡ []
      → Stalled (Socket.read rt n skt).2
  Stalled-after n skt h e = record {
    asked = n;
    timeout = skt.recv_timeout;
    before = skt.io;
    positive = h;
    nothing =
        unfold Socket.read in
        sym
          (finish_read_lem skt (rt.st_read n skt.recv_timeout skt.io).0
            (rt.st_read n skt.recv_timeout skt.io).1).0
        ∙ e;
    same = sym (rw e at (read_lem n skt).1);
  }

  abbrev pub Fills : ℕ → ℕ → FastBuffer → StSocket rt.State → Type 0
  Fills fuel required fb skt =
      (g : Grown rt) × (fill rt fuel required (fb.nb_buffer - fb.end) fb skt ≡ some g)
      × Extends fb skt required g

  -- A round that takes bytes, given what the later rounds do.
  fill_more :
      (fuel required : ℕ) {fb : FastBuffer} (skt : StSocket rt.State) (v : IsValid fb)
      → fb.end - fb.p < required
      → (Socket.read rt (fb.nb_buffer - fb.end) skt).0 ≡ error_success
      → 0 < length (Socket.read rt (fb.nb_buffer - fb.end) skt).1
      → (fits : fb.end + length (Socket.read rt (fb.nb_buffer - fb.end) skt).1 ≤ fb.nb_buffer)
      → Fills fuel required
          (extended (Socket.read rt (fb.nb_buffer - fb.end) skt).1 v fits)
          (Socket.read rt (fb.nb_buffer - fb.end) skt).2
      → Fills (suc fuel) required fb skt
  unfolding fill
  fill_more fuel required {fb} skt v short ok some_bytes fits (g, e, x) = (
    g,
    rw (lt→leb _ _ short, ok, lt→ltb _ _ some_bytes)
        (ap (λ free. fill rt fuel required free (extended c v fits) skt')
            {x = fb.nb_buffer - fb.end - length c} {y = fb.nb_buffer - (fb.end + length c)}
            (omega arith)
          ∙ e),
    record {
      valid = x.valid;
      capacity = x.capacity;
      conserved =
          x.conserved
          ∙ ap (λ t. t ++ pending skt'.io) (unread-extended c v fits)
          ∙ append_assoc (unread fb) c (pending skt'.io)
          ∙ ap (λ t. unread fb ++ t) (read_lem (fb.nb_buffer - fb.end) skt).1;
      outcome = x.outcome;
    },
  )
    where
      c : Bytes
      c = (Socket.read rt (fb.nb_buffer - fb.end) skt).1

      skt' : StSocket rt.State
      skt' = (Socket.read rt (fb.nb_buffer - fb.end) skt).2

  -- A round whose read fails.
  fill_stop :
      (fuel required : ℕ) {fb : FastBuffer} (skt : StSocket rt.State) (v : IsValid fb)
      → fb.end - fb.p < required
      → required ≤ fb.end - fb.p + (fb.nb_buffer - fb.end)
      → 0 < (Socket.read rt (fb.nb_buffer - fb.end) skt).0
      → (Socket.read rt (fb.nb_buffer - fb.end) skt).1 ≡ []
      → Fills (suc fuel) required fb skt
  unfolding fill
  fill_stop fuel required {fb} skt v short room bad none_read = (
    (ret, fb, skt'),
    rw (lt→leb _ _ short, not_success) refl,
    record {
      valid = v;
      capacity = refl;
      conserved =
          ap (λ t. unread fb ++ t) (rw none_read at (read_lem (fb.nb_buffer - fb.end) skt).1);
      outcome = inr (bad, short, Stalled-after (fb.nb_buffer - fb.end) skt (omega arith) none_read);
    },
  )
    where
      ret : ℕ
      ret = (Socket.read rt (fb.nb_buffer - fb.end) skt).0

      skt' : StSocket rt.State
      skt' = (Socket.read rt (fb.nb_buffer - fb.end) skt).2

      not_success : (ret == error_success) ≡ false
      not_success = ground arith

  fill_enough :
      (fuel required : ℕ) {fb : FastBuffer} (skt : StSocket rt.State) (v : IsValid fb)
      → required ≤ fb.end - fb.p
      → Fills (suc fuel) required fb skt
  unfolding fill
  fill_enough fuel required {fb} skt v h = (
    (error_success, fb, skt),
    rw (le→leb _ _ h),
    record { valid = v; capacity = refl; conserved = refl; outcome = inl (refl, h) },
  )

  -- As many rounds as bytes are missing, and one more, are enough for the loop to end.
  pub fill_lem :
      (fuel required : ℕ) {fb : FastBuffer} (skt : StSocket rt.State)
      → IsValid fb
      → required ≤ fb.end - fb.p + (fb.nb_buffer - fb.end)
      → required ≤ fuel + (fb.end - fb.p)
      → Fills (suc fuel) required fb skt
  fill_lem zero required {fb} skt v room h = fill_enough zero required skt v (omega arith)
  fill_lem (suc fuel) required {fb} skt v room h = elim (dec_le required (fb.end - fb.p)) [
    | yes enough ↦ fill_enough (suc fuel) required skt v enough
    | no short ↦ elim (read_lem (fb.nb_buffer - fb.end) skt).2 [
      | inr (bad, nothing) ↦ fill_stop (suc fuel) required skt v (omega arith) room bad nothing
      | inl (ok, some_bytes) ↦
          let fits : fb.end + length (Socket.read rt (fb.nb_buffer - fb.end) skt).1 ≤ fb.nb_buffer =
            omega (arith, (read_lem (fb.nb_buffer - fb.end) skt).0) in
          fill_more (suc fuel) required skt v (omega arith) ok some_bytes fits
            (fill_lem fuel required _ (extended-IsValid _ v fits) (omega arith) (omega arith))
    ]
  ]
