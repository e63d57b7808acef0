-- ===== src/Protocol/Authorised.antt =====
-- What a client must present for `LPushProtocol::handshake` to succeed.
use linkedon_push.Common.{
  starts_with-le, starts_with_eq, ℕ, ◌%◌, ◌^◌, ◌≤◌, ◌<◌, ◌≡◌, refl, ◌↔◌, sym, ap, ◌∙◌, inl, inr,
  true, false, [], ◌∷◌, ◌++◌, some, ◌==◌, Bytes, length, contains, arith, All, Option-cases,
  Bool-cases, contains_of_starts, starts_with-append, append-nil, StringMap, bytes_key,
}
use linkedon_push.Errors.{error_success, error_system_handshake, error_fmt}
use linkedon_push.Wire.{split_int, read_int-split_int}
use linkedon_push.Math.Laws.{is_interge_str_iff, IsDigit, length-md5_encoder}
use linkedon_push.Fmt.{is_type, fmt_json}
use linkedon_push.Fmt.RoundTrip.{copy_block_lem}
use linkedon_push.Fmt.Json.{Parsed, refused, decode_json}
use linkedon_push.Protocol.{Chunk, Data, null, block, uninit}
use linkedon_push.Protocol.Handshake.{
  HandshakeMessage, set_params, tomap, check, signature, handshake, handshake_data,
  handshake_params,
}

-- A handshake message survives the map that `do_cycle` makes of it for its own copy.
pub set_params-tomap : (m : HandshakeMessage) → set_params (tomap m) ≡ m
unfolding set_params tomap
set_params-tomap m = refl

contains-le : (xs ys : Bytes) → contains xs ys ≡ true → length xs ≤ length ys
contains-le xs [] h = starts_with-le xs [] h
contains-le xs (y ∷ ys) h = ground (arith, starts_with-le xs (y ∷ ys), contains-le xs ys)

-- A text that contains another of its own length is that text.
contains_eq : (xs ys : Bytes) → contains xs ys ≡ true → length xs ≡ length ys → xs ≡ ys
contains_eq xs [] h e = starts_with_eq xs [] h e
contains_eq xs (y ∷ ys) h e = ground (arith, starts_with_eq xs (y ∷ ys), contains-le xs ys)

contains_self : (xs : Bytes) → contains xs xs ≡ true
contains_self xs = contains_of_starts xs xs (rw append-nil at (starts_with-append xs []))

module _ (md5 : Bytes → Bytes) where
  -- `check` accepts exactly the messages whose user id is a string of digits and whose digest is
  -- that of user id, app id and secret key together.
  pub check_iff :
      (m : HandshakeMessage)
      → (check md5 m ≡ true) ↔ (All IsDigit m.user_id × (m.md5_data ≡ signature md5 m))
  unfolding check
  check_iff m = (
    λ h. (
      (is_interge_str_iff m.user_id).0 (ground arith),
      sym (contains_eq (signature md5 m) m.md5_data (ground arith) (ground arith)),
    ),
    λ h. rw ((is_interge_str_iff m.user_id).1 h.0, h.1, contains_self) (ground arith),
  )

  module _ (parse : Bytes → Parsed) where
    decode_refused :
        (text more : Bytes)
        → length text < 2 ^ 31
        → parse text ≡ refused
        → decode_json parse (6 ∷ (split_int (length text) ++ (text ++ more))) []
          ≡ some (error_fmt, [])
    unfolding decode_json
    decode_refused text more small bad = rw (
      read_int-split_int (length text) (text ++ more) (omega arith),
      copy_block_lem text more small,
      bad,
    )

    handshake_params_sound :
        (n : ℕ) (old m : HandshakeMessage) (decoded : ℕ × StringMap)
        → handshake_params md5 parse n old decoded ≡ (error_success, m)
        → (check md5 m ≡ true) × (decoded.0 ≡ n) × (m ≡ set_params decoded.1)
    unfolding handshake_params
    handshake_params_sound n old m (len, parms) e = ground arith

    handshake_data_sound :
        (n : ℕ) (old m : HandshakeMessage) (d : Data)
        → handshake_data md5 parse n old d ≡ some (error_success, m)
        → (bs : Bytes) × (parms : StringMap) × (d ≡ block bs)
          × (decode_json parse bs [] ≡ some (n, parms))
          × (m ≡ set_params parms)
          × (check md5 m ≡ true)
    unfolding handshake_data
    handshake_data_sound n old m null e = cc
    handshake_data_sound n old m uninit e = cc
    handshake_data_sound n old m (block bs) e = elim (Option-cases (is_type bs)) [
      | inl f ↦ cc (rw f at e)
      | inr (t, f) ↦ elim (Bool-cases (t == fmt_json)) [
        | inl is_json ↦ elim (Option-cases (decode_json parse bs [])) [
          | inl g ↦ cc (rw (f, is_json, g) at e)
          | inr (decoded, g) ↦
              let (ok, whole, m_eq) =
                handshake_params_sound n old m decoded (cc (rw (f, is_json, g) at e)) in
              (bs, decoded.1, refl, g ∙ ap (λ k. some (k, decoded.1)) whole, m_eq, ok)
        ]
        | inr other ↦ cc (rw (f, other) at e)
      ]
    ]

    -- A handshake succeeds only on a packet of handshake type whose JSON text gives, over the whole
    -- announced length, a message with a user id of digits and the right digest.
    pub handshake_sound :
        (c : Chunk) (old m : HandshakeMessage)
        → handshake md5 parse c old ≡ some (error_success, m)
        → (c.header.data_type % 16 ≡ 1)
          × All IsDigit m.user_id
          × (m.md5_data ≡ signature md5 m)
          × ((bs : Bytes) × (parms : StringMap) × (c.body ≡ block bs)
              × (decode_json parse bs [] ≡ some (c.header.datalenght, parms))
              × (m ≡ set_params parms))
    unfolding handshake
    handshake_sound c old m e = elim (Bool-cases (c.header.data_type % 16 == 1)) [
      | inl typed ↦
          let (bs, parms, is_block, decoded, m_eq, ok) =
            handshake_data_sound c.header.datalenght old m c.body (rw typed at e) in
          let (digits, digest) = (check_iff m).0 ok in
          (ground arith, digits, digest, (bs, parms, is_block, decoded, m_eq))
      | inr other ↦ cc (rw other at e)
    ]

    -- The empty map is no accepted handshake: its digest would have to be empty.
    params_nil :
        (n : ℕ) (old : HandshakeMessage) (code : ℕ)
        → ((s : Bytes) → length (md5 s) ≡ 16)
        → (m : HandshakeMessage) × (handshake_params md5 parse n old (code, [])
            ≡ (error_system_handshake, m))
    unfolding handshake_params set_params
    params_nil n old code h = elim (Bool-cases (code == n)) [
      | inr other ↦ (old, rw other)
      | inl same ↦ (set_params [], rw (same, nil_refused))
    ]
      where
        nil_refused : check md5 (set_params []) ≡ false
        nil_refused = elim (Bool-cases (check md5 (set_params []))) [
          | inr no_check ↦ no_check
          | inl ok ↦ absurd (
              omega (
                arith,
                ap length ((check_iff (set_params [])).0 ok).1,
                length-md5_encoder md5 [] h,
              ))
        ]

    -- A handshake whose text, shorter than 2 ^ 31 bytes, is no JSON is refused. `decodeJson` then
    -- returns ERROR_FMT, which is 201, in place of a length, so a packet of 201 bytes passes the
    -- length test; the digest test, with digests of 16 bytes, stops it.
    pub handshake_refused :
        (time t : ℕ) (text more : Bytes) (n : ℕ) (old : HandshakeMessage)
        → ((s : Bytes) → length (md5 s) ≡ 16)
        → t % 16 ≡ 1
        → length text < 2 ^ 31
        → parse text ≡ refused
        → (m : HandshakeMessage) × (handshake md5 parse
              (record {
                header = record { timestamp = time; data_type = t; datalenght = n };
                body = block (6 ∷ (split_int (length text) ++ (text ++ more)));
              })
              old
            ≡ some (error_system_handshake, m))
    unfolding handshake handshake_data is_type
    handshake_refused time t text more n old h ht small bad =
        let (m, e) = params_nil n old error_fmt h in
        (m, rw (ht, decode_refused text more small bad) (ap some e))
