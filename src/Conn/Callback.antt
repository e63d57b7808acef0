-- ===== src/Conn/Callback.antt =====
-- The push callback of `LPushConn::recvPushCallback`: what a client that answers a push makes the
-- server enter into the store.
use linkedon_push.Common.{
  ◌≡◌, ◌≢◌, ◌<◌, ◌^◌, refl, false, ◌==◌, [], ◌∷◌, ◌++◌, some, Bytes, length, drop-append_left, All,
  arith, is_nil, Bool, ltb, ◌&&◌, if◌then◌else◌, none, Bool-cases, inl, inr,
}
use linkedon_push.Errors.{error_success}
use linkedon_push.Heap.{Allocator}
use linkedon_push.Fmt.RoundTrip.{string_value, decode_string-string_value}
use linkedon_push.Protocol.{Header, block}
use linkedon_push.Conn.{Env, Session, log, redis_lpush}
use linkedon_push.Conn.Forward.{callback_ids, callback_data, recv_push_callback}

-- A text that a string value can carry and that a callback may name.
pub record IsId (s : Bytes) : Type 0 where
  pub no_nul : All (λ b. b ≢ 0) s
  pub some_text : s ≢ []
  pub fits : length s < 2 ^ 31

-- The block that malloc gives for a text has room for one byte more.
abbrev pub has_room : Allocator → Bytes → Bool
has_room heap s = ltb (length s) (heap.usable (length s))

not_nil : (s : Bytes) → s ≢ [] → is_nil s ≡ false
not_nil [] h = absurd (h refl)
not_nil (x ∷ s) h = refl

counted : (s : Bytes) → (length (string_value s) == 0) ≡ false
counted s = ground arith

-- A callback that carries the two texts of a task and a message, neither empty, both without NUL and shorter than
-- 2 ^ 31 bytes. If the allocator happens to leave a byte behind each of their blocks, it makes one
-- entry: the task, in the list of that message's results; whatever follows the two values is
-- ignored, and nothing else changes. If it does not, the decoder writes its NUL outside a block.
pub recv_push_callback_lem :
    {S : Type 0} (env : Env) (heap : Allocator) (h : Header) (task msg rest : Bytes) (s : Session S)
    → IsId task
    → IsId msg
    → recv_push_callback env heap
        (record { header = h; body = block (string_value task ++ (string_value msg ++ rest)) })
        s
      ≡ (if has_room heap task && has_room heap msg
          then some (error_success, log (redis_lpush (env.result_list ++ msg) task ∷ []) s)
          else none)
unfolding recv_push_callback callback_data callback_ids
recv_push_callback_lem env heap h task msg rest s t m =
    let first =
      decode_string-string_value heap task (string_value msg ++ rest) [] t.no_nul t.fits in
    let moved =
      drop-append_left (length (string_value task)) (string_value task) (string_value msg ++ rest)
        refl in
    let second = decode_string-string_value heap msg rest [] m.no_nul m.fits in
    elim (Bool-cases (has_room heap task)) [
      | inr full ↦ rw (first, full) refl
      | inl room ↦ elim (Bool-cases (has_room heap msg)) [
        | inr full ↦ rw (first, room, counted task, moved, second, full) refl
        | inl room' ↦
            rw
              (
                first,
                room,
                counted task,
                moved,
                second,
                room',
                counted msg,
                not_nil task t.some_text,
                not_nil msg m.some_text,
              )
              refl
      ]
    ]
