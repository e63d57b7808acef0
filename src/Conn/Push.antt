-- ===== src/Conn/Push.antt =====
-- `LPushConn::sendForward`: a worker's message on its way to the client, and the delivery of the next one
-- by `LPushClient::playing`.
use linkedon_push.Common.{
  ℕ, suc, ◌+◌, ◌%◌, ◌^◌, ◌<◌, ◌≡◌, ap, ◌∙◌, sym, [], ◌∷◌, ◌++◌, Option, some, ◌==◌, if◌then◌else◌,
  Bytes, length, arith, ◌>>=◌, append-nil, length-append, not, StringMap,
}
use linkedon_push.Errors.{error_success}
use linkedon_push.Wire.{split_int, length-split_int, read_int-split_int}
use linkedon_push.Socket.{StIo, StSocket}
use linkedon_push.Socket.Stream.{IsWriter, Sent}
use linkedon_push.Fmt.Json.{Parsed, members, decode_json, finish_json, insert_all}
use linkedon_push.Fmt.{copy_block}
use linkedon_push.Fmt.RoundTrip.{copy_block_lem}
use linkedon_push.Protocol.{Header, empty_chunk, set_data, block}
use linkedon_push.Protocol.Packet.{packet}
use linkedon_push.Protocol.Send.{send_packet, send_packet_lem}
use linkedon_push.Source.Message.{WorkerMessage, Members, to_json_string}
use linkedon_push.Source.Registry.{Client, pop}
use linkedon_push.Conn.{Env, Session}
use linkedon_push.Conn.Forward.{do_dispose}
use linkedon_push.Protocol.Receive.{set_data_any}

-- `buf`: the type of a JSON value, its length, its characters.
unfoldable pub json_value : Bytes → Bytes
json_value json = 6 ∷ (split_int (length json % 2 ^ 32) ++ json)

abbrev pub push_header : ℕ → Bytes → Header
push_header time json = record {
  timestamp = time;
  data_type = 8;
  datalenght = (length json + 5) % 2 ^ 32;
}

module _ (rt : StIo) (env : Env) where
  unfoldable pub send_forward :
      (Members → Bytes) → WorkerMessage → Session rt.State → Option (ℕ × Session rt.State)
  send_forward to_styled_string message s =
      let json = to_json_string to_styled_string message in
      set_data empty_chunk (push_header env.time json) (some (json_value json)) >>= λ lc.
      send_packet rt lc s.skt >>= λ reply. some (reply.0, record s { skt = reply.1 })

  -- `LPushClient::playing` with its source and connection at hand: the next message is taken from the
  -- queue and forwarded; if that fails the connection is disposed of.
  unfoldable pub playing :
      (Members → Bytes) → Client → Session rt.State → Option (ℕ × Session rt.State)
  playing to_styled_string client s = pop client.source s.registry >>= λ popped.
      send_forward to_styled_string popped.0 (record s { registry = popped.1 }) >>= λ reply.
      if not (reply.0 == error_success)
      then (do_dispose reply.1 >>= λ s'. some (reply.0, s'))
      else some (error_success, reply.1)

length-json_value : (json : Bytes) → length (json_value json) ≡ length json + 5
unfolding json_value
length-json_value json = omega (
  arith,
  length-append (split_int (length json % 2 ^ 32)) json,
  length-split_int (length json % 2 ^ 32),
)

copy_whole : (s : Bytes) → length s < 2 ^ 31 → copy_block s (length s) ≡ some s
copy_whole s small =
    ap (λ t. copy_block t (length s)) (sym (append-nil s)) ∙ copy_block_lem s [] small

-- For a text shorter than 2 ^ 31 bytes that the parser reads as members, `decodeJson` takes the
-- whole value that `sendForward` builds of it and gives these members, the first of each key.
pub decode_json_value :
    (parse : Bytes → Parsed) (json : Bytes) (ms : StringMap)
    → length json < 2 ^ 31
    → parse json ≡ members ms
    → decode_json parse (json_value json) [] ≡ some (length (json_value json), insert_all ms [])
unfolding decode_json json_value finish_json
decode_json_value parse json ms small read =
    let whole : length json % 4294967296 ≡ length json = omega arith in
    rw (whole, read_int-split_int (length json) json (omega arith), copy_whole json small, read)
      (ap (λ n. some (n, insert_all ms [])) {x = 5 + length json}
        {y = suc (length (split_int (length json) ++ json))}
        (omega
          (arith, length-append (split_int (length json)) json, length-split_int (length json))))

set_json :
    (json : Bytes) (time : ℕ)
    → length json < 2 ^ 30
    → set_data empty_chunk (push_header time json) (some (json_value json))
      ≡ some (record { header = push_header time json; body = block (json_value json) })
set_json json time small =
    ap (λ t. set_data empty_chunk (push_header time json) (some t))
      (sym (append-nil (json_value json)))
    ∙ set_data_any empty_chunk (push_header time json) (json_value json) []
        (omega (arith, length-json_value json)) (omega arith) (omega arith)

module _ (rt : StIo) (env : Env) (sent : rt.State → Bytes) (writer : IsWriter rt sent) where
  -- The runtime writing all or failing behind a first part: for a message whose JSON text is shorter than
  -- 2 ^ 30 bytes, `sendForward` returns and changes nothing but the socket; either it succeeds, and
  -- one packet of push type is on the stream, with the announced length, and as its body the JSON
  -- text, typed and measured; or it reports the timeout or the error of the socket, and no more
  -- than a first part of that packet is there.
  pub send_forward_lem :
      (to_styled_string : Members → Bytes) (m : WorkerMessage) (s : Session rt.State)
      → length (to_json_string to_styled_string m) < 2 ^ 30
      → let json = to_json_string to_styled_string m in
        (ret : ℕ) × (skt' : StSocket rt.State) × (send_forward rt env to_styled_string m s
          ≡ some (ret, record s { skt = skt' }))
        × Sent sent (packet (push_header env.time json) (json_value json)) s.skt.io ret skt'.io
  unfolding send_forward
  send_forward_lem to_styled_string m s small =
      let json = to_json_string to_styled_string m in
      let header = push_header env.time json in
      let measured : length (json_value json) ≡ header.datalenght =
        omega (arith, length-json_value json) in
      let (ret, skt', done, there) =
        send_packet_lem rt sent writer header (json_value json) [] s.skt measured (omega arith) in
      (ret, skt', rw (set_json json env.time small, rw append-nil at done), there)
