-- ===== src/Protocol/Handshake.antt =====
-- The messages of src/protocol/lpushProtocolStack.cpp: the handshake with its check, the request for a
-- connection, the heartbeat. OpenSSL's `MD5` and the JSON parser are the arguments `md5` and `parse`.
use linkedon_push.Common.{
  ℕ, ◌%◌, Bool, true, false, not, [], ◌∷◌, ◌++◌, Option, none, some, ◌==◌, if◌then◌else◌, Bytes,
  length, contains, codes, StringMap, bytes_key, value_of, insert_new, ◌>>=◌, c_str,
}
use linkedon_push.Errors.{error_success, error_system_handshake}
use linkedon_push.Math.{md5_encoder, is_interge_str}
use linkedon_push.Heap.{Allocator, fill_block}
use linkedon_push.Fmt.{is_type, fmt_json}
use linkedon_push.Fmt.Json.{Parsed, decode_json}
use linkedon_push.Protocol.{Chunk, Data, null, block, uninit, is_positive, copy_of}

pub record HandshakeMessage : Type 0 where
  pub app_id : Bytes
  pub screte_key : Bytes
  pub user_id : Bytes
  pub client_flag : Bytes
  pub identity : Bytes
  pub devices : Bytes
  pub md5_data : Bytes

abbrev pub empty_message : HandshakeMessage
empty_message = record {
  app_id = [];
  screte_key = [];
  user_id = [];
  client_flag = [];
  identity = [];
  devices = [];
  md5_data = [];
}

-- `setParams`, and the constructor with a map: every field is set.
unfoldable pub set_params : StringMap → HandshakeMessage
set_params parms = record {
  app_id = value_of parms (codes "appId");
  screte_key = value_of parms (codes "screteKey");
  user_id = value_of parms (codes "userId");
  client_flag = value_of parms (codes "clientFlag");
  identity = value_of parms (codes "identity");
  devices = value_of parms (codes "devices");
  md5_data = value_of parms (codes "md5Data");
}

unfoldable pub tomap : HandshakeMessage → StringMap
tomap m = insert_new (codes "devices") m.devices (
    insert_new (codes "identity") m.identity (
      insert_new (codes "md5Data") m.md5_data (
        insert_new (codes "clientFlag") m.client_flag (
          insert_new (codes "userId") m.user_id (
            insert_new (codes "screteKey") m.screte_key
              (insert_new (codes "appId") m.app_id []))))))

unfoldable pub to_mongomap : HandshakeMessage → StringMap
to_mongomap m = insert_new (codes "status") (codes "1") (
    insert_new (codes "devices") m.devices (
      insert_new (codes "identity") m.identity
        (insert_new (codes "userId") m.user_id (insert_new (codes "appKey") m.app_id []))))

module _ (md5 : Bytes → Bytes) where
  abbrev pub signature : HandshakeMessage → Bytes
  signature m = md5_encoder md5 (m.user_id ++ (m.app_id ++ m.screte_key))

  -- `find(md5Temple.c_str())`; a hexadecimal digest has no NUL.
  unfoldable pub check : HandshakeMessage → Bool
  check m =
      if not (is_interge_str m.user_id)
      then false
      else if not (length m.md5_data == length (signature m))
      then false
      else if not (contains (signature m) m.md5_data)
      then false
      else true

  module _ (parse : Bytes → Parsed) where
    unfoldable pub handshake_params : ℕ → HandshakeMessage → ℕ × StringMap → ℕ × HandshakeMessage
    handshake_params datalenght old (len, parms) =
        if not (len == datalenght)
        then (error_system_handshake, old)
        else if not (check (set_params parms))
        then (error_system_handshake, set_params parms)
        else (error_success, set_params parms)

    unfoldable pub handshake_data : ℕ → HandshakeMessage → Data → Option (ℕ × HandshakeMessage)
    handshake_data datalenght old null = none
    handshake_data datalenght old uninit = none
    handshake_data datalenght old (block bs) = do
      type ← is_type bs
      if not (type == fmt_json)
          then some (error_system_handshake, old)
          else do decoded ← decode_json parse bs []; some (handshake_params datalenght old decoded)

    -- `LPushProtocol::handshake`: the return code, and `msk` as the call leaves it.
    unfoldable pub handshake : Chunk → HandshakeMessage → Option (ℕ × HandshakeMessage)
    handshake message old =
        if not (message.header.data_type % 16 == 1)
        then some (error_system_handshake, old)
        else handshake_data message.header.datalenght old message.body

-- The body of `createConnection`: a block of `n` bytes is filled, the NUL goes to index `n + 1`,
-- and the string runs on over the byte between, which nothing has written.
unfoldable pub create_string : Allocator → ℕ → Data → Option Bytes
create_string heap n null = none
create_string heap n uninit = none
create_string heap n (block bs) = do
  copied ← copy_of bs n
  buf ← fill_block heap n (copied ++ (heap.residue n n ∷ 0 ∷ []))
  some (c_str buf)

-- `LPushProtocol::createConnection`; the second component is the message's string.
unfoldable pub create_connection : Allocator → Chunk → Bytes → Option (ℕ × Bytes)
create_connection heap message old =
    if not (message.header.data_type % 16 == 4)
    then some (error_system_handshake, old)
    else if is_positive message.header.datalenght
    then (create_string heap message.header.datalenght message.body >>= λ text.
        some (error_success, text))
    else some (error_success, old)

unfoldable pub recvhreatbeat : Chunk → ℕ
recvhreatbeat message =
    if not (message.header.data_type % 16 == 5) then error_system_handshake else error_success
