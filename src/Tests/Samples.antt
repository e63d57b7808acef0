-- ===== src/Tests/Samples.antt =====
-- Buffers, packets, registries and sessions that the examples share.
use linkedon_push.Common.{ℕ, ◌+◌, false, [], ◌∷◌, ◌++◌, none, Bytes, codes, arith, replicate}
use linkedon_push.Heap.{Allocator}
use linkedon_push.Wire.{split_int}
use linkedon_push.Socket.{StSocket}
use linkedon_push.Socket.Pipe.{Ends}
use linkedon_push.FastBuffer.{FastBuffer}
use linkedon_push.Fmt.Json.{Parsed, members}
use linkedon_push.Protocol.{Header, Chunk, block}
use linkedon_push.Protocol.Packet.{packet}
use linkedon_push.Protocol.Handshake.{HandshakeMessage, empty_message, tomap, signature}
use linkedon_push.Source.Registry.{Registry}
use linkedon_push.Conn.{Env, Session}

-- An allocator with a word to spare, and one without.
abbrev pub roomy : Allocator
roomy = record { usable = λ n. n + 8; residue = λ n i. 0; usable_ge = λ n. omega arith }

abbrev pub tight : Allocator
tight = record { usable = λ n. n; residue = λ n i. 0; usable_ge = λ n. omega arith }

-- A socket at which these bytes wait.
abbrev pub socket_of : Bytes → StSocket Ends
socket_of bs = record {
  io = record { incoming = bs; outgoing = [] };
  send_timeout = 0;
  recv_timeout = 0;
  recv_bytes = 0;
  send_bytes = 0;
}

abbrev pub buffer_of : ℕ → FastBuffer
buffer_of n = record { mem = replicate n 0; p = 0; end = 0; nb_buffer = n }

-- Eight bytes, of which three are received and one of these is consumed.
abbrev pub small : FastBuffer
small = record { mem = 9 ∷ 10 ∷ 11 ∷ 0 ∷ 0 ∷ 0 ∷ 0 ∷ 0 ∷ []; p = 1; end = 3; nb_buffer = 8 }

abbrev pub hello : Header
hello = record { timestamp = 7; data_type = 5; datalenght = 3 }

abbrev pub hello_body : Bytes
hello_body = 1 ∷ 2 ∷ 3 ∷ []

-- A digest function of 16 bytes.
abbrev pub zero_md5 : Bytes → Bytes
zero_md5 s = replicate 16 0

abbrev pub alice : HandshakeMessage
alice = record empty_message {
  app_id = codes "app";
  screte_key = codes "key";
  user_id = codes "12";
  md5_data = signature zero_md5 empty_message;
}

abbrev pub knows_alice : Bytes → Parsed
knows_alice text = members (tomap alice)

abbrev pub handshake_chunk : Chunk
handshake_chunk = record {
  header = record { timestamp = 7; data_type = 1; datalenght = 7 };
  body = block (6 ∷ (split_int 2 ++ codes "{}"));
}

abbrev pub env : Env
env = record {
  localhost = codes "h";
  port = 80;
  mongodb_db = codes "db";
  app_keys = codes "APPKEYS";
  result_list = codes "RESULT_";
  decimal = λ n. n ∷ [];
  redis_hget = λ k f. codes "secret key";
  member_exists = λ c q. false;
  time = 1000;
  utime = 1000000;
  this_conn = 4;
}

abbrev pub session : HandshakeMessage → Bytes → Registry → Session Ends
session m bs reg = record {
  before_data_time = 0;
  hreat_data_time = 0;
  now_data_time = 0;
  dispose = false;
  client_key = [];
  hostname = [];
  stfd = 3;
  handshake_msg = m;
  client = none;
  redis_app = none;
  redis_platform = none;
  mie = none;
  buffer = buffer_of 800;
  skt = socket_of bs;
  registry = reg;
  commands = [];
}

-- What alice sends to open a session.
abbrev pub opening : Bytes
opening =
    packet (record { timestamp = 7; data_type = 1; datalenght = 7 })
      (6 ∷ (split_int 2 ++ codes "{}"))
    ++ packet (record { timestamp = 8; data_type = 4; datalenght = 2 }) (1 ∷ 2 ∷ [])
