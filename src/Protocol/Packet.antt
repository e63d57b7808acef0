-- ===== src/Protocol/Packet.antt =====
-- The packet format that the comment of src/protocol/lpushProtocolStack.h draws, independent of the
-- code that writes and reads it: flag, timestamp, type, length, data.
use linkedon_push.Common.{◌≡◌, ◌≤◌, refl, ◌∷◌, ◌++◌, Bytes, length, IsByte}
use linkedon_push.Wire.{split_int, IsInt32}
use linkedon_push.Protocol.{Header, lpush_flag, handshake_data_max}

abbrev pub header_bytes : Header → Bytes
header_bytes h = lpush_flag ++ (split_int h.timestamp ++ (h.data_type ∷ split_int h.datalenght))

abbrev pub packet : Header → Bytes → Bytes
packet h body = header_bytes h ++ body

-- A header that the protocol allows, with the body that it announces.
pub record IsPacket (h : Header) (body : Bytes) : Type 0 where
  pub time_int : IsInt32 h.timestamp
  pub type_byte : IsByte h.data_type
  pub announced : length body ≡ h.datalenght
  pub some_data : 1 ≤ h.datalenght
  pub bounded : h.datalenght ≤ handshake_data_max

pub length-header_bytes : (h : Header) → length (header_bytes h) ≡ 14
unfolding split_int
length-header_bytes h = refl
