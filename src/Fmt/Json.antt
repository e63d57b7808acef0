-- ===== src/Fmt/Json.antt =====
-- `encodeJson` and `decodeJson`. The JSON library (jsoncpp) is not part of the repository: its
-- parser and its printer are arguments.
use linkedon_push.Common.{
  ℕ, ◌+◌, ◌%◌, ◌^◌, ◌<◌, ◌≡◌, [], ◌∷◌, ◌++◌, Option, none, some, ◌==◌, if◌then◌else◌, Bytes, length,
  arith, c_str, StringMap, bytes_key, insert_new, ltb,
}
use linkedon_push.Errors.{error_fmt}
use linkedon_push.Wire.{split_int, read_int}
use linkedon_push.Fmt.{copy_block, fmt_json}

-- What `Json::Reader::parse`, `getMemberNames` and `asString` do with a text: it is no JSON text,
-- they throw (no object, or a member that is no scalar), or they give the members as strings.
pub data Parsed : Type 0 where
  refused : Parsed
  thrown : Parsed
  members : StringMap → Parsed

-- `ret.insert(std::make_pair(key, value))` for each member.
unfoldable pub insert_all : StringMap → StringMap → StringMap
insert_all [] ret = ret
insert_all ((k, v) ∷ ms) ret = insert_all ms (insert_new k v ret)

module _ (parse : Bytes → Parsed) where
  unfoldable pub finish_json : ℕ → Parsed → StringMap → Option (ℕ × StringMap)
  finish_json len refused ret = some (error_fmt, ret)
  finish_json len thrown ret = none
  finish_json len (members ms) ret = some (5 + len, insert_all ms ret)

  -- The first component is the `int` that the function returns: a count, or `ERROR_FMT`.
  unfoldable pub decode_json : Bytes → StringMap → Option (ℕ × StringMap)
  unfolding finish_json
  decode_json [] ret = none
  decode_json (t ∷ rest) ret =
      if t % 16 == fmt_json
      then elim (read_int rest) [
        | none ↦ none
        | some (len, body) ↦ elim (copy_block body len) [
          | none ↦ none
          | some text ↦ finish_json len (parse text) ret
        ]
      ]
      else some (1, ret)

-- `ret.append(buf)` reads `buf` as a C string: past the five bytes of the header if none of them is 0.
unfoldable pub append_c_str : Bytes → Bytes → Option Bytes
append_c_str buf styled =
    if ltb (length (c_str buf)) (length buf) then some (c_str buf ++ styled) else none

-- `styled` is what `toStyledString` prints for the map.
unfoldable pub encode_json : (StringMap → Bytes) → StringMap → Option Bytes
unfolding append_c_str
encode_json to_styled_string src =
    let styled = to_styled_string src in
    append_c_str (6 ∷ split_int (length styled % 2 ^ 32)) styled

-- For every text shorter than 2 ^ 24 bytes the four length bytes never reach the packet: their first
-- byte is 0 and ends the C string. What goes out is the type byte and the text.
pub encode_json_short :
    (to_styled_string : StringMap → Bytes) (src : StringMap)
    → length (to_styled_string src) < 2 ^ 24
    → encode_json to_styled_string src ≡ some (6 ∷ to_styled_string src)
unfolding encode_json split_int
encode_json_short to_styled_string src h = ground arith
