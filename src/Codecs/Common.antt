-- ===== src/Codecs/Common.antt =====
-- The constants of Codecs.ts, the platform's text codec, and the parts that all frames share:
-- `writeHeader`, `getPayloadLength`, `writePayload` and `readPayload`.
use rsocket.Prelude.{
  ℕ, ◌+◌, ◌*◌, ◌%◌, ◌^◌, Bool, List, Option, none, some, length, ltb, if◌then◌else◌,
}
use rsocket.Prelude.Number.{Number, pos, add, lt}
use rsocket.Prelude.Result.{Result, ok, ◌>>=◌}
use rsocket.Bytes.{Bytes, read_uint24, write_int32, write_uint16, write_uint24, copy, subarray}
use rsocket.Frames.Flags

-- `TextEncoder` and `TextDecoder`, which the JavaScript platform supplies.
pub record TextCodec : Type 0 where
  pub encode : List ℕ → Bytes
  pub decode : Bytes → List ℕ

abbrev pub frame_header_size : ℕ
frame_header_size = 6

abbrev pub uint24_size : ℕ
uint24_size = 3

-- `x != null ? x.byteLength : 0`
abbrev pub size : Option Bytes → ℕ
size none = 0
size (some b) = length b

-- `if (x != null) { offset = Bytes.copy(x, buffer, offset) }`
abbrev pub copy_present : Option Bytes → Bytes → ℕ → Result (Bytes × ℕ)
copy_present none buffer offset = ok (buffer, offset)
copy_present (some b) buffer offset = copy b buffer offset

-- `(type << 10) | (flags & FLAGS_MASK)`: the shifted type and the low 10 bits do not meet.
unfoldable pub write_header : ℕ → ℕ → Number → Bytes → Bytes × ℕ
write_header type flags stream_id buffer =
    let (b, o) = write_int32 buffer stream_id 0 in
    write_uint16 b (pos (type * 2 ^ 10 + flags % 2 ^ 10)) o

unfoldable pub get_payload_length : ℕ → Option Bytes → Option Bytes → ℕ
get_payload_length flags metadata body =
    size body + (if Flags.has_metadata flags then uint24_size + size metadata else 0)

-- The metadata part of `writePayload`.
unfoldable pub write_metadata : Bool → Option Bytes → Bytes → ℕ → Result (Bytes × ℕ)
write_metadata flagged none buffer offset =
    if flagged then ok (write_uint24 buffer (pos 0) offset) else ok (buffer, offset)
write_metadata flagged (some m) buffer offset =
    let (b, o) = write_uint24 buffer (pos (length m)) offset in
    if flagged then copy m b o else ok (buffer, offset)

unfoldable pub write_payload : ℕ → Option Bytes → Option Bytes → Bytes → ℕ → Result Bytes
unfolding write_metadata
write_payload flags metadata body buffer offset = do
  (b, o) ← write_metadata (Flags.has_metadata flags) metadata buffer offset
  (b', o') ← copy_present body b o
  ok b'

-- `readPayload`: the metadata and the data that it puts into the frame, where both are null.
unfoldable pub read_metadata : Bool → Bytes → Number → Option Bytes × Number
read_metadata flagged buffer offset =
    let n = read_uint24 buffer offset in
    let start = add offset (pos uint24_size) in
    if flagged
    then if ltb 0 n
      then (some (subarray buffer start (add start (pos n))), add start (pos n))
      else (none, start)
    else (none, offset)

-- `offset < buffer.length ? buffer.subarray(offset, buffer.length) : null`
abbrev pub rest_of : Bytes → Number → Option Bytes
rest_of buffer offset =
    if lt offset (pos (length buffer))
    then some (subarray buffer offset (pos (length buffer)))
    else none

unfoldable pub read_payload : ℕ → Bytes → Number → Option Bytes × Option Bytes
unfolding read_metadata
read_payload flags buffer offset =
    let (metadata, o) = read_metadata (Flags.has_metadata flags) buffer offset in
    (metadata, rest_of buffer o)
