-- ===== src/Fragmenter.antt =====
-- packages/rsocket-core/src/Fragmenter.ts: payloads that are cut into frames. The source writes its
-- code twice, in `fragment` and in `fragmentWithRequestN`; here both are `fragments`, whose `cost`
-- is the room that a request count takes. The loops are on fuel.
pub mod Receive
pub mod Loops
pub mod Metadata
pub mod First
pub mod Whole
pub mod Unfinished
pub mod Flagged
pub mod Every
pub mod Within
pub mod Request
pub mod Overrun
pub mod Tests
pub mod RoundTrip
use rsocket.Prelude.{
  ℕ, zero, suc, ◌+◌, bit_or, Bool, true, false, ◌&&◌, ◌||◌, Option, none, some, List, [], ◌∷◌,
  length, ltb, ◌==◌, if◌then◌else◌,
}
use rsocket.Prelude.Number.{Number, pos, add, sub, lt, eq, min_number}
use rsocket.Prelude.Generator.{Generator, yield, return, out_of_fuel, ◌>>=◌}
use rsocket.Bytes.{Bytes, subarray}
use rsocket.Frames.{
  Frame, PayloadFrame, RequestFrame, RequestManyFrame, payload, request_fnf, request_response,
  request_stream, request_channel,
}
use rsocket.Frames.Flags
use rsocket.Frames.FrameTypes
use rsocket.Reassembler.{Payload}

-- The enum `Lengths` of Frames.ts
abbrev pub metadata_length : ℕ
metadata_length = 3

abbrev pub request_length : ℕ
request_length = 3

abbrev pub byte_length : Option Bytes → ℕ
byte_length none = 0
byte_length (some b) = length b

abbrev pub metadata_room : Option Bytes → ℕ
metadata_room none = 0
metadata_room (some b) = length b + metadata_length

unfoldable pub is_fragmentable : Payload → ℕ → ℕ → Bool
is_fragmentable content fragment_size frame_type =
    let many =
      frame_type == FrameTypes.request_stream || frame_type == FrameTypes.request_channel in
    if fragment_size == 0
    then false
    else ltb fragment_size (
        byte_length content.body
        + metadata_room content.metadata
        + (if many then request_length else 0))

-- The types that `fragment` is called with, and those of `fragmentWithRequestN`.
pub data Kind : Type 0 where
  payload_kind : Kind
  fnf_kind : Kind
  response_kind : Kind

pub data ManyKind : Type 0 where
  stream_kind : ManyKind
  channel_kind : ManyKind

abbrev pub request_frame : Kind → Number → ℕ → Option Bytes → Option Bytes → Frame
request_frame payload_kind id flags body metadata =
    payload (record { flags = flags; body = body; metadata = metadata; stream_id = id })
request_frame fnf_kind id flags body metadata =
    request_fnf (record { flags = flags; body = body; metadata = metadata; stream_id = id })
request_frame response_kind id flags body metadata =
    request_response (record { flags = flags; body = body; metadata = metadata; stream_id = id })

abbrev pub request_many_frame : ManyKind → Number → Number → ℕ → Option Bytes → Option Bytes → Frame
request_many_frame stream_kind id n flags body metadata =
    request_stream
      (record { flags = flags; body = body; metadata = metadata; request_n = n; stream_id = id })
request_many_frame channel_kind id n flags body metadata =
    request_channel
      (record { flags = flags; body = body; metadata = metadata; request_n = n; stream_id = id })

-- `payload.data?.slice(start, end)`
abbrev pub slice_of : Option Bytes → Number → Number → Option Bytes
slice_of none start end = none
slice_of (some b) start end = some (subarray b start end)

abbrev pub or_empty : Option Bytes → Bytes
or_empty none = []
or_empty (some b) = b

abbrev pub metadata_flag : Option Bytes → ℕ
metadata_flag none = Flags.no_flags
metadata_flag (some b) = Flags.metadata

module _ (id : Number) (size : ℕ) (is_complete : Bool) where
  abbrev pub payload_frame : ℕ → Option Bytes → Option Bytes → Frame
  payload_frame flags body metadata =
      payload (record { flags = flags; body = body; metadata = metadata; stream_id = id })

  -- `while (metadataPosition < metadataLength)`; it returns `remaining` and `metadata`.
  unfoldable pub metadata_loop :
      ℕ → Bytes → ℕ → Number → Number → Option Bytes → Generator Frame (Number × Option Bytes)
  metadata_loop zero source data_length position remaining metadata = out_of_fuel
  metadata_loop (suc fuel) source data_length position remaining metadata =
      let n = pos (length source) in
      let room = sub remaining (pos metadata_length) in
      let next = min_number n (add position room) in
      let part = subarray source position next in
      let left = sub room (pos (length part)) in
      let sent = eq left (pos 0) || data_length == 0 in
      let last = eq next n && is_complete && data_length == 0 in
      let flags =
        bit_or (bit_or Flags.next Flags.metadata)
          (if last then Flags.complete else Flags.follows) in
      let rest =
        metadata_loop fuel source data_length next (if sent then pos size else left)
          (if sent then none else some part) in
      if lt position n
      then (if sent then yield (payload_frame flags none (some part)) rest else rest)
      else return (remaining, metadata)

  -- `while (dataPosition < dataLength)`
  unfoldable pub data_loop : ℕ → Bytes → Number → Number → Option Bytes → Generator Frame (Unit {0})
  data_loop zero source position remaining metadata = out_of_fuel
  data_loop (suc fuel) source position remaining metadata =
      let n = pos (length source) in
      let next = min_number n (add position remaining) in
      let part = subarray source position next in
      let end = if is_complete then Flags.complete else Flags.no_flags in
      let flags =
        if eq next n
        then bit_or (bit_or end Flags.next) (metadata_flag metadata)
        else bit_or (bit_or Flags.follows Flags.next) (metadata_flag metadata) in
      let rest = data_loop fuel source next (pos size) none in
      if lt position n then yield (payload_frame flags (some part) metadata) rest else return tt

  module _ (first : ℕ → Option Bytes → Option Bytes → Frame) (cost : ℕ) where
    -- The metadata of the first frame, in `if (firstFrame)`; it returns `firstFrame`,
    -- `metadataPosition`, `remaining` and `metadata`.
    unfoldable pub first_metadata : Bytes → Generator Frame (Bool × Number × Number × Option Bytes)
    first_metadata source =
        let room = sub (pos size) (pos (metadata_length + cost)) in
        let next = min_number (pos (length source)) (add (pos 0) room) in
        let part = subarray source (pos 0) next in
        let left = sub room (pos (length part)) in
        if eq left (pos 0)
        then yield (first (bit_or Flags.follows Flags.metadata) none (some part))
            (return (false, next, pos size, none))
        else return (true, next, left, some part)

    unfoldable pub metadata_part :
        Bool → Option Bytes → ℕ → Generator Frame (Bool × Number × Option Bytes)
    metadata_part request none data_length = return (request, pos size, none)
    metadata_part request (some []) data_length =
        return (request, sub (pos size) (pos metadata_length), some [])
    metadata_part request (some (x ∷ xs)) data_length = do
      (first_frame, position, remaining, metadata) ←
          if request then first_metadata (x ∷ xs) else return (false, pos 0, pos size, none)
      (remaining, metadata) ←
          metadata_loop (suc (length (x ∷ xs))) (x ∷ xs) data_length position remaining metadata
      return (first_frame, remaining, metadata)

    -- The data of the first frame, in `if (firstFrame)`; it returns `dataPosition`.
    unfoldable pub first_data : Option Bytes → Number → Option Bytes → Generator Frame Number
    first_data body remaining metadata =
        let room = sub remaining (pos cost) in
        let next = min_number (pos (byte_length body)) (add (pos 0) room) in
        let part = slice_of body (pos 0) next in
        yield (first (bit_or Flags.follows (metadata_flag metadata)) part metadata) (return next)

    unfoldable pub fragments : Bool → Payload → Generator Frame (Unit {0})
    fragments request content = do
      (first_frame, remaining, metadata) ←
          metadata_part request content.metadata (byte_length content.body)
      (position, remaining, metadata) ←
          if first_frame
          then first_data content.body remaining metadata
            >>= (λ position. return (position, pos size, none))
          else return (pos 0, remaining, metadata)
      data_loop (suc (byte_length content.body)) (or_empty content.body) position remaining metadata

abbrev pub is_request_kind : Kind → Bool
is_request_kind payload_kind = false
is_request_kind fnf_kind = true
is_request_kind response_kind = true

unfoldable pub fragment : Number → Payload → ℕ → Kind → Bool → Generator Frame (Unit {0})
fragment id content size kind is_complete =
    fragments id size is_complete (request_frame kind id) 0 (is_request_kind kind) content

unfoldable pub fragment_with_request_n :
    Number → Payload → ℕ → ManyKind → Number → Bool → Generator Frame (Unit {0})
fragment_with_request_n id content size kind request_n is_complete =
    fragments id size is_complete (request_many_frame kind id request_n) request_length true content
