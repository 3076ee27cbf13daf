-- ===== src/Fragmenter/RoundTrip.antt =====
-- A payload that is fragmented and reassembled is the payload that was sent.
use rsocket.Prelude.{ℕ, ◌<◌, ◌≡◌, refl, Bool, true, Option, none, some, arith, [], ◌∷◌, length}
use rsocket.Prelude.Number.{Number}
use rsocket.Bytes.{Bytes}
use rsocket.Frames.FrameTypes
use rsocket.Reassembler.Shape.{idle, holder_of}
use rsocket.Fragmenter.{
  Kind, payload_kind, fnf_kind, response_kind, ManyKind, stream_kind, channel_kind, request_frame,
  request_many_frame, fragment, fragment_with_request_n, is_fragmentable,
}
use rsocket.Fragmenter.Receive.{part_of, receive}
use rsocket.Fragmenter.Whole.{LeavesRoom, payload-receive, request-receive}

abbrev pub frame_type : Kind → ℕ
frame_type payload_kind = FrameTypes.payload
frame_type fnf_kind = FrameTypes.request_fnf
frame_type response_kind = FrameTypes.request_response

abbrev many_frame_type : ManyKind → ℕ
many_frame_type stream_kind = FrameTypes.request_stream
many_frame_type channel_kind = FrameTypes.request_channel

pub request_frame-part :
    (kind : Kind) (id : Number) (flags : ℕ) (body metadata : Option Bytes)
    → part_of (request_frame kind id flags body metadata)
      ≡ record { flags = flags; body = body; metadata = metadata }
request_frame-part payload_kind id flags body metadata = refl
request_frame-part fnf_kind id flags body metadata = refl
request_frame-part response_kind id flags body metadata = refl

pub request_many_frame-part :
    (kind : ManyKind) (id n : Number) (flags : ℕ) (body metadata : Option Bytes)
    → part_of (request_many_frame kind id n flags body metadata)
      ≡ record { flags = flags; body = body; metadata = metadata }
request_many_frame-part stream_kind id n flags body metadata = refl
request_many_frame-part channel_kind id n flags body metadata = refl

-- Without a request count there is always room.
no_count : (size : ℕ) (m : Option Bytes) → LeavesRoom size 0 m
no_count size none = tt
no_count size (some []) = tt
no_count size (some (x ∷ xs)) = ground arith

-- Where `isFragmentable` says so and a frame holds more than the length of metadata, the frames that
-- `fragment` makes of a payload with data are reassembled, by the last of them, to that payload.
pub receive-fragment :
    (id : Number) (b : Bytes) (m : Option Bytes) (size : ℕ) (kind : Kind) (is_complete : Bool)
    → 0 < length b
    → 3 < size
    → is_fragmentable (record { body = some b; metadata = m }) size (frame_type kind) ≡ true
    → receive
        (holder_of idle)
        (fragment id (record { body = some b; metadata = m }) size kind is_complete)
      ≡ some (record { body = some b; metadata = m })
unfolding fragment is_fragmentable
receive-fragment id b m size payload_kind is_complete h roomy big =
    payload-receive id size is_complete (request_frame payload_kind id) 0
      (request_frame-part payload_kind id) (omega arith) b m h
receive-fragment id b m size fnf_kind is_complete h roomy big =
    request-receive id size is_complete (request_frame fnf_kind id) 0
      (request_frame-part fnf_kind id) (omega arith) b m h (ground arith) (no_count size m)
receive-fragment id b m size response_kind is_complete h roomy big =
    request-receive id size is_complete (request_frame response_kind id) 0
      (request_frame-part response_kind id) (omega arith) b m h (ground arith) (no_count size m)

-- Where isFragmentable says so, and a frame holds more than the lengths of metadata and request
-- count together, the frames that fragmentWithRequestN makes of a payload whose data is not empty
-- are reassembled, by the last of them, to that payload, as long as the metadata is absent or
-- empty, fills the first frame, or leaves room there for twice the request count.
pub receive-fragment_with_request_n :
    (id n : Number) (b : Bytes) (m : Option Bytes) (size : ℕ) (kind : ManyKind) (is_complete : Bool)
    → 0 < length b
    → 6 < size
    → is_fragmentable (record { body = some b; metadata = m }) size (many_frame_type kind) ≡ true
    → LeavesRoom size 3 m
    → receive (holder_of idle) (
        fragment_with_request_n id (record { body = some b; metadata = m }) size kind n is_complete)
      ≡ some (record { body = some b; metadata = m })
unfolding fragment_with_request_n is_fragmentable
receive-fragment_with_request_n id n b m size stream_kind is_complete h roomy big leaves =
    request-receive id size is_complete (request_many_frame stream_kind id n) 3
      (request_many_frame-part stream_kind id n) (omega arith) b m h (ground arith) leaves
receive-fragment_with_request_n id n b m size channel_kind is_complete h roomy big leaves =
    request-receive id size is_complete (request_many_frame channel_kind id n) 3
      (request_many_frame-part channel_kind id n) (omega arith) b m h (ground arith) leaves
