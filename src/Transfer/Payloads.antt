-- ===== src/Transfer/Payloads.antt =====
-- The frames of a payload, sent whole or cut into fragments, as pieces that travel unchanged.
use rsocket.Prelude.{
  ℕ, ◌+◌, ◌^◌, ◌<◌, refl, Bool, true, false, Option, none, some, [], ◌∷◌, All, arith, bit_or,
  if◌then◌else◌, Bool-cases, inl, inr,
}
use rsocket.Prelude.Number.{Number}
use rsocket.Prelude.Generator.{yields, yields-All}
use rsocket.Bytes.{Bytes}
use rsocket.Frames.Flags
use rsocket.Frames.FrameTypes
use rsocket.Reassembler.{Payload}
use rsocket.Fragmenter.{
  Kind, payload_kind, request_frame, fragment, is_fragmentable, byte_length, metadata_room,
  metadata_flag, fragment_with_request_n, stream_kind,
}
use rsocket.Fragmenter.Every.{NotEmpty, HasRoom}
use rsocket.Fragmenter.Request.{IsCut, IsCutMany}
use rsocket.Fragmenter.RoundTrip.{frame_type}
use rsocket.Streams.Sending.{response_frames, complete_frame}
use rsocket.Bytes.ReadBack.{IsInt32}
use rsocket.RequestStream.{Requester, request_frames}
use rsocket.Transfer.Pieces.{
  fragment_with_request_n-IsPiece, IsPiece, Announces, fragment-IsPiece, request_frame-IsPiece,
}

-- The room that a frame of the payload takes at most.
abbrev frame_room : Payload → ℕ → ℕ → ℕ
frame_room content size type =
    if is_fragmentable content size type
    then size
    else byte_length content.body + metadata_room content.metadata

-- Neither part of the payload is there and empty, and the length of each of its frames, with the
-- header, fits 24 bits.
abbrev pub CanTravel : Payload → ℕ → ℕ → Type 0
CanTravel content size type =
    NotEmpty content.body × NotEmpty content.metadata × (frame_room content size type + 6 < 2 ^ 24)

pub frames-pieces :
    (id : Number) (content : Payload) (size : ℕ) (kind : Kind) (is_complete : Bool) (flags : ℕ)
    → IsCut content size (frame_type kind)
    → CanTravel content size (frame_type kind)
    → Announces flags content.metadata
    → All (IsPiece id) (
        if is_fragmentable content size (frame_type kind)
        then yields (fragment id content size kind is_complete)
        else request_frame kind id flags content.body content.metadata ∷ [])
frames-pieces id content size kind is_complete flags fits (more, given, small) (low, told) =
    elim (Bool-cases (is_fragmentable content size (frame_type kind))) [
      | inl cut ↦ rw cut (
          yields-All (IsPiece id) (fragment id content size kind is_complete) (
            fragment-IsPiece id content size kind is_complete (fits cut).1 (rw cut at small) more
              given))
      | inr whole ↦ rw whole (
        request_frame-IsPiece kind id flags content.body content.metadata
            (low, told, refl, more, given, rw whole at small),
        tt,
      )
    ]

pub metadata_flag-Announces : (m : Option Bytes) → Announces (metadata_flag m) m
unfolding Flags.has_metadata
metadata_flag-Announces none = (omega arith, refl)
metadata_flag-Announces (some m) = (omega arith, refl)

whole-Announces :
    (last : Bool) (m : Option Bytes)
    → Announces
        (bit_or
          (bit_or Flags.next (if last then Flags.complete else Flags.no_flags))
          (metadata_flag m))
        m
unfolding Flags.has_metadata
whole-Announces true none = (omega arith, refl)
whole-Announces true (some m) = (omega arith, refl)
whole-Announces false none = (omega arith, refl)
whole-Announces false (some m) = (omega arith, refl)

-- The frames of `onNext`
pub response_frames-pieces :
    (id : Number) (n : ℕ) (content : Payload) (is_completion : Bool)
    → IsCut content n FrameTypes.payload
    → CanTravel content n FrameTypes.payload
    → All (IsPiece id) (response_frames id n content is_completion)
unfolding response_frames
response_frames-pieces id n content is_completion fits travels =
    frames-pieces id content n payload_kind is_completion _ fits travels
      (whole-Announces is_completion content.metadata)

-- The same of a request with a count: a frame with it has a header of ten bytes.
abbrev pub CanTravelMany : Payload → ℕ → Type 0
CanTravelMany content size =
    NotEmpty content.body
    × NotEmpty content.metadata
    × HasRoom size 3 content.metadata
    × (frame_room content size FrameTypes.request_stream + 10 < 2 ^ 24)

pub stream_frames-pieces :
    (id : Number) (s : Requester)
    → IsInt32 s.initial_request_n
    → IsCutMany s.request s.fragment_size FrameTypes.request_stream
    → CanTravelMany s.request s.fragment_size
    → All (IsPiece id) (request_frames id s)
unfolding request_frames
stream_frames-pieces id s count fits (more, given, room, small) =
    let n = s.fragment_size in
    let g = fragment_with_request_n id s.request n stream_kind s.initial_request_n false in
    elim (Bool-cases (is_fragmentable s.request n FrameTypes.request_stream)) [
      | inl cut ↦ rw cut (
          yields-All (IsPiece id) g (
            fragment_with_request_n-IsPiece id s.initial_request_n s.request n false count
              (fits cut).1 (rw cut at small) more given room))
      | inr whole ↦
          let (low, told) = metadata_flag-Announces s.request.metadata in
          let short = rw whole at small in
          rw whole (((low, told, refl, more, given, omega arith), count, short), tt)
    ]

pub complete_frame-IsPiece : (id : Number) → IsPiece id (complete_frame id)
unfolding Flags.has_metadata
complete_frame-IsPiece id = (omega arith, refl, refl, tt, tt, omega arith)
