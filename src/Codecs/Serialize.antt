-- ===== src/Codecs/Serialize.antt =====
-- `serializeFrame` of Codecs.ts and the function of each frame type, which allocates a buffer of
-- the frame's size and writes the fields at running offsets.
use rsocket.Prelude.{ℕ, ◌+◌, ◌==◌, not, Bool, List, Option, length, bit_and, if◌then◌else◌}
use rsocket.Prelude.Number.{pos}
use rsocket.Prelude.Result.{Result, ok, err, unsupported_frame, ◌>>=◌}
use rsocket.Bytes.{
  Bytes, write_uint8, write_uint16, write_uint24, write_uint32, write_int32, write_uint64, alloc,
  copy, write_ascii,
}
use rsocket.Frames.Flags
use rsocket.Frames.FrameTypes
use rsocket.Frames.{
  CancelFrame, ErrorFrame, KeepAliveFrame, LeaseFrame, PayloadFrame, MetadataPushFrame,
  RequestFrame, RequestManyFrame, RequestNFrame, ResumeFrame, ResumeOkFrame, SetupFrame, ExtFrame,
  Frame, cancel, error, keepalive, lease, payload, metadata_push, request_channel, request_fnf,
  request_n, request_response, request_stream, resume, resume_ok, setup, ext, unsupported,
}
use rsocket.Codecs.Common.{
  TextCodec, frame_header_size, uint24_size, size, copy_present, write_header, get_payload_length,
  write_payload,
}

unfoldable pub serialize_ext_frame : ExtFrame → Result Bytes
serialize_ext_frame f = do
  let buffer = alloc (frame_header_size + 4 + size f.extended_content)
  let (b, o) = write_header FrameTypes.ext f.flags f.stream_id buffer
  let (b1, o1) = write_int32 b f.extended_type o
  (b2, o2) ← copy_present f.extended_content b1 o1
  ok b2

-- The room for a resume token: none at all where the token is empty.
abbrev pub token_room : ℕ → ℕ
token_room n = if n == 0 then 0 else 2 + n

abbrev pub setup_size : SetupFrame → ℕ
setup_size f =
    frame_header_size
    + 14
    + token_room (size f.resume_token)
    + length f.metadata_mime_type
    + length f.data_mime_type
    + get_payload_length f.flags f.metadata f.body

-- The token part of `serializeSetupFrame`, under `frame.flags & Flags.RESUME_ENABLE`.
unfoldable pub write_token : Bool → Option Bytes → Bytes → ℕ → Result (Bytes × ℕ)
write_token enabled token buffer offset =
    let (b, o) = write_uint16 buffer (pos (size token)) offset in
    if enabled then copy_present token b o else ok (buffer, offset)

-- A text behind its length in one byte.
unfoldable pub write_mime_type : List ℕ → Bytes → ℕ → Bytes × ℕ
write_mime_type value buffer offset =
    let (b, o) = write_uint8 buffer (pos (length value)) offset in write_ascii b value o

unfoldable pub serialize_setup_frame : SetupFrame → Result Bytes
serialize_setup_frame f = do
  let buffer = alloc (setup_size f)
  let (b, o) = write_header FrameTypes.setup f.flags (pos 0) buffer
  let (b1, o1) = write_uint16 b f.major_version o
  let (b2, o2) = write_uint16 b1 f.minor_version o1
  let (b3, o3) = write_uint32 b2 f.keep_alive o2
  let (b4, o4) = write_uint32 b3 f.lifetime o3
  (b5, o5) ← write_token (not (bit_and f.flags Flags.resume_enable == 0)) f.resume_token b4 o4
  let (b6, o6) = write_mime_type f.metadata_mime_type b5 o5
  let (b7, o7) = write_mime_type f.data_mime_type b6 o6
  write_payload f.flags f.metadata f.body b7 o7

unfoldable pub serialize_keepalive_frame : KeepAliveFrame → Result Bytes
serialize_keepalive_frame f = do
  let buffer = alloc (frame_header_size + 8 + size f.body)
  let (b, o) = write_header FrameTypes.keepalive f.flags (pos 0) buffer
  let (b1, o1) = write_uint64 b f.last_received_position o
  (b2, o2) ← copy_present f.body b1 o1
  ok b2

unfoldable pub serialize_lease_frame : LeaseFrame → Result Bytes
serialize_lease_frame f = do
  let buffer = alloc (frame_header_size + 8 + size f.metadata)
  let (b, o) = write_header FrameTypes.lease f.flags (pos 0) buffer
  let (b1, o1) = write_uint32 b f.ttl o
  let (b2, o2) = write_uint32 b1 f.request_count o1
  (b3, o3) ← copy_present f.metadata b2 o2
  ok b3

unfoldable pub serialize_request_frame : ℕ → RequestFrame → Result Bytes
serialize_request_frame type f = do
  let buffer = alloc (frame_header_size + get_payload_length f.flags f.metadata f.body)
  let (b, o) = write_header type f.flags f.stream_id buffer
  write_payload f.flags f.metadata f.body b o

unfoldable pub serialize_metadata_push_frame : MetadataPushFrame → Result Bytes
serialize_metadata_push_frame f = do
  let buffer = alloc (frame_header_size + size f.metadata)
  let (b, o) = write_header FrameTypes.metadata_push f.flags (pos 0) buffer
  (b1, o1) ← copy_present f.metadata b o
  ok b1

unfoldable pub serialize_request_many_frame : ℕ → RequestManyFrame → Result Bytes
serialize_request_many_frame type f = do
  let buffer = alloc (frame_header_size + 4 + get_payload_length f.flags f.metadata f.body)
  let (b, o) = write_header type f.flags f.stream_id buffer
  let (b1, o1) = write_uint32 b f.request_n o
  write_payload f.flags f.metadata f.body b1 o1

unfoldable pub serialize_request_n_frame : RequestNFrame → Result Bytes
serialize_request_n_frame f = do
  let buffer = alloc (frame_header_size + 4)
  let (b, o) = write_header FrameTypes.request_n f.flags f.stream_id buffer
  let (b1, o1) = write_uint32 b f.request_n o
  ok b1

unfoldable pub serialize_cancel_frame : CancelFrame → Result Bytes
serialize_cancel_frame f =
    ok (write_header FrameTypes.cancel f.flags f.stream_id (alloc frame_header_size)).0

unfoldable pub serialize_payload_frame : PayloadFrame → Result Bytes
serialize_payload_frame f = do
  let buffer = alloc (frame_header_size + get_payload_length f.flags f.metadata f.body)
  let (b, o) = write_header FrameTypes.payload f.flags f.stream_id buffer
  write_payload f.flags f.metadata f.body b o

unfoldable pub serialize_resume_frame : ResumeFrame → Result Bytes
serialize_resume_frame f = do
  let buffer = alloc (frame_header_size + 22 + length f.resume_token)
  let (b, o) = write_header FrameTypes.resume f.flags (pos 0) buffer
  let (b1, o1) = write_uint16 b f.major_version o
  let (b2, o2) = write_uint16 b1 f.minor_version o1
  let (b3, o3) = write_uint16 b2 (pos (length f.resume_token)) o2
  (b4, o4) ← copy f.resume_token b3 o3
  let (b5, o5) = write_uint64 b4 f.server_position o4
  let (b6, o6) = write_uint64 b5 f.client_position o5
  ok b6

unfoldable pub serialize_resume_ok_frame : ResumeOkFrame → Result Bytes
serialize_resume_ok_frame f = do
  let buffer = alloc (frame_header_size + 8)
  let (b, o) = write_header FrameTypes.resume_ok f.flags (pos 0) buffer
  let (b1, o1) = write_uint64 b f.client_position o
  ok b1

module _ (text : TextCodec) where
  unfoldable pub serialize_error_frame : ErrorFrame → Result Bytes
  serialize_error_frame f = do
    let message = text.encode f.message
    let buffer = alloc (frame_header_size + 4 + length message)
    let (b, o) = write_header FrameTypes.error f.flags f.stream_id buffer
    let (b1, o1) = write_uint32 b f.code o
    (b2, o2) ← copy message b1 o1
    ok b2

  unfoldable pub serialize_frame : Frame → Result Bytes
  serialize_frame (setup f) = serialize_setup_frame f
  serialize_frame (payload f) = serialize_payload_frame f
  serialize_frame (error f) = serialize_error_frame f
  serialize_frame (keepalive f) = serialize_keepalive_frame f
  serialize_frame (request_fnf f) = serialize_request_frame FrameTypes.request_fnf f
  serialize_frame (request_response f) = serialize_request_frame FrameTypes.request_response f
  serialize_frame (request_stream f) = serialize_request_many_frame FrameTypes.request_stream f
  serialize_frame (request_channel f) = serialize_request_many_frame FrameTypes.request_channel f
  serialize_frame (metadata_push f) = serialize_metadata_push_frame f
  serialize_frame (request_n f) = serialize_request_n_frame f
  serialize_frame (resume f) = serialize_resume_frame f
  serialize_frame (resume_ok f) = serialize_resume_ok_frame f
  serialize_frame (cancel f) = serialize_cancel_frame f
  serialize_frame (lease f) = serialize_lease_frame f
  serialize_frame (ext f) = serialize_ext_frame f
  serialize_frame (unsupported f) = err unsupported_frame

  unfoldable pub serialize_frame_with_length : Frame → Result Bytes
  serialize_frame_with_length frame = do
    buffer ← serialize_frame frame
    let (b, o) = write_uint24 (alloc (length buffer + uint24_size)) (pos (length buffer)) 0
    (b', o') ← copy buffer b uint24_size
    ok b'
