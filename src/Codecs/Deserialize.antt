-- ===== src/Codecs/Deserialize.antt =====
-- `deserializeFrame` of Codecs.ts and the function of each frame type. A truncated buffer is read
-- as the source reads it, a missing byte being `undefined`.
use rsocket.Prelude.{
  ℕ, ◌+◌, ◌/◌, ◌%◌, ◌^◌, ◌==◌, not, Bool, List, [], Option, none, some, length, bit_and, ltb,
  if◌then◌else◌,
}
use rsocket.Prelude.Number.{Number, pos, add}
use rsocket.Prelude.Result.{Result, ok, err, unsupported_frame}
use rsocket.Bytes.{
  Bytes, read_uint8, read_uint16, read_int16, read_uint24, read_uint32, read_int32, read_uint64,
  read_ascii, subarray,
}
use rsocket.Frames.Flags
use rsocket.Frames.FrameTypes
use rsocket.Frames.{
  CancelFrame, ErrorFrame, KeepAliveFrame, LeaseFrame, PayloadFrame, MetadataPushFrame,
  RequestFrame, RequestManyFrame, RequestNFrame, ResumeFrame, ResumeOkFrame, SetupFrame, ExtFrame,
  Frame, cancel, error, keepalive, lease, payload, metadata_push, request_channel, request_fnf,
  request_n, request_response, request_stream, resume, resume_ok, setup, ext,
}
use rsocket.Codecs.Common.{TextCodec, frame_header_size, uint24_size, rest_of, read_payload}

unfoldable pub deserialize_ext_frame : Bytes → Number → ℕ → ExtFrame
deserialize_ext_frame buffer stream_id flags = record {
  flags = flags;
  stream_id = stream_id;
  extended_type = read_int32 buffer (pos frame_header_size);
  extended_content = rest_of buffer (pos 10);
}

-- The token part of `deserializeSetupFrame`, with the offset behind it.
unfoldable pub read_token : Bool → Bytes → Number → Option Bytes × Number
read_token enabled buffer offset =
    let start = add offset (pos 2) in
    let end = add start (read_int16 buffer offset) in
    if enabled then (some (subarray buffer start end), end) else (none, offset)

-- A text behind its length in one byte, with the offset behind it.
unfoldable pub read_mime_type : Bytes → Number → List ℕ × Number
read_mime_type buffer offset =
    let start = add offset (pos 1) in
    let end = add start (read_uint8 buffer offset) in (read_ascii buffer start end, end)

unfoldable pub deserialize_setup_frame : Bytes → ℕ → SetupFrame
deserialize_setup_frame buffer flags =
    let enabled = not (bit_and flags Flags.resume_enable == 0) in
    let (token, o1) = read_token enabled buffer (pos 18) in
    let (metadata_mime_type, o2) = read_mime_type buffer o1 in
    let (data_mime_type, o3) = read_mime_type buffer o2 in
    let (metadata, body) = read_payload flags buffer o3 in
    record {
      flags = flags;
      data_mime_type = data_mime_type;
      body = body;
      keep_alive = read_int32 buffer (pos 10);
      lifetime = read_int32 buffer (pos 14);
      metadata = metadata;
      metadata_mime_type = metadata_mime_type;
      resume_token = token;
      major_version = pos (read_uint16 buffer (pos 6));
      minor_version = pos (read_uint16 buffer (pos 8));
    }

unfoldable pub deserialize_keepalive_frame : Bytes → ℕ → KeepAliveFrame
deserialize_keepalive_frame buffer flags = record {
  flags = flags;
  body = rest_of buffer (pos 14);
  last_received_position = read_uint64 buffer (pos frame_header_size);
}

unfoldable pub deserialize_lease_frame : Bytes → ℕ → LeaseFrame
deserialize_lease_frame buffer flags = record {
  flags = flags;
  ttl = read_uint32 buffer (pos frame_header_size);
  request_count = read_uint32 buffer (pos 10);
  metadata = rest_of buffer (pos 14);
}

-- `deserializeRequestFnfFrame` and `deserializeRequestResponseFrame`
unfoldable pub deserialize_request_frame : Bytes → Number → ℕ → RequestFrame
deserialize_request_frame buffer stream_id flags =
    let (metadata, body) = read_payload flags buffer (pos frame_header_size) in
    record { flags = flags; body = body; metadata = metadata; stream_id = stream_id }

abbrev pub deserialize_request_fnf_frame : Bytes → Number → ℕ → Frame
deserialize_request_fnf_frame buffer stream_id flags =
    request_fnf (deserialize_request_frame buffer stream_id flags)

abbrev pub deserialize_request_response_frame : Bytes → Number → ℕ → Frame
deserialize_request_response_frame buffer stream_id flags =
    request_response (deserialize_request_frame buffer stream_id flags)

unfoldable pub deserialize_metadata_push_frame : Bytes → ℕ → MetadataPushFrame
deserialize_metadata_push_frame buffer flags = record {
  flags = flags;
  metadata =
      if length buffer == frame_header_size
      then none
      else some (subarray buffer (pos frame_header_size) (pos (length buffer)));
}

-- `deserializeRequestStreamFrame` and `deserializeRequestChannelFrame`
unfoldable pub deserialize_request_many_frame : Bytes → Number → ℕ → RequestManyFrame
deserialize_request_many_frame buffer stream_id flags =
    let (metadata, body) = read_payload flags buffer (pos 10) in
    record {
      flags = flags;
      body = body;
      metadata = metadata;
      request_n = read_int32 buffer (pos frame_header_size);
      stream_id = stream_id;
    }

abbrev pub deserialize_request_stream_frame : Bytes → Number → ℕ → Frame
deserialize_request_stream_frame buffer stream_id flags =
    request_stream (deserialize_request_many_frame buffer stream_id flags)

abbrev pub deserialize_request_channel_frame : Bytes → Number → ℕ → Frame
deserialize_request_channel_frame buffer stream_id flags =
    request_channel (deserialize_request_many_frame buffer stream_id flags)

unfoldable pub deserialize_request_n_frame : Bytes → Number → ℕ → RequestNFrame
deserialize_request_n_frame buffer stream_id flags = record {
  flags = flags;
  request_n = read_int32 buffer (pos frame_header_size);
  stream_id = stream_id;
}

unfoldable pub deserialize_cancel_frame : Bytes → Number → ℕ → CancelFrame
deserialize_cancel_frame buffer stream_id flags = record { flags = flags; stream_id = stream_id }

unfoldable pub deserialize_payload_frame : Bytes → Number → ℕ → PayloadFrame
deserialize_payload_frame buffer stream_id flags =
    let (metadata, body) = read_payload flags buffer (pos frame_header_size) in
    record { flags = flags; body = body; metadata = metadata; stream_id = stream_id }

unfoldable pub deserialize_resume_frame : Bytes → ℕ → ResumeFrame
deserialize_resume_frame buffer flags =
    let end = add (pos 12) (read_int16 buffer (pos 10)) in
    record {
      flags = flags;
      client_position = read_uint64 buffer (add end (pos 8));
      major_version = pos (read_uint16 buffer (pos 6));
      minor_version = pos (read_uint16 buffer (pos 8));
      resume_token = subarray buffer (pos 12) end;
      server_position = read_uint64 buffer end;
    }

unfoldable pub deserialize_resume_ok_frame : Bytes → ℕ → ResumeOkFrame
deserialize_resume_ok_frame buffer flags = record {
  flags = flags;
  client_position = read_uint64 buffer (pos frame_header_size);
}

module _ (text : TextCodec) where
  unfoldable pub deserialize_error_frame : Bytes → Number → ℕ → ErrorFrame
  deserialize_error_frame buffer stream_id flags = record {
    flags = flags;
    code = read_int32 buffer (pos frame_header_size);
    message =
        if ltb 10 (length buffer)
        then text.decode (subarray buffer (pos 10) (pos (length buffer)))
        else [];
    stream_id = stream_id;
  }

  -- The `switch` of `deserializeFrame`.
  unfoldable pub dispatch : ℕ → Bytes → Number → ℕ → Result Frame
  dispatch type buffer id flags =
      if type == FrameTypes.setup
      then ok (setup (deserialize_setup_frame buffer flags))
      else if type == FrameTypes.payload
      then ok (payload (deserialize_payload_frame buffer id flags))
      else if type == FrameTypes.error
      then ok (error (deserialize_error_frame buffer id flags))
      else if type == FrameTypes.keepalive
      then ok (keepalive (deserialize_keepalive_frame buffer flags))
      else if type == FrameTypes.request_fnf
      then ok (deserialize_request_fnf_frame buffer id flags)
      else if type == FrameTypes.request_response
      then ok (deserialize_request_response_frame buffer id flags)
      else if type == FrameTypes.request_stream
      then ok (deserialize_request_stream_frame buffer id flags)
      else if type == FrameTypes.request_channel
      then ok (deserialize_request_channel_frame buffer id flags)
      else if type == FrameTypes.metadata_push
      then ok (metadata_push (deserialize_metadata_push_frame buffer flags))
      else if type == FrameTypes.request_n
      then ok (request_n (deserialize_request_n_frame buffer id flags))
      else if type == FrameTypes.resume
      then ok (resume (deserialize_resume_frame buffer flags))
      else if type == FrameTypes.resume_ok
      then ok (resume_ok (deserialize_resume_ok_frame buffer flags))
      else if type == FrameTypes.cancel
      then ok (cancel (deserialize_cancel_frame buffer id flags))
      else if type == FrameTypes.lease
      then ok (lease (deserialize_lease_frame buffer flags))
      else if type == FrameTypes.ext
      then ok (ext (deserialize_ext_frame buffer id flags))
      else err unsupported_frame

  unfoldable pub deserialize_frame : Bytes → Result Frame
  deserialize_frame buffer =
      let word = read_uint16 buffer (pos 4) in
      dispatch (word / 2 ^ 10) buffer (read_int32 buffer (pos 0)) (word % 2 ^ 10)

  unfoldable pub deserialize_frame_with_length : Bytes → Result Frame
  deserialize_frame_with_length buffer =
      deserialize_frame
        (subarray buffer (pos uint24_size) (pos (uint24_size + read_uint24 buffer (pos 0))))
