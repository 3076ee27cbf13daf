-- ===== src/Codecs/Size.antt =====
-- `sizeOfFrame` of Codecs.ts and the function of each frame type.
use rsocket.Prelude.{ℕ, ◌+◌, length}
use rsocket.Prelude.Result.{Result, ok, err, unsupported_frame}
use rsocket.Frames.{
  CancelFrame, ErrorFrame, KeepAliveFrame, LeaseFrame, PayloadFrame, MetadataPushFrame,
  RequestFrame, RequestManyFrame, RequestNFrame, ResumeFrame, ResumeOkFrame, SetupFrame, ExtFrame,
  Frame, cancel, error, keepalive, lease, payload, metadata_push, request_channel, request_fnf,
  request_n, request_response, request_stream, resume, resume_ok, setup, ext, unsupported,
}
use rsocket.Codecs.Common.{TextCodec, frame_header_size, size, get_payload_length}
use rsocket.Codecs.Serialize.{token_room}

unfoldable pub size_of_ext_frame : ExtFrame → ℕ
size_of_ext_frame f = frame_header_size + 4 + size f.extended_content

unfoldable pub size_of_setup_frame : SetupFrame → ℕ
size_of_setup_frame f =
    frame_header_size
    + 14
    + token_room (size f.resume_token)
    + length f.metadata_mime_type
    + length f.data_mime_type
    + get_payload_length f.flags f.metadata f.body

unfoldable pub size_of_keepalive_frame : KeepAliveFrame → ℕ
size_of_keepalive_frame f = frame_header_size + 8 + size f.body

unfoldable pub size_of_lease_frame : LeaseFrame → ℕ
size_of_lease_frame f = frame_header_size + 8 + size f.metadata

unfoldable pub size_of_request_frame : RequestFrame → ℕ
size_of_request_frame f = frame_header_size + get_payload_length f.flags f.metadata f.body

unfoldable pub size_of_metadata_push_frame : MetadataPushFrame → ℕ
size_of_metadata_push_frame f = frame_header_size + size f.metadata

unfoldable pub size_of_request_many_frame : RequestManyFrame → ℕ
size_of_request_many_frame f = frame_header_size + 4 + get_payload_length f.flags f.metadata f.body

unfoldable pub size_of_request_n_frame : RequestNFrame → ℕ
size_of_request_n_frame f = frame_header_size + 4

unfoldable pub size_of_cancel_frame : CancelFrame → ℕ
size_of_cancel_frame f = frame_header_size

unfoldable pub size_of_payload_frame : PayloadFrame → ℕ
size_of_payload_frame f = frame_header_size + get_payload_length f.flags f.metadata f.body

unfoldable pub size_of_resume_frame : ResumeFrame → ℕ
size_of_resume_frame f = frame_header_size + 22 + length f.resume_token

unfoldable pub size_of_resume_ok_frame : ResumeOkFrame → ℕ
size_of_resume_ok_frame f = frame_header_size + 8

module _ (text : TextCodec) where
  unfoldable pub size_of_error_frame : ErrorFrame → ℕ
  size_of_error_frame f = frame_header_size + 4 + length (text.encode f.message)

  unfoldable pub size_of_frame : Frame → Result ℕ
  unfolding size_of_ext_frame size_of_setup_frame size_of_keepalive_frame size_of_lease_frame
      size_of_request_frame size_of_metadata_push_frame size_of_request_many_frame
      size_of_request_n_frame size_of_cancel_frame size_of_payload_frame size_of_resume_frame
      size_of_resume_ok_frame size_of_error_frame
  size_of_frame (setup f) = ok (size_of_setup_frame f)
  size_of_frame (payload f) = ok (size_of_payload_frame f)
  size_of_frame (error f) = ok (size_of_error_frame f)
  size_of_frame (keepalive f) = ok (size_of_keepalive_frame f)
  size_of_frame (request_fnf f) = ok (size_of_request_frame f)
  size_of_frame (request_response f) = ok (size_of_request_frame f)
  size_of_frame (request_stream f) = ok (size_of_request_many_frame f)
  size_of_frame (request_channel f) = ok (size_of_request_many_frame f)
  size_of_frame (metadata_push f) = ok (size_of_metadata_push_frame f)
  size_of_frame (request_n f) = ok (size_of_request_n_frame f)
  size_of_frame (resume f) = ok (size_of_resume_frame f)
  size_of_frame (resume_ok f) = ok (size_of_resume_ok_frame f)
  size_of_frame (cancel f) = ok (size_of_cancel_frame f)
  size_of_frame (lease f) = ok (size_of_lease_frame f)
  size_of_frame (ext f) = ok (size_of_ext_frame f)
  size_of_frame (unsupported f) = err unsupported_frame
