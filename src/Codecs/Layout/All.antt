-- ===== src/Codecs/Layout/All.antt =====
-- `serializeFrame` on every frame.
use rsocket.Prelude.{◌≡◌, All}
use rsocket.Prelude.Result.{ok}
use rsocket.Bytes.{IsByte}
use rsocket.Frames.{
  Frame, cancel, error, keepalive, lease, payload, metadata_push, request_channel, request_fnf,
  request_n, request_response, request_stream, resume, resume_ok, setup, ext, unsupported,
}
use rsocket.Frames.FrameTypes
use rsocket.Codecs.Common.{TextCodec, size}
use rsocket.Codecs.Serialize.{serialize_frame}
use rsocket.Codecs.Wire.{wire, resume_enabled}
use rsocket.Codecs.Layout.Setup.{TokenMatches, serialize_setup_frame-setup_bytes}
use rsocket.Codecs.Layout.Frames.{
  ext-wire, keepalive-wire, lease-wire, request_frame-bytes, payload-wire, request_many_frame-bytes,
  metadata_push-wire, request_n-wire, cancel-wire, resume_ok-wire, error-wire, resume-wire,
}

-- What a frame must meet to be written: in a SETUP frame the flag RESUME_ENABLE tells of the token,
-- and the MIME types are texts of one byte a character.
abbrev pub IsWritable : Frame → Type 0
IsWritable (setup f) =
    TokenMatches (resume_enabled f.flags) (size f.resume_token)
    × All IsByte f.metadata_mime_type
    × All IsByte f.data_mime_type
IsWritable (unsupported f) = ⊥
IsWritable _ = Unit

-- `serializeFrame` does not throw on a writable frame, and returns the frame's wire format: the
-- header, the fields in order, the metadata behind its length if flagged, and the data.
pub serialize_frame-wire :
    (text : TextCodec) (frame : Frame)
    → IsWritable frame
    → serialize_frame text frame ≡ ok (wire text frame)
unfolding serialize_frame
serialize_frame-wire text (setup f) (m, a, b) = serialize_setup_frame-setup_bytes f m a b
serialize_frame-wire text (payload f) h = payload-wire text f
serialize_frame-wire text (error f) h = error-wire text f
serialize_frame-wire text (keepalive f) h = keepalive-wire text f
serialize_frame-wire text (request_fnf f) h = request_frame-bytes text FrameTypes.request_fnf f
serialize_frame-wire text (request_response f) h =
    request_frame-bytes text FrameTypes.request_response f
serialize_frame-wire text (request_stream f) h =
    request_many_frame-bytes text FrameTypes.request_stream f
serialize_frame-wire text (request_channel f) h =
    request_many_frame-bytes text FrameTypes.request_channel f
serialize_frame-wire text (metadata_push f) h = metadata_push-wire text f
serialize_frame-wire text (request_n f) h = request_n-wire text f
serialize_frame-wire text (resume f) h = resume-wire text f
serialize_frame-wire text (resume_ok f) h = resume_ok-wire text f
serialize_frame-wire text (cancel f) h = cancel-wire text f
serialize_frame-wire text (lease f) h = lease-wire text f
serialize_frame-wire text (ext f) h = ext-wire text f
serialize_frame-wire text (unsupported f) h = absurd h
