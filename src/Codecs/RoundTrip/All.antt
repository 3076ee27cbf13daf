-- ===== src/Codecs/RoundTrip/All.antt =====
-- `deserializeFrame` after `serializeFrame`.
use rsocket.Prelude.{◌≡◌, ap, ◌∙◌, ◌++◌, arith}
use rsocket.Prelude.Number.{to_u32}
use rsocket.Prelude.Result.{ok, ◌>>=◌}
use rsocket.Bytes.Filled.{be32}
use rsocket.Frames.FrameTypes
use rsocket.Frames.{
  Frame, cancel, error, keepalive, lease, payload, metadata_push, request_channel, request_fnf,
  request_n, request_response, request_stream, resume, resume_ok, setup, ext, unsupported,
}
use rsocket.Codecs.Common.{TextCodec}
use rsocket.Codecs.Serialize.{serialize_frame}
use rsocket.Codecs.Deserialize.{dispatch, deserialize_frame}
use rsocket.Codecs.Wire.{wire, payload_bytes}
use rsocket.Codecs.ReadBack.{deserialize_frame-header}
use rsocket.Codecs.Layout.All.{IsWritable, serialize_frame-wire}
use rsocket.Codecs.RoundTrip.{as_read, IsReadable}
use rsocket.Codecs.RoundTrip.Fixed.{
  cancel-read, lease-read, keepalive-read, metadata_push-read, request_n-read, resume_ok-read,
  ext-read, error-read,
}
use rsocket.Codecs.RoundTrip.Payloads.{payload-read, request_frame-read, request_many_frame-read}
use rsocket.Codecs.RoundTrip.Tokens.{resume-read, setup-read}

module _ (text : TextCodec) where
  pub wire-read :
      (frame : Frame)
      → IsReadable text frame
      → deserialize_frame text (wire text frame) ≡ ok (as_read frame)
  unfolding dispatch
  wire-read (cancel f) h = cancel-read text f h
  wire-read (error f) h = error-read text f h
  wire-read (keepalive f) h = keepalive-read text f h
  wire-read (lease f) h = lease-read text f h
  wire-read (payload f) h = payload-read text f h
  wire-read (metadata_push f) h = metadata_push-read text f h
  wire-read (request_n f) h = request_n-read text f h
  wire-read (resume f) h = resume-read text f h
  wire-read (resume_ok f) h = resume_ok-read text f h
  wire-read (setup f) h = setup-read text f h
  wire-read (ext f) h = ext-read text f h
  wire-read (request_fnf f) (hf, hi, hm) =
      let p = payload_bytes f.flags f.metadata f.body in
      deserialize_frame-header text FrameTypes.request_fnf f.flags f.stream_id p (omega arith) hf hi
      ∙ ap (λ r. ok (request_fnf r)) (request_frame-read FrameTypes.request_fnf f hm)
  wire-read (request_response f) (hf, hi, hm) =
      let p = payload_bytes f.flags f.metadata f.body in
      deserialize_frame-header text FrameTypes.request_response f.flags f.stream_id p (omega arith)
        hf hi
      ∙ ap (λ r. ok (request_response r)) (request_frame-read FrameTypes.request_response f hm)
  wire-read (request_stream f) (hf, hi, hn, hm) =
      let p = be32 (to_u32 f.request_n) ++ payload_bytes f.flags f.metadata f.body in
      deserialize_frame-header text FrameTypes.request_stream f.flags f.stream_id p (omega arith) hf
        hi
      ∙ ap (λ r. ok (request_stream r)) (request_many_frame-read FrameTypes.request_stream f hn hm)
  wire-read (request_channel f) (hf, hi, hn, hm) =
      let p = be32 (to_u32 f.request_n) ++ payload_bytes f.flags f.metadata f.body in
      deserialize_frame-header text FrameTypes.request_channel f.flags f.stream_id p (omega arith)
        hf hi
      ∙ ap (λ r. ok (request_channel r))
          (request_many_frame-read FrameTypes.request_channel f hn hm)
  wire-read (unsupported f) h = absurd h

  -- Serialising a frame and deserialising the buffer succeeds and gives the frame back, a part with
  -- no bytes and unflagged metadata as none. It holds of every frame that is writable and whose
  -- fields lie in the ranges of `IsReadable`: a resume token below 2 ^ 15 bytes, MIME types below
  -- 256, metadata below 2 ^ 24, and for ERROR a message that the platform decodes as it encoded it.
  pub deserialize_frame-serialize_frame :
      (frame : Frame)
      → IsWritable frame
      → IsReadable text frame
      → (serialize_frame text frame >>= deserialize_frame text) ≡ ok (as_read frame)
  deserialize_frame-serialize_frame frame w h =
      ap (λ r. r >>= deserialize_frame text) (serialize_frame-wire text frame w) ∙ wire-read frame h
