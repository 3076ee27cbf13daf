-- ===== src/Codecs/Layout/SizeOf.antt =====
-- `sizeOfFrame` against `serializeFrame`.
use rsocket.Prelude.{ℕ, ◌≡◌, refl, sym, ap, ◌∙◌, ◌++◌, arith, length, length-append}
use rsocket.Prelude.Result.{ok, ok-injective}
use rsocket.Bytes.{Bytes}
use rsocket.Bytes.Filled.{be64}
use rsocket.Frames.{
  Frame, cancel, error, keepalive, lease, payload, metadata_push, request_channel, request_fnf,
  request_n, request_response, request_stream, resume, resume_ok, setup, ext, unsupported,
}
use rsocket.Codecs.Common.{TextCodec}
use rsocket.Codecs.Serialize.{serialize_frame}
use rsocket.Codecs.Size.{size_of_frame}
use rsocket.Codecs.Wire.{wire}
use rsocket.Codecs.Layout.{length-payload_bytes, length-or_empty}
use rsocket.Codecs.Layout.All.{IsWritable, serialize_frame-wire}
use rsocket.Codecs.Layout.Sizes.{length-serialize_setup_frame}

module _ (text : TextCodec) where
  of_wire :
      (frame : Frame) {b : Bytes} {n : ℕ}
      → IsWritable frame
      → serialize_frame text frame ≡ ok b
      → n ≡ length (wire text frame)
      → ok n ≡ ok (length b)
  of_wire frame w e l =
      ap ok l
      ∙ ap (λ (b : Bytes). ok (length b))
          (ok-injective (sym (serialize_frame-wire text frame w) ∙ e))

  -- Whatever the frame, if `serializeFrame` returns a buffer then `sizeOfFrame` returns its length.
  pub size_of_frame-serialize_frame :
      (frame : Frame) {b : Bytes}
      → serialize_frame text frame ≡ ok b
      → size_of_frame text frame ≡ ok (length b)
  unfolding size_of_frame
  size_of_frame-serialize_frame (setup f) e =
      ap ok (sym (length-serialize_setup_frame f (unfold serialize_frame in e)))
  size_of_frame-serialize_frame (payload f) e =
      of_wire (payload f) tt e (omega (arith, length-payload_bytes f.flags f.metadata f.body))
  size_of_frame-serialize_frame (error f) e = of_wire (error f) tt e (omega arith)
  size_of_frame-serialize_frame (keepalive f) e =
      of_wire (keepalive f) tt e (omega (arith, length-or_empty f.body))
  size_of_frame-serialize_frame (request_fnf f) e =
      of_wire (request_fnf f) tt e (omega (arith, length-payload_bytes f.flags f.metadata f.body))
  size_of_frame-serialize_frame (request_response f) e =
      of_wire (request_response f) tt e
        (omega (arith, length-payload_bytes f.flags f.metadata f.body))
  size_of_frame-serialize_frame (request_stream f) e =
      of_wire (request_stream f) tt e
        (omega (arith, length-payload_bytes f.flags f.metadata f.body))
  size_of_frame-serialize_frame (request_channel f) e =
      of_wire (request_channel f) tt e
        (omega (arith, length-payload_bytes f.flags f.metadata f.body))
  size_of_frame-serialize_frame (metadata_push f) e =
      of_wire (metadata_push f) tt e (omega (arith, length-or_empty f.metadata))
  size_of_frame-serialize_frame (request_n f) e = of_wire (request_n f) tt e refl
  size_of_frame-serialize_frame (resume f) e = of_wire (resume f) tt e (
      omega
        (arith, length-append f.resume_token (be64 f.server_position ++ be64 f.client_position)))
  size_of_frame-serialize_frame (resume_ok f) e = of_wire (resume_ok f) tt e refl
  size_of_frame-serialize_frame (cancel f) e = of_wire (cancel f) tt e refl
  size_of_frame-serialize_frame (lease f) e =
      of_wire (lease f) tt e (omega (arith, length-or_empty f.metadata))
  size_of_frame-serialize_frame (ext f) e =
      of_wire (ext f) tt e (omega (arith, length-or_empty f.extended_content))
  size_of_frame-serialize_frame (unsupported f) e = unfold serialize_frame in cc
