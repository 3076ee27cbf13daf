-- ===== src/Codecs/Layout/Frames.antt =====
-- The layout of the frames other than SETUP.
use rsocket.Prelude.{
  ℕ, ◌+◌, ◌≡◌, refl, ap, ◌∙◌, ◌++◌, append_assoc, length, length-append, arith, some,
}
use rsocket.Prelude.Result.{ok}
use rsocket.Prelude.Number.{pos, to_u32}
use rsocket.Bytes.{Bytes}
use rsocket.Bytes.Filled.{
  Filled-full, write_uint16-Filled, write_uint32-Filled, write_int32-Filled, write_uint64-Filled,
  copy-Filled, be16, be32, be64,
}
use rsocket.Frames.FrameTypes
use rsocket.Frames.{
  ErrorFrame, KeepAliveFrame, LeaseFrame, RequestFrame, RequestManyFrame, RequestNFrame,
  ResumeFrame, ResumeOkFrame, CancelFrame, PayloadFrame, MetadataPushFrame, ExtFrame, cancel, error,
  keepalive, lease, payload, metadata_push, request_n, resume, resume_ok, ext,
}
use rsocket.Codecs.Common.{TextCodec, size, get_payload_length}
use rsocket.Codecs.Serialize.{
  serialize_ext_frame, serialize_keepalive_frame, serialize_lease_frame, serialize_request_frame,
  serialize_metadata_push_frame, serialize_request_many_frame, serialize_request_n_frame,
  serialize_cancel_frame, serialize_payload_frame, serialize_resume_frame,
  serialize_resume_ok_frame, serialize_error_frame,
}
use rsocket.Codecs.Wire.{wire, header, payload_bytes}
use rsocket.Codecs.Layout.{write_header-Filled, finish, write_payload-Filled}

-- What stands before the token of a RESUME frame.
abbrev resume_start : ResumeFrame → Bytes
resume_start f =
    header FrameTypes.resume f.flags (pos 0)
    ++ (be16 (to_u32 f.major_version)
        ++ (be16 (to_u32 f.minor_version) ++ be16 (to_u32 (pos (length f.resume_token)))))

module _ (text : TextCodec) where
  pub ext-wire : (f : ExtFrame) → serialize_ext_frame f ≡ ok (wire text (ext f))
  unfolding serialize_ext_frame
  ext-wire f =
      let n = 6 + 4 + size f.extended_content in
      let f1 = write_header-Filled {n = n} FrameTypes.ext f.flags f.stream_id (omega arith) in
      let f2 = write_int32-Filled f.extended_type f1 (omega arith) in
      finish f.extended_content f2 (omega arith)

  pub keepalive-wire :
      (f : KeepAliveFrame) → serialize_keepalive_frame f ≡ ok (wire text (keepalive f))
  unfolding serialize_keepalive_frame
  keepalive-wire f =
      let n = 6 + 8 + size f.body in
      let f1 = write_header-Filled {n = n} FrameTypes.keepalive f.flags (pos 0) (omega arith) in
      finish f.body (write_uint64-Filled f.last_received_position f1 (omega arith)) (omega arith)

  pub lease-wire : (f : LeaseFrame) → serialize_lease_frame f ≡ ok (wire text (lease f))
  unfolding serialize_lease_frame
  lease-wire f =
      let n = 6 + 8 + size f.metadata in
      let f1 = write_header-Filled {n = n} FrameTypes.lease f.flags (pos 0) (omega arith) in
      let f2 = write_uint32-Filled f.ttl f1 (omega arith) in
      let f3 = write_uint32-Filled f.request_count f2 (omega arith) in
      finish f.metadata f3 (omega arith)

  pub request_frame-bytes :
      (type : ℕ) (f : RequestFrame)
      → serialize_request_frame type f
        ≡ ok (header type f.flags f.stream_id ++ payload_bytes f.flags f.metadata f.body)
  unfolding serialize_request_frame
  request_frame-bytes type f =
      let n = 6 + get_payload_length f.flags f.metadata f.body in
      let f1 = write_header-Filled {n = n} type f.flags f.stream_id (omega arith) in
      write_payload-Filled f.flags f.metadata f.body f1 (omega arith)

  pub payload-wire : (f : PayloadFrame) → serialize_payload_frame f ≡ ok (wire text (payload f))
  unfolding serialize_payload_frame
  payload-wire f =
      let n = 6 + get_payload_length f.flags f.metadata f.body in
      let f1 = write_header-Filled {n = n} FrameTypes.payload f.flags f.stream_id (omega arith) in
      write_payload-Filled f.flags f.metadata f.body f1 (omega arith)

  pub request_many_frame-bytes :
      (type : ℕ) (f : RequestManyFrame)
      → serialize_request_many_frame type f
        ≡ ok (
            header type f.flags f.stream_id
            ++ (be32 (to_u32 f.request_n) ++ payload_bytes f.flags f.metadata f.body))
  unfolding serialize_request_many_frame
  request_many_frame-bytes type f =
      let n = 6 + 4 + get_payload_length f.flags f.metadata f.body in
      let f1 = write_header-Filled {n = n} type f.flags f.stream_id (omega arith) in
      let f2 = write_uint32-Filled f.request_n f1 (omega arith) in
      write_payload-Filled f.flags f.metadata f.body f2 (omega arith)

  pub metadata_push-wire :
      (f : MetadataPushFrame) → serialize_metadata_push_frame f ≡ ok (wire text (metadata_push f))
  unfolding serialize_metadata_push_frame
  metadata_push-wire f =
      let n = 6 + size f.metadata in
      let f1 = write_header-Filled {n = n} FrameTypes.metadata_push f.flags (pos 0) (omega arith) in
      finish f.metadata f1 (omega arith)

  pub request_n-wire :
      (f : RequestNFrame) → serialize_request_n_frame f ≡ ok (wire text (request_n f))
  unfolding serialize_request_n_frame
  request_n-wire f =
      let f1 =
        write_header-Filled {n = 10} FrameTypes.request_n f.flags f.stream_id (omega arith) in
      ap ok (Filled-full (write_uint32-Filled f.request_n f1 (omega arith)) refl)

  pub cancel-wire : (f : CancelFrame) → serialize_cancel_frame f ≡ ok (wire text (cancel f))
  unfolding serialize_cancel_frame
  cancel-wire f =
      let f1 = write_header-Filled {n = 6} FrameTypes.cancel f.flags f.stream_id (omega arith) in
      ap ok (Filled-full f1 refl)

  pub resume_ok-wire :
      (f : ResumeOkFrame) → serialize_resume_ok_frame f ≡ ok (wire text (resume_ok f))
  unfolding serialize_resume_ok_frame
  resume_ok-wire f =
      let f1 = write_header-Filled {n = 14} FrameTypes.resume_ok f.flags (pos 0) (omega arith) in
      ap ok (Filled-full (write_uint64-Filled f.client_position f1 (omega arith)) refl)

  pub error-wire : (f : ErrorFrame) → serialize_error_frame text f ≡ ok (wire text (error f))
  unfolding serialize_error_frame
  error-wire f =
      let message = text.encode f.message in
      let n = 6 + 4 + length message in
      let f1 = write_header-Filled {n = n} FrameTypes.error f.flags f.stream_id (omega arith) in
      let f2 = write_uint32-Filled f.code f1 (omega arith) in finish (some message) f2 (omega arith)

  pub resume-wire : (f : ResumeFrame) → serialize_resume_frame f ≡ ok (wire text (resume f))
  unfolding serialize_resume_frame
  resume-wire f =
      let token = f.resume_token in
      let n = 6 + 22 + length token in
      let f1 = write_header-Filled {n = n} FrameTypes.resume f.flags (pos 0) (omega arith) in
      let f2 = write_uint16-Filled f.major_version f1 (omega arith) in
      let f3 = write_uint16-Filled f.minor_version f2 (omega arith) in
      let f4 = write_uint16-Filled (pos (length token)) f3 (omega arith) in
      let (b', o', e, f5) = copy-Filled token f4 (omega arith) in
      let server = be64 f.server_position in
      let client = be64 f.client_position in
      let l1 = length-append token server in
      let l2 = length-append (token ++ server) client in
      let f6 = write_uint64-Filled f.server_position f5 (omega arith) in
      let f7 = write_uint64-Filled f.client_position f6 (omega (arith, l1)) in
      let start = resume_start f in
      rw e (
        ap ok (
          Filled-full f7 (omega (arith, l1, l2))
          ∙ ap (λ r. start ++ r) (append_assoc token server client)))
