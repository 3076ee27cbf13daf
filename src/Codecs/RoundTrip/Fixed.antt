-- ===== src/Codecs/RoundTrip/Fixed.antt =====
-- Reading back the frames that carry no flagged payload.
use rsocket.Prelude.{
  ℕ, ◌≡◌, refl, sym, ap, ◌∙◌, ◌++◌, [], ◌∷◌, append-nil, length, arith, List, some, none, true,
  false, length-append, ltb, ◌==◌, if◌then◌else◌,
}
use rsocket.Prelude.Number.{pos, to_u32}
use rsocket.Prelude.Result.{ok}
use rsocket.Bytes.{Bytes, subarray}
use rsocket.Bytes.Filled.{be32, be64}
use rsocket.Bytes.ReadBack.{subarray_end, read_int32-at, read_uint64-at, read_uint32-field}
use rsocket.Frames.FrameTypes
use rsocket.Frames.{
  CancelFrame, ErrorFrame, KeepAliveFrame, LeaseFrame, RequestNFrame, ResumeOkFrame,
  MetadataPushFrame, ExtFrame, cancel, error, keepalive, lease, metadata_push, request_n, resume_ok,
  ext,
}
use rsocket.Codecs.Common.{TextCodec}
use rsocket.Codecs.Deserialize.{
  dispatch, deserialize_frame, deserialize_ext_frame, deserialize_keepalive_frame,
  deserialize_lease_frame, deserialize_metadata_push_frame, deserialize_request_n_frame,
  deserialize_cancel_frame, deserialize_resume_ok_frame, deserialize_error_frame,
}
use rsocket.Codecs.Wire.{wire, header, or_empty}
use rsocket.Codecs.ReadBack.{present, rest_of-append, deserialize_frame-header}
use rsocket.Codecs.RoundTrip.{as_read, IsReadable}

-- The metadata of METADATA_PUSH is what follows a header.
pushed_rest :
    (h q : Bytes)
    → length h ≡ 6
    → (if length (h ++ q) == 6
        then none
        else some (subarray (h ++ q) (pos 6) (pos (length (h ++ q)))))
      ≡ present q
pushed_rest h [] l = rw append-nil (rw l)
pushed_rest h (x ∷ q) l =
    let longer = length-append h (x ∷ q) in
    let no : (length (h ++ (x ∷ q)) == 6) ≡ false = ground arith in
    rw no (ap some (subarray_end h (x ∷ q) 6 (sym l)))

module _ (text : TextCodec) where
  -- The message of ERROR is what follows ten bytes, and the empty text where nothing does.
  message_rest :
      (p b : Bytes) (m : List ℕ)
      → length p ≡ 10
      → text.decode b ≡ m
      → text.decode [] ≡ []
      → (if ltb 10 (length (p ++ b))
          then text.decode (subarray (p ++ b) (pos 10) (pos (length (p ++ b))))
          else [])
        ≡ m
  message_rest p [] m l d e = rw append-nil (rw l (sym e ∙ d))
  message_rest p (x ∷ b) m l d e =
      let longer = length-append p (x ∷ b) in
      let more : ltb 10 (length (p ++ (x ∷ b))) ≡ true = ground arith in
      rw more (ap text.decode (subarray_end p (x ∷ b) 10 (sym l)) ∙ d)

  pub cancel-read :
      (f : CancelFrame)
      → IsReadable text (cancel f)
      → deserialize_frame text (wire text (cancel f)) ≡ ok (cancel f)
  unfolding dispatch deserialize_cancel_frame
  cancel-read f (hf, hi) =
      deserialize_frame-header text FrameTypes.cancel f.flags f.stream_id [] (omega arith) hf hi

  pub lease-read :
      (f : LeaseFrame)
      → IsReadable text (lease f)
      → deserialize_frame text (wire text (lease f)) ≡ ok (as_read (lease f))
  unfolding dispatch deserialize_lease_frame
  lease-read f (hf, ht, hr) =
      let h = header FrameTypes.lease f.flags (pos 0) in
      let t = be32 (to_u32 f.ttl) in
      let r = be32 (to_u32 f.request_count) in
      let m = or_empty f.metadata in
      deserialize_frame-header text FrameTypes.lease f.flags (pos 0) (t ++ (r ++ m)) (omega arith)
        hf (omega arith)
      ∙ rw (
        read_uint32-field h (r ++ m) 6 refl f.ttl ht,
        read_uint32-field (h ++ t) m 10 refl f.request_count hr,
        rest_of-append (h ++ (t ++ r)) m 14 refl,
      )

  pub keepalive-read :
      (f : KeepAliveFrame)
      → IsReadable text (keepalive f)
      → deserialize_frame text (wire text (keepalive f)) ≡ ok (as_read (keepalive f))
  unfolding dispatch deserialize_keepalive_frame
  keepalive-read f (hf, hp) =
      let h = header FrameTypes.keepalive f.flags (pos 0) in
      let position = be64 f.last_received_position in
      let body = or_empty f.body in
      deserialize_frame-header text FrameTypes.keepalive f.flags (pos 0) (position ++ body)
        (omega arith) hf (omega arith)
      ∙ rw (
        read_uint64-at h body 6 refl f.last_received_position hp,
        rest_of-append (h ++ position) body 14 refl,
      )

  pub metadata_push-read :
      (f : MetadataPushFrame)
      → IsReadable text (metadata_push f)
      → deserialize_frame text (wire text (metadata_push f)) ≡ ok (as_read (metadata_push f))
  unfolding dispatch deserialize_metadata_push_frame
  metadata_push-read f hf =
      let h = header FrameTypes.metadata_push f.flags (pos 0) in
      let m = or_empty f.metadata in
      deserialize_frame-header text FrameTypes.metadata_push f.flags (pos 0) m (omega arith) hf
        (omega arith)
      ∙ ap (λ t. ok (metadata_push (record { flags = f.flags; metadata = t })))
          (pushed_rest h m refl)

  pub request_n-read :
      (f : RequestNFrame)
      → IsReadable text (request_n f)
      → deserialize_frame text (wire text (request_n f)) ≡ ok (request_n f)
  unfolding dispatch deserialize_request_n_frame
  request_n-read f (hf, hi, hn) =
      let h = header FrameTypes.request_n f.flags f.stream_id in
      let n = be32 (to_u32 f.request_n) in
      deserialize_frame-header text FrameTypes.request_n f.flags f.stream_id n (omega arith) hf hi
      ∙ rw (read_int32-at h [] 6 refl f.request_n hn)

  pub resume_ok-read :
      (f : ResumeOkFrame)
      → IsReadable text (resume_ok f)
      → deserialize_frame text (wire text (resume_ok f)) ≡ ok (resume_ok f)
  unfolding dispatch deserialize_resume_ok_frame
  resume_ok-read f (hf, hp) =
      let h = header FrameTypes.resume_ok f.flags (pos 0) in
      let position = be64 f.client_position in
      deserialize_frame-header text FrameTypes.resume_ok f.flags (pos 0) position (omega arith) hf
        (omega arith)
      ∙ rw (read_uint64-at h [] 6 refl f.client_position hp)

  pub ext-read :
      (f : ExtFrame)
      → IsReadable text (ext f)
      → deserialize_frame text (wire text (ext f)) ≡ ok (as_read (ext f))
  unfolding dispatch deserialize_ext_frame
  ext-read f (hf, hi, ht) =
      let h = header FrameTypes.ext f.flags f.stream_id in
      let t = be32 (to_u32 f.extended_type) in
      let c = or_empty f.extended_content in
      deserialize_frame-header text FrameTypes.ext f.flags f.stream_id (t ++ c) (omega arith) hf hi
      ∙ rw (read_int32-at h c 6 refl f.extended_type ht, rest_of-append (h ++ t) c 10 refl)

  pub error-read :
      (f : ErrorFrame)
      → IsReadable text (error f)
      → deserialize_frame text (wire text (error f)) ≡ ok (error f)
  unfolding dispatch deserialize_error_frame
  error-read f (hf, hi, hc, hm, h0) =
      let h = header FrameTypes.error f.flags f.stream_id in
      let c = be32 (to_u32 f.code) in
      let m = text.encode f.message in
      deserialize_frame-header text FrameTypes.error f.flags f.stream_id (c ++ m) (omega arith) hf
        hi
      ∙ rw (read_int32-at h m 6 refl f.code hc, message_rest (h ++ c) m f.message refl hm h0)
