-- ===== src/Codecs/RoundTrip/Payloads.antt =====
-- Reading back the frames that carry metadata and data.
use rsocket.Prelude.{ℕ, ◌^◌, ◌<◌, ◌≡◌, refl, ◌∙◌, ◌++◌, arith}
use rsocket.Prelude.Number.{to_u32}
use rsocket.Prelude.Result.{ok}
use rsocket.Bytes.Filled.{be32}
use rsocket.Bytes.ReadBack.{IsInt32, read_int32-at}
use rsocket.Frames.FrameTypes
use rsocket.Frames.{PayloadFrame, RequestFrame, RequestManyFrame, payload}
use rsocket.Codecs.Common.{TextCodec, size}
use rsocket.Codecs.Deserialize.{
  dispatch, deserialize_frame, deserialize_payload_frame, deserialize_request_frame,
  deserialize_request_many_frame,
}
use rsocket.Codecs.Wire.{wire, header, payload_bytes}
use rsocket.Codecs.ReadBack.{read_payload-at, deserialize_frame-header}
use rsocket.Codecs.RoundTrip.{as_read, present_part, flagged_part, IsReadable}

module _ (text : TextCodec) where
  pub payload-read :
      (f : PayloadFrame)
      → IsReadable text (payload f)
      → deserialize_frame text (wire text (payload f)) ≡ ok (as_read (payload f))
  unfolding dispatch deserialize_payload_frame
  payload-read f (hf, hi, hm) =
      let h = header FrameTypes.payload f.flags f.stream_id in
      let p = payload_bytes f.flags f.metadata f.body in
      deserialize_frame-header text FrameTypes.payload f.flags f.stream_id p (omega arith) hf hi
      ∙ rw (read_payload-at h 6 f.flags f.metadata f.body refl hm)

-- The frame that `deserializeRequestFnfFrame` and `deserializeRequestResponseFrame` give back.
pub request_frame-read :
    (type : ℕ) (f : RequestFrame)
    → size f.metadata < 2 ^ 24
    → deserialize_request_frame
        (header type f.flags f.stream_id ++ payload_bytes f.flags f.metadata f.body)
        f.stream_id
        f.flags
      ≡ record f { body = present_part f.body; metadata = flagged_part f.flags f.metadata }
unfolding deserialize_request_frame
request_frame-read type f hm =
    rw (read_payload-at (header type f.flags f.stream_id) 6 f.flags f.metadata f.body refl hm)

pub request_many_frame-read :
    (type : ℕ) (f : RequestManyFrame)
    → IsInt32 f.request_n
    → size f.metadata < 2 ^ 24
    → deserialize_request_many_frame
        (header type f.flags f.stream_id
          ++ (be32 (to_u32 f.request_n) ++ payload_bytes f.flags f.metadata f.body))
        f.stream_id
        f.flags
      ≡ record f { body = present_part f.body; metadata = flagged_part f.flags f.metadata }
unfolding deserialize_request_many_frame
request_many_frame-read type f hn hm =
    let h = header type f.flags f.stream_id in
    let n = be32 (to_u32 f.request_n) in
    rw (
      read_int32-at h (payload_bytes f.flags f.metadata f.body) 6 refl f.request_n hn,
      read_payload-at (h ++ n) 10 f.flags f.metadata f.body refl hm,
    )
