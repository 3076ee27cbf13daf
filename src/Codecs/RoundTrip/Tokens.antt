-- ===== src/Codecs/RoundTrip/Tokens.antt =====
-- Reading back the frames with a resume token: RESUME and SETUP.
use rsocket.Prelude.{
  ◌+◌, ◌≡◌, refl, sym, ap, ◌∙◌, ◌++◌, [], append_assoc, length, arith, length-append,
}
use rsocket.Prelude.Number.{pos, to_u32}
use rsocket.Prelude.Result.{ok}
use rsocket.Bytes.{Bytes, read_uint64}
use rsocket.Bytes.Filled.{be16, be32, be64}
use rsocket.Bytes.ReadBack.{read_int32-at, read_uint64-at, read_uint16-field}
use rsocket.Frames.FrameTypes
use rsocket.Frames.{ResumeFrame, SetupFrame, resume, setup}
use rsocket.Codecs.Common.{TextCodec, read_payload}
use rsocket.Codecs.Deserialize.{
  dispatch, deserialize_frame, deserialize_resume_frame, deserialize_setup_frame, read_mime_type,
}
use rsocket.Codecs.Wire.{wire, header, payload_bytes, mime_bytes, token_bytes, resume_enabled}
use rsocket.Codecs.ReadBack.{
  sized_token, read_payload-at, read_mime_type-at, read_token-at, deserialize_frame-header,
}
use rsocket.Codecs.RoundTrip.{as_read, IsReadable}

module _ (text : TextCodec) where
  pub resume-read :
      (f : ResumeFrame)
      → IsReadable text (resume f)
      → deserialize_frame text (wire text (resume f)) ≡ ok (resume f)
  unfolding dispatch deserialize_resume_frame
  resume-read f (hf, hj, hn, ht, hs, hc) =
      let h = header FrameTypes.resume f.flags (pos 0) in
      let major = be16 (to_u32 f.major_version) in
      let minor = be16 (to_u32 f.minor_version) in
      let token = f.resume_token in
      let size = be16 (to_u32 (pos (length token))) in
      let server = be64 f.server_position in
      let client = be64 f.client_position in
      let start = h ++ (major ++ (minor ++ size)) in
      let after = token ++ (server ++ client) in
      let end = 12 + length token in
      let (n, found) = sized_token (h ++ (major ++ minor)) (server ++ client) token 10 refl ht in
      let l = length-append token server in
      let last =
        ap (λ (t : Bytes). read_uint64 (start ++ t) (pos (end + 8)))
          (sym (append_assoc token server client))
        ∙ read_uint64-at (start ++ (token ++ server)) [] (end + 8) (omega (arith, l))
            f.client_position hc in
      deserialize_frame-header text FrameTypes.resume f.flags (pos 0)
        (major ++ (minor ++ (size ++ after))) (omega arith) hf (omega arith)
      ∙ rw (
        read_uint16-field h (minor ++ (size ++ after)) 6 refl f.major_version hj,
        read_uint16-field (h ++ major) (size ++ after) 8 refl f.minor_version hn,
        n,
        found,
        read_uint64-at (start ++ token) client end (omega arith) f.server_position hs,
        last,
      )

  pub setup-read :
      (f : SetupFrame)
      → IsReadable text (setup f)
      → deserialize_frame text (wire text (setup f)) ≡ ok (as_read (setup f))
  unfolding dispatch deserialize_setup_frame
  setup-read f (hf, hj, hn, hk, hl, ht, hm, hd, hp) =
      let h = header FrameTypes.setup f.flags (pos 0) in
      let major = be16 (to_u32 f.major_version) in
      let minor = be16 (to_u32 f.minor_version) in
      let alive = be32 (to_u32 f.keep_alive) in
      let life = be32 (to_u32 f.lifetime) in
      let enabled = resume_enabled f.flags in
      let t = token_bytes enabled f.resume_token in
      let m = mime_bytes f.metadata_mime_type in
      let d = mime_bytes f.data_mime_type in
      let p = payload_bytes f.flags f.metadata f.body in
      let start = h ++ (major ++ (minor ++ (alive ++ life))) in
      let after = t ++ (m ++ (d ++ p)) in
      let l1 = length-append t m in
      let l2 = length-append (t ++ m) d in
      let i2 = 18 + length t + length m in
      let i3 = i2 + length d in
      let data_type =
        ap (λ (r : Bytes). read_mime_type (start ++ r) (pos i2)) (sym (append_assoc t m (d ++ p)))
        ∙ read_mime_type-at (start ++ (t ++ m)) f.data_mime_type p i2 (omega (arith, l1)) hd in
      let content =
        ap (λ (r : Bytes). read_payload f.flags (start ++ r) (pos i3))
          (sym (append_assoc (t ++ m) d p ∙ append_assoc t m (d ++ p)))
        ∙ read_payload-at (start ++ ((t ++ m) ++ d)) i3 f.flags f.metadata f.body
            (omega (arith, l1, l2)) hp in
      deserialize_frame-header text FrameTypes.setup f.flags (pos 0)
        (major ++ (minor ++ (alive ++ (life ++ after)))) (omega arith) hf (omega arith)
      ∙ rw (
        read_uint16-field h (minor ++ (alive ++ (life ++ after))) 6 refl f.major_version hj,
        read_uint16-field (h ++ major) (alive ++ (life ++ after)) 8 refl f.minor_version hn,
        read_int32-at (h ++ (major ++ minor)) (life ++ after) 10 refl f.keep_alive hk,
        read_int32-at (h ++ (major ++ (minor ++ alive))) after 14 refl f.lifetime hl,
        read_token-at start (m ++ (d ++ p)) 18 enabled f.resume_token refl ht,
        read_mime_type-at (start ++ t) f.metadata_mime_type (d ++ p) (18 + length t) (omega arith)
            hm,
        data_type,
        content,
      )
