-- ===== src/Codecs/Stream/RoundTrip.antt =====
-- `deserializeFrames` gives back the frames that were sent, and stops at one that is not all there.
use rsocket.Prelude.{
  ℕ, zero, suc, ◌+◌, ◌^◌, ◌≤◌, ◌<◌, ◌≡◌, refl, sym, ap, List, [], ◌∷◌, ◌++◌, arith, length,
  length-append, append_assoc, ltb, true, false, ◌⊎◌, inl, inr,
}
use rsocket.Prelude.Number.{pos, to_u32}
use rsocket.Prelude.Result.{ok, ◌>>=◌}
use rsocket.Bytes.{Bytes, read_uint24, write_uint24}
use rsocket.Bytes.ReadBack.{read_uint24-append}
use rsocket.Bytes.Filled.{be24, alloc-Filled, write_uint24-Filled, Filled-full, copy-Filled}
use rsocket.Frames.{
  Frame, cancel, error, keepalive, lease, payload, metadata_push, request_n, resume, resume_ok,
  setup, ext, request_fnf, request_response, request_stream, request_channel, unsupported,
}
use rsocket.Codecs.Common.{TextCodec}
use rsocket.Codecs.Serialize.{serialize_frame_with_length}
use rsocket.Codecs.Deserialize.{deserialize_frame}
use rsocket.Codecs.Wire.{wire}
use rsocket.Codecs.ReadBack.{sized_bytes}
use rsocket.Codecs.Layout.All.{IsWritable, serialize_frame-wire}
use rsocket.Codecs.RoundTrip.{as_read, IsReadable}
use rsocket.Codecs.RoundTrip.All.{wire-read}
use rsocket.Codecs.Stream.{Yields, finished, frames_loop, deserialize_frames, send_all, yield_then}

-- A frame behind its length.
abbrev pub framed : Bytes → Bytes
framed b = be24 (to_u32 (pos (length b))) ++ b

-- What is left of a buffer that holds no whole frame: at most a length, or too few bytes behind it.
abbrev pub IsPartial : Bytes → Type 0
IsPartial t = (length t ≤ 3) ⊎ (length t < 3 + read_uint24 t (pos 0))

module _ (text : TextCodec) where
  pub serialize_frame_with_length-framed :
      (frame : Frame)
      → IsWritable frame
      → serialize_frame_with_length text frame ≡ ok (framed (wire text frame))
  unfolding serialize_frame_with_length write_uint24
  serialize_frame_with_length-framed frame w =
      let b = wire text frame in
      let f1 = write_uint24-Filled (pos (length b)) (alloc-Filled (length b + 3)) (omega arith) in
      let (b', o', e, f2) = copy-Filled b f1 (omega arith) in
      rw (serialize_frame-wire text frame w, e) (ap ok (Filled-full f2 (omega arith)))

  -- A frame that can be sent and read back, and whose length fits 24 bits.
  abbrev pub IsSendable : Frame → Type 0
  IsSendable frame = IsWritable frame × IsReadable text frame × (length (wire text frame) < 2 ^ 24)

  abbrev pub AllSendable : List Frame → Type 0
  AllSendable [] = Unit
  AllSendable (frame ∷ frames) = IsSendable frame × AllSendable frames

  abbrev pub stream_bytes : List Frame → Bytes
  stream_bytes [] = []
  stream_bytes (frame ∷ frames) = framed (wire text frame) ++ stream_bytes frames

  -- Each frame as it is read, with the offset behind it.
  abbrev pub delivered : ℕ → List Frame → Yields
  delivered offset [] = ([], finished)
  delivered offset (frame ∷ frames) =
      let end = offset + 3 + length (wire text frame) in
      yield_then (as_read frame, end) (delivered end frames)

  frames_loop_partial :
      (p t : Bytes) (fuel : ℕ)
      → IsPartial t
      → frames_loop text (suc fuel) (p ++ t) (length p) ≡ ([], finished)
  unfolding frames_loop
  frames_loop_partial p t fuel (inl h) = ground (arith, length-append p t)
  frames_loop_partial p t fuel (inr h) =
      let r = read_uint24-append p t (length p) refl in rw r (ground (arith, length-append p t))

  wire-positive : (frame : Frame) → IsReadable text frame → 0 < length (wire text frame)
  wire-positive (cancel f) r = omega arith
  wire-positive (error f) r = omega arith
  wire-positive (keepalive f) r = omega arith
  wire-positive (lease f) r = omega arith
  wire-positive (payload f) r = omega arith
  wire-positive (metadata_push f) r = omega arith
  wire-positive (request_n f) r = omega arith
  wire-positive (resume f) r = omega arith
  wire-positive (resume_ok f) r = omega arith
  wire-positive (setup f) r = omega arith
  wire-positive (ext f) r = omega arith
  wire-positive (request_fnf f) r = omega arith
  wire-positive (request_response f) r = omega arith
  wire-positive (request_stream f) r = omega arith
  wire-positive (request_channel f) r = omega arith
  wire-positive (unsupported f) r = absurd r

  frames_loop_round :
      (p b rest : Bytes) (found : Frame) (fuel : ℕ)
      → deserialize_frame text b ≡ ok found
      → length b < 2 ^ 24
      → 0 < length b
      → let buffer = p ++ (be24 (to_u32 (pos (length b))) ++ (b ++ rest)) in
        let end = length p + 3 + length b in
        frames_loop text (suc fuel) buffer (length p)
        ≡ yield_then (found, end) (frames_loop text fuel buffer end)
  unfolding frames_loop
  frames_loop_round p b rest found fuel read small more =
      let size = be24 (to_u32 (pos (length b))) in
      let (n, part) = sized_bytes p rest b (length p) refl small in
      let l1 = length-append p (size ++ (b ++ rest)) in
      let l2 = length-append b rest in
      let inside : ltb (length p + 3) (length (p ++ (size ++ (b ++ rest)))) ≡ true = ground arith in
      let whole : ltb (length (p ++ (size ++ (b ++ rest)))) (length p + 3 + length b) ≡ false =
        ground arith in
      rw (n, part, read, inside, whole, n) refl

  -- The loop from the offset of the first frame, with fuel for one round each and one more.
  frames_loop_all :
      (frames : List Frame) (p t : Bytes) (fuel : ℕ)
      → AllSendable frames
      → IsPartial t
      → length frames < fuel
      → frames_loop text fuel (p ++ (stream_bytes frames ++ t)) (length p)
        ≡ delivered (length p) frames
  frames_loop_all frames p t zero s h more = absurd (omega arith)
  frames_loop_all [] p t (suc fuel) s h more = frames_loop_partial p t fuel h
  frames_loop_all (frame ∷ frames) p t (suc fuel) ((w, r, small), s) h more =
      let b = wire text frame in
      let rest = stream_bytes frames ++ t in
      let here = framed b in
      let first =
        frames_loop_round p b rest (as_read frame) fuel (wire-read text frame r) small
          (wire-positive frame r) in
      let next = frames_loop_all frames (p ++ here) t fuel s h (omega arith) in
      let end : length (p ++ here) ≡ length p + 3 + length b =
        omega (arith, length-append p here) in
      let shift = append_assoc p here rest in
      let inner = append_assoc b (stream_bytes frames) t in
      rw (inner, first, sym shift)
        (rw (sym end) (ap (yield_then (as_read frame, length (p ++ here))) next))

  send_all-bytes :
      (frames : List Frame) → AllSendable frames → send_all text frames ≡ ok (stream_bytes frames)
  unfolding send_all
  send_all-bytes [] s = refl
  send_all-bytes (frame ∷ frames) ((w, r, small), s) =
      rw (serialize_frame_with_length-framed frame w, send_all-bytes frames s) refl

  length-stream_bytes : (frames : List Frame) → length frames ≤ length (stream_bytes frames)
  length-stream_bytes [] = omega arith
  length-stream_bytes (frame ∷ frames) =
      let l = length-append (framed (wire text frame)) (stream_bytes frames) in
      omega (arith, l, length-stream_bytes frames)

  -- Frames that are sent one after the other, each behind its length, and followed by the front `t`
  -- of a frame that has not arrived whole, are given back in order, each with the offset behind it,
  -- and the generator then finishes. Each frame is writable and readable, of less than 2 ^ 24 bytes.
  pub deserialize_frames-send_all :
      (frames : List Frame) (t : Bytes)
      → AllSendable frames
      → IsPartial t
      → (send_all text frames >>= λ b. ok (deserialize_frames text (b ++ t)))
        ≡ ok (delivered 0 frames)
  unfolding deserialize_frames
  deserialize_frames-send_all frames t s h =
      let b = stream_bytes frames in
      let l = length-append b t in
      rw (send_all-bytes frames s) (
        ap ok (
          frames_loop_all frames [] t (suc (length (b ++ t))) s h
            (omega (arith, length-stream_bytes frames))))
