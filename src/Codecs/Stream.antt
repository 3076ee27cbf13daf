-- ===== src/Codecs/Stream.antt =====
-- `deserializeFrames` of Codecs.ts: the frames at the front of a buffer, each behind its length. The
-- generator's yields are a list, with how it ends. Its loop is on fuel: `Stream.Ends` shows that the
-- fuel given is enough.
pub mod Ends
pub mod RoundTrip
use rsocket.Prelude.{ℕ, zero, suc, ◌+◌, List, [], ◌∷◌, ◌++◌, length, ltb, if◌then◌else◌}
use rsocket.Prelude.Number.{pos, to_u32}
use rsocket.Prelude.Result.{Error, Result, ok, err, ◌>>=◌}
use rsocket.Bytes.{Bytes, read_uint24, subarray}
use rsocket.Bytes.Filled.{be24}
use rsocket.Frames.{Frame}
use rsocket.Codecs.Common.{TextCodec, uint24_size}
use rsocket.Codecs.Serialize.{serialize_frame_with_length}
use rsocket.Codecs.Deserialize.{deserialize_frame}

-- How the generator ends.
pub data Stop : Type 0 where
  finished : Stop
  thrown : Error → Stop
  out_of_fuel : Stop

abbrev pub Yields : Type 0
Yields = List (Frame × ℕ) × Stop

abbrev pub yield_then : Frame × ℕ → Yields → Yields
yield_then x (xs, stop) = (x ∷ xs, stop)

module _ (text : TextCodec) where
  unfoldable pub frames_loop : ℕ → Bytes → ℕ → Yields
  frames_loop zero buffer offset = ([], out_of_fuel)
  frames_loop (suc fuel) buffer offset =
      let start = offset + uint24_size in
      let end = start + read_uint24 buffer (pos offset) in
      let round : Yields = elim (deserialize_frame text (subarray buffer (pos start) (pos end))) [
        | ok frame ↦ yield_then (frame, end) (frames_loop fuel buffer end)
        | err e ↦ ([], thrown e)
      ] in
      if ltb start (length buffer)
      then if ltb (length buffer) end then ([], finished) else round
      else ([], finished)

  -- A round moves the offset by three bytes at least.
  unfoldable pub deserialize_frames : Bytes → Yields
  deserialize_frames buffer = frames_loop (suc (length buffer)) buffer 0

  -- What a connection carries for a list of frames that are sent on it.
  unfoldable pub send_all : List Frame → Result Bytes
  send_all [] = ok []
  send_all (frame ∷ frames) = do
    b ← serialize_frame_with_length text frame
    rest ← send_all frames
    ok (b ++ rest)
