-- ===== src/Codecs/Stream/Ends.antt =====
-- The loop of `deserializeFrames` ends.
use rsocket.Prelude.{ℕ, zero, suc, ◌+◌, ◌≤◌, ◌<◌, ◌≢◌, arith, length}
use rsocket.Prelude.Number.{pos}
use rsocket.Bytes.{Bytes, read_uint24}
use rsocket.Codecs.Common.{TextCodec}
use rsocket.Codecs.Stream.{out_of_fuel, frames_loop, deserialize_frames}

module _ (text : TextCodec) where
  frames_loop_ends :
      (fuel : ℕ) (buffer : Bytes) (offset : ℕ)
      → length buffer < fuel + offset
      → offset ≤ length buffer
      → (frames_loop text fuel buffer offset).1 ≢ out_of_fuel
  unfolding frames_loop
  frames_loop_ends zero buffer offset h at = absurd (omega arith)
  frames_loop_ends (suc fuel) buffer offset h at =
      let end = offset + 3 + read_uint24 buffer (pos offset) in
      ground (arith, frames_loop_ends fuel buffer end)

  -- On every buffer the loop of `deserializeFrames` ends: by its test, by a frame that has not
  -- arrived whole, or by an error.
  pub deserialize_frames_ends : (buffer : Bytes) → (deserialize_frames text buffer).1 ≢ out_of_fuel
  unfolding deserialize_frames
  deserialize_frames_ends buffer =
      frames_loop_ends (suc (length buffer)) buffer 0 (omega arith) (omega arith)
