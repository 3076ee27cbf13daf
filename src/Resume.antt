-- ===== src/Resume.antt =====
-- packages/rsocket-core/src/Resume.ts: the frames that a resumable connection keeps until the peer
-- has received them, with the positions of the two directions in bytes. A method that throws returns
-- the store as the throw leaves it.
pub mod Positions
pub mod Stores
pub mod Tests
use rsocket.Prelude.{ℕ, ◌+◌, Bool, true, false, List, [], ◌∷◌, ◌++◌, if◌then◌else◌}
use rsocket.Prelude.Number.{Number, pos, add, sub, lt, eq}
use rsocket.Prelude.Result.{Error, connection_error, Result, ok, err, ◌>>=◌}
use rsocket.Frames.{Frame}
use rsocket.Codecs.Common.{TextCodec}
use rsocket.Codecs.Size.{size_of_frame}

pub record FrameStore : Type 0 where
  pub stored_frames : List Frame
  pub last_received : Number
  pub first_available : Number
  pub last_sent : Number

-- `new FrameStore()`
abbrev pub new_store : FrameStore
new_store = record {
  stored_frames = [];
  last_received = pos 0;
  first_available = pos 0;
  last_sent = pos 0;
}

module _ (text : TextCodec) where
  unfoldable pub store : FrameStore → Frame → Result FrameStore
  store s frame = do
    size ← size_of_frame text frame
    ok (record s {
      last_sent = add s.last_sent (pos size);
      stored_frames = s.stored_frames ++ (frame ∷ []);
    })

  -- `record`
  unfoldable pub record_received : FrameStore → Frame → Result FrameStore
  record_received s frame = do
    size ← size_of_frame text frame
    ok (record s { last_received = add s.last_received (pos size) })

  -- The loop of `dropTo`: `bytesToDrop` at its end, and the frames that are left.
  unfoldable pub drop_loop : List Frame → Number → Result Number × List Frame
  drop_loop [] bytes_to_drop = (ok bytes_to_drop, [])
  drop_loop (frame ∷ frames) bytes_to_drop =
      let shifted : Result Number × List Frame = elim (size_of_frame text frame) [
        | ok size ↦ drop_loop frames (sub bytes_to_drop (pos size))
        | err e ↦ (err e, frames)
      ] in
      if lt (pos 0) bytes_to_drop then shifted else (ok bytes_to_drop, frame ∷ frames)

  abbrev pub after_drop :
      FrameStore → Number → Result Number × List Frame → Result (Unit {0}) × FrameStore
  after_drop s position (err e, frames) = (err e, record s { stored_frames = frames })
  after_drop s position (ok bytes, frames) =
      if eq bytes (pos 0)
      then (ok tt, record s { stored_frames = frames; first_available = position })
      else (err connection_error, record s { stored_frames = frames })

  unfoldable pub drop_to : FrameStore → Number → Result (Unit {0}) × FrameStore
  drop_to s position =
      after_drop s position (drop_loop s.stored_frames (sub position s.first_available))

-- `drain`: the calls of the consumer.
unfoldable pub drain : FrameStore → List Frame
drain s = s.stored_frames
