-- ===== src/Resume/Tests.antt =====
-- The theorems on the frame store at concrete frames.
use rsocket.Prelude.{ℕ, ◌≡◌, refl, List, [], ◌∷◌, ◌++◌, arith}
use rsocket.Prelude.Number.{pos, add}
use rsocket.Prelude.Result.{ok}
use rsocket.Frames.{Frame, cancel}
use rsocket.Codecs.Common.{TextCodec}
use rsocket.Codecs.Size.{size_of_frame, size_of_cancel_frame}
use rsocket.Resume.{FrameStore, drop_to}
use rsocket.Resume.Positions.{
  HasBytes, no_bytes, more_bytes, IsStore, drop_to-front, drop_to-IsStore,
}

abbrev ascii : TextCodec
ascii = record { encode = λ s. s; decode = λ b. b }

abbrev stop : ℕ → Frame
stop id = cancel (record { flags = 0; stream_id = pos id })

size_of_frame-stop : (id : ℕ) → size_of_frame ascii (stop id) ≡ ok 6
unfolding size_of_frame size_of_cancel_frame
size_of_frame-stop id = refl

-- Two frames of six bytes, behind four bytes that were received.
abbrev two_frames : FrameStore
two_frames = record {
  stored_frames = stop 1 ∷ stop 3 ∷ [];
  last_received = pos 0;
  first_available = pos 4;
  last_sent = pos 16;
}

two_frames-IsStore : IsStore ascii two_frames
two_frames-IsStore = record {
  first = 4;
  bytes = 12;
  first_available = refl;
  stored =
      more_bytes (size_of_frame-stop 1) (omega arith)
        (more_bytes (size_of_frame-stop 3) (omega arith) no_bytes);
  last_sent = refl;
}

drop_two :
    drop_to ascii two_frames (pos 10)
    ≡ (ok tt, record two_frames { stored_frames = stop 3 ∷ []; first_available = pos 10 })
drop_two =
    drop_to-front ascii two_frames (stop 1 ∷ []) (stop 3 ∷ []) 6 4 refl refl
      (more_bytes (size_of_frame-stop 1) (omega arith) no_bytes)

abbrev one_frame : FrameStore
one_frame = record two_frames { stored_frames = stop 3 ∷ []; first_available = pos 10 }

drop_to-IsStore_example :
    IsStore ascii one_frame
    × (one_frame.first_available ≡ pos 10)
    × ((xs : List Frame) × (m : ℕ) × (two_frames.stored_frames ≡ xs ++ one_frame.stored_frames)
        × HasBytes ascii xs m
        × (add two_frames.first_available (pos m) ≡ pos 10))
drop_to-IsStore_example = drop_to-IsStore ascii two_frames one_frame 10 two_frames-IsStore drop_two
