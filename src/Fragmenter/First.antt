-- ===== src/Fragmenter/First.antt =====
-- The first frame of a fragmented payload, and the data behind it.
use rsocket.Prelude.{
  ℕ, suc, ◌+◌, ◌-◌, ◌≤◌, ◌<◌, min, ◌≡◌, refl, ap, ◌∙◌, Bool, true, false, Option, none, some, arith,
  length, drop, ◌==◌, bit_or,
}
use rsocket.Prelude.Number.{Number, pos, sub-pos}
use rsocket.Prelude.Generator.{Generator, yield, return, ◌>>=◌}
use rsocket.Bytes.{Bytes, subarray}
use rsocket.Frames.{Frame}
use rsocket.Frames.Flags
use rsocket.Reassembler.Shape.{Shape, idle, holder_of, extend, complete, complete-body}
use rsocket.Fragmenter.{data_loop, first_metadata, first_data, metadata_flag}
use rsocket.Fragmenter.Receive.{Part, part_of, receive, receive-more}
use rsocket.Fragmenter.Loops.{next-min, length-part, part-drop, part-end, data_loop-receive}

pub metadata_follows-flags :
    (m : Option Bytes) → Flags.has_follows (bit_or Flags.follows (metadata_flag m)) ≡ true
unfolding Flags.has_follows
metadata_follows-flags none = refl
metadata_follows-flags (some m) = refl

module _ (id : Number) (size : ℕ) (is_complete : Bool)
    (first : ℕ → Option Bytes → Option Bytes → Frame) (cost : ℕ)
    (parts : (flags : ℕ) (body metadata : Option Bytes)
      → part_of (first flags body metadata)
        ≡ record { flags = flags; body = body; metadata = metadata })
    (roomy : 3 + cost < size) where
  pub first-more :
      (s : Shape) (flags : ℕ) (body metadata : Option Bytes) (g : Generator Frame (Unit {0}))
      → Flags.has_follows flags ≡ true
      → receive (holder_of s) (yield (first flags body metadata) g)
        ≡ receive (holder_of (extend s body metadata)) g
  first-more s flags body metadata g h =
      let e = parts flags body metadata in
      receive-more s (first flags body metadata) g
        (ap (λ (p : Part). Flags.has_follows p.flags) e ∙ h)
      ∙ ap (λ (p : Part). receive (holder_of (extend s p.body p.metadata)) g) e

  -- The data, when the first frame is sent and `room` is left.
  pub data-receive :
      (b : Bytes) (s : Shape) (room : ℕ) (m : Option Bytes)
      → 0 < length b
      → 0 < room
      → receive
          (holder_of s)
          (data_loop id size is_complete (suc (length b)) b (pos 0) (pos room) m)
        ≡ some (complete s (some b) m)
  data-receive b s room m h r =
      data_loop-receive id size (omega arith) is_complete (suc (length b)) b 0 room s m h r
        (omega arith)

  -- The data, when the first frame still has to be sent and data is left over behind it.
  pub first_data-receive :
      (b : Bytes) (room : ℕ) (m : Option Bytes)
      → cost ≤ room
      → room - cost < length b
      → receive (holder_of idle) (
          first_data id size is_complete first cost (some b) (pos room) m >>= λ position.
          data_loop id size is_complete (suc (length b)) b position (pos size) none)
        ≡ some (complete idle (some b) m)
  unfolding first_data
  first_data-receive b room m h left =
      let n = length b in
      let q = room - cost in
      let zero_add : min n (0 + q) ≡ q = omega arith in
      let part = subarray b (pos 0) (pos q) in
      rw (sub-pos room cost h, next-min n 0 q, zero_add)
        (first-more idle _ _ m _ (metadata_follows-flags m)
          ∙ data_loop-receive id size (omega arith) is_complete (suc n) b q size
              (extend idle (some part) m) none left (omega arith) (omega arith)
          ∙ ap some (complete-body idle part (drop q b) m)
          ∙ ap (λ t. some (complete idle (some t) m)) (part-drop b 0 q (omega arith) (omega arith)))

  -- The first frame is full of metadata.
  pub first_metadata-full :
      (m : Bytes)
      → let room = size - (3 + cost) in
        room ≤ length m
        → first_metadata id size is_complete first cost m
          ≡ yield
              (first
                (bit_or Flags.follows Flags.metadata)
                none
                (some (subarray m (pos 0) (pos room))))
              (return (false, pos room, pos size, none))
  unfolding first_metadata
  first_metadata-full m full =
      let room = size - (3 + cost) in
      let cut : min (length m) (0 + room) ≡ room = omega arith in
      let left : room - (room - 0) ≡ 0 = omega arith in
      rw
        (
          sub-pos size (3 + cost) (omega arith),
          next-min (length m) 0 room,
          cut,
          length-part m 0 room (omega arith) full,
          sub-pos room (room - 0) (omega arith),
          left,
        )
        refl

  -- The first frame has room left behind the metadata.
  pub first_metadata-kept :
      (m : Bytes)
      → let room = size - (3 + cost) in
        length m < room
        → first_metadata id size is_complete first cost m
          ≡ return (true, pos (length m), pos (room - length m), some m)
  unfolding first_metadata
  first_metadata-kept m kept =
      let room = size - (3 + cost) in
      let n = length m in
      let cut : min n (0 + room) ≡ n = omega arith in
      let left : (room - (n - 0)) == 0 ≡ false = ground arith in
      let same : room - (n - 0) ≡ room - n = omega arith in
      rw
        (
          sub-pos size (3 + cost) (omega arith),
          next-min n 0 room,
          cut,
          length-part m 0 n (omega arith) (omega arith),
          sub-pos room (n - 0) (omega arith),
          left,
          same,
        )
        (ap (λ t. return (true, pos n, pos (room - n), some t)) (part-end m 0 (omega arith)))
