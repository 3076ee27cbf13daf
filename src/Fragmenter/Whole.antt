-- ===== src/Fragmenter/Whole.antt =====
-- A fragmented payload as the other end receives it, all its frames together.
use rsocket.Prelude.{
  ℕ, suc, ◌+◌, ◌-◌, ◌*◌, ◌≤◌, ◌<◌, ◌≡◌, ap, ◌∙◌, Bool, true, false, Option, none, some, [], ◌∷◌,
  arith, length, drop, bit_or, if◌then◌else◌, ◌⊎◌, inl, inr, at_most-cases,
}
use rsocket.Prelude.Number.{Number, pos, sub-pos}
use rsocket.Prelude.Generator.{Generator, yield, return, ◌>>=◌, bind_assoc}
use rsocket.Bytes.{Bytes, subarray}
use rsocket.Frames.{Frame}
use rsocket.Frames.Flags
use rsocket.Reassembler.Shape.{
  idle, holder_of, extend, complete, complete-metadata, complete-metadata_parts,
}
use rsocket.Fragmenter.{
  metadata_loop, data_loop, first_data, metadata_part, fragments, metadata_room,
}
use rsocket.Fragmenter.Receive.{part_of, receive}
use rsocket.Fragmenter.Loops.{part-drop, part-end}
use rsocket.Fragmenter.Metadata.{metadata_loop-done, metadata_loop-Delivers}
use rsocket.Fragmenter.First.{
  metadata_follows-flags, first-more, data-receive, first_data-receive, first_metadata-full,
  first_metadata-kept,
}

-- The first frame counts the room of a request count twice, once with the metadata and once with the
-- data: the metadata leaves that much, or fills the frame.
abbrev pub LeavesRoom : ℕ → ℕ → Option Bytes → Type 0
LeavesRoom size cost none = Unit
LeavesRoom size cost (some []) = Unit
LeavesRoom size cost (some (x ∷ xs)) =
    (suc (length xs) + 3 + 2 * cost ≤ size) ⊎ (size ≤ suc (length xs) + 3 + cost)

module _ (id : Number) (size : ℕ) (is_complete : Bool)
    (first : ℕ → Option Bytes → Option Bytes → Frame) (cost : ℕ)
    (parts : (flags : ℕ) (body metadata : Option Bytes)
      → part_of (first flags body metadata)
        ≡ record { flags = flags; body = body; metadata = metadata })
    (roomy : 3 + cost < size) where
  -- Metadata that fills the first frame goes on in further frames.
  full-receive :
      (b m : Bytes)
      → let room = size - (3 + cost) in
        0 < length b
        → room ≤ length m
        → receive (holder_of idle) (
            yield
              (first
                (bit_or Flags.follows Flags.metadata)
                none
                (some (subarray m (pos 0) (pos room))))
              (metadata_loop id size is_complete
                  (suc (length m))
                  m
                  (length b)
                  (pos room)
                  (pos size)
                  none
                >>= (λ (remaining, metadata). return (false, remaining, metadata))
                >>= λ (first_frame, remaining, metadata).
                    (if first_frame
                      then first_data id size is_complete first cost (some b) remaining metadata
                        >>= (λ position. return (position, pos size, none))
                      else return (pos 0, remaining, metadata))
                    >>= λ (position, remaining, metadata).
                        data_loop id size is_complete
                          (suc (length b))
                          b
                          position
                          remaining
                          metadata))
          ≡ some (complete idle (some b) (some m))
  full-receive b m h full =
      let n = length m in
      let room = size - (3 + cost) in
      let part = subarray m (pos 0) (pos room) in
      let shape = extend idle none (some part) in
      let loop : ℕ → Generator Frame (Number × Option Bytes) =
        λ i. metadata_loop id size is_complete (suc n) m (length b) (pos i) (pos size) none in
      let tail : Number × Option Bytes → Generator Frame (Unit {0}) = λ (remaining, pending).
        data_loop id size is_complete (suc (length b)) b (pos 0) remaining pending in
      first-more id size is_complete first cost parts roomy idle _ none (some part) _
        (metadata_follows-flags (some part))
      ∙ ap (receive (holder_of shape)) (bind_assoc (loop room) _ _)
      ∙ elim (at_most-cases n room) [
        | inl whole ↦
            let room_n : room ≡ n = omega arith in
            ap (λ g. receive (holder_of shape) (g >>= tail))
              (ap loop room_n
                ∙ metadata_loop-done id size is_complete m (length b) h (suc n) (pos size) none
                    (omega arith))
            ∙ data-receive id size is_complete first cost parts roomy b shape size none h
                (omega arith)
            ∙ ap some (complete-metadata idle part b)
            ∙ ap (λ k. some (complete idle (some b) (some (subarray m (pos 0) (pos k))))) room_n
            ∙ ap (λ t. some (complete idle (some b) (some t))) (part-end m 0 (omega arith))
        | inr less ↦
            let sent =
              metadata_loop-Delivers id size is_complete m (length b) h n room size none shape
                (omega arith) (omega arith) less (omega arith) in
            sent.runs tail
            ∙ data-receive id size is_complete first cost parts roomy b sent.shape sent.room
                sent.pending h sent.roomy
            ∙ ap some (sent.same b)
            ∙ ap some (complete-metadata_parts idle part (drop room m) b)
            ∙ ap (λ t. some (complete idle (some b) (some t)))
                (part-drop m 0 room (omega arith) full)
      ]

  pub payload-receive :
      (b : Bytes) (m : Option Bytes)
      → 0 < length b
      → receive
          (holder_of idle)
          (fragments id size is_complete first cost false (record { body = some b; metadata = m }))
        ≡ some (record { body = some b; metadata = m })
  unfolding fragments metadata_part
  payload-receive b none h =
      data-receive id size is_complete first cost parts roomy b idle size none h (omega arith)
  payload-receive b (some []) h = rw (sub-pos size 3 (omega arith)) (
      data-receive id size is_complete first cost parts roomy b idle (size - 3) (some []) h
        (omega arith))
  payload-receive b (some (x ∷ xs)) h =
      let m = x ∷ xs in
      let sent =
        metadata_loop-Delivers id size is_complete m (length b) h (length m) 0 size none idle
          (omega arith) (omega arith) (omega arith) (omega arith) in
      ap (receive (holder_of idle)) (
        bind_assoc
          (metadata_loop id size is_complete (suc (length m)) m (length b) (pos 0) (pos size) none)
          _ _)
      ∙ sent.runs (λ (remaining, pending).
        data_loop id size is_complete (suc (length b)) b (pos 0) remaining pending)
      ∙ data-receive id size is_complete first cost parts roomy b sent.shape sent.room sent.pending
          h sent.roomy
      ∙ ap some (sent.same b)

  pub request-receive :
      (b : Bytes) (m : Option Bytes)
      → 0 < length b
      → size < length b + metadata_room m + cost
      → LeavesRoom size cost m
      → receive
          (holder_of idle)
          (fragments id size is_complete first cost true (record { body = some b; metadata = m }))
        ≡ some (record { body = some b; metadata = m })
  unfolding fragments metadata_part
  request-receive b none h big leaves =
      ap (receive (holder_of idle))
        (bind_assoc (first_data id size is_complete first cost (some b) (pos size) none) _ _)
      ∙ first_data-receive id size is_complete first cost parts roomy b size none (omega arith)
          (omega arith)
  request-receive b (some []) h big leaves = rw (sub-pos size 3 (omega arith)) (
      ap (receive (holder_of idle)) (
        bind_assoc (first_data id size is_complete first cost (some b) (pos (size - 3)) (some [])) _
          _)
      ∙ first_data-receive id size is_complete first cost parts roomy b (size - 3) (some [])
          (omega arith) (omega arith))
  request-receive b (some (x ∷ xs)) h big leaves =
      let m = x ∷ xs in
      let n = length m in
      let room = size - (3 + cost) in
      elim (at_most-cases room n) [
        | inl full ↦
            rw (first_metadata-full id size is_complete first cost parts roomy m full)
              (full-receive b m h full)
        | inr kept ↦
            rw
              (
                first_metadata-kept id size is_complete first cost parts roomy m kept,
                metadata_loop-done id size is_complete m (length b) h (suc n) (pos (room - n))
                    (some m) (omega arith),
              )
              (ap (receive (holder_of idle)) (
                  bind_assoc
                    (first_data id size is_complete first cost (some b) (pos (room - n)) (some m)) _
                    _)
                ∙ first_data-receive id size is_complete first cost parts roomy b (room - n)
                    (some m) (omega arith) (omega arith))
      ]
