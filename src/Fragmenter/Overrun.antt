-- ===== src/Fragmenter/Overrun.antt =====
-- Where the room of a request count is counted twice: metadata that ends one or two bytes before the
-- end of the first frame.
use rsocket.Prelude.{
  ℕ, suc, ◌+◌, ◌-◌, ◌<◌, ◌≡◌, refl, ap, Bool, some, none, ◌∷◌, arith, min, length, take, bit_or,
}
use rsocket.Prelude.Number.{Number, pos, negsuc, add, min_number, sub-negative}
use rsocket.Prelude.Generator.{Generator, yield}
use rsocket.Bytes.{Bytes, subarray}
use rsocket.Frames.{Frame}
use rsocket.Frames.Flags
use rsocket.Fragmenter.{
  ManyKind, request_many_frame, fragment_with_request_n, fragments, metadata_part, first_data,
  data_loop,
}
use rsocket.Fragmenter.First.{first_metadata-kept}
use rsocket.Fragmenter.Metadata.{metadata_loop-done}
use rsocket.Fragmenter.RoundTrip.{request_many_frame-part}

min-negative : (n k : ℕ) → min_number (pos n) (add (pos 0) (negsuc k)) ≡ negsuc k
min-negative n k = ground arith

part-negative : (b : Bytes) (k : ℕ) → subarray b (pos 0) (negsuc k) ≡ take (length b - (k + 1)) b
unfolding subarray
part-negative b k =
    let start : min 0 (length b) ≡ 0 = omega arith in
    let n : length b - (k + 1) - 0 ≡ length b - (k + 1) = omega arith in rw (start, n) refl

-- Where metadata ends one or two bytes before the end of the first frame, that frame of
-- `fragmentWithRequestN` carries all the data but its last two or one bytes, whatever their number
-- and the size of a fragment.
pub fragment_with_request_n_overrun :
    (id n : Number) (b : Bytes) (x : ℕ) (xs : Bytes) (size : ℕ) (kind : ManyKind)
    (is_complete : Bool)
    → 0 < length b
    → length (x ∷ xs) + 6 < size
    → size < length (x ∷ xs) + 9
    → (rest : Generator Frame (Unit {0})) × (fragment_with_request_n id
          (record { body = some b; metadata = some (x ∷ xs) })
          size
          kind
          n
          is_complete
        ≡ yield
            (request_many_frame kind id n
              (bit_or Flags.follows Flags.metadata)
              (some (take (length b - (length (x ∷ xs) + 9 - size)) b))
              (some (x ∷ xs)))
            rest)
unfolding fragment_with_request_n fragments metadata_part first_data
fragment_with_request_n_overrun id n b x xs size kind is_complete h above below =
    let m = x ∷ xs in
    let room = size - 6 in
    let first = request_many_frame kind id n in
    let left = room - length m in
    let rest =
      data_loop id size is_complete (suc (length b)) b (negsuc (3 - left - 1)) (pos size) none in
    (
      rest,
      rw
          (
            first_metadata-kept id size is_complete first 3 (request_many_frame-part kind id n)
                (omega arith) m (omega arith),
            metadata_loop-done id size is_complete m (length b) h (suc (length m)) (pos left)
                (some m) (omega arith),
            sub-negative left 3 (omega arith),
            min-negative (length b) (3 - left - 1),
            part-negative b (3 - left - 1),
          )
          (ap
            (λ k.
              yield
                (first (bit_or Flags.follows Flags.metadata) (some (take (length b - k) b))
                  (some m))
                rest)
            (omega arith)),
    )
