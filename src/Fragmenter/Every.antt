-- ===== src/Fragmenter/Every.antt =====
-- What the frames of `fragment` have in common, whatever it is: a property of every frame that the
-- loops yield, from what they know of its flags, its length and its metadata.
use rsocket.Prelude.{
  ℕ, zero, suc, ◌+◌, ◌-◌, ◌*◌, ◌⊎◌, ◌≤◌, ◌<◌, min, ◌≡◌, refl, sym, subst, Bool, true, false, ◌||◌,
  ◌&&◌, Option, none, some, [], ◌∷◌, bit_or, arith, length, ltb, ◌==◌, if◌then◌else◌, Bool-cases,
  inl, inr, at_most-cases,
}
use rsocket.Prelude.Number.{Number, pos, sub-pos}
use rsocket.Prelude.Generator.{Generator, return, ◌>>=◌, bind_assoc, Every}
use rsocket.Bytes.{Bytes, subarray}
use rsocket.Frames.{Frame}
use rsocket.Frames.Flags
use rsocket.Reassembler.{Payload}
use rsocket.Fragmenter.{
  Kind, payload_kind, fnf_kind, response_kind, request_frame, fragment, fragments,
  fragment_with_request_n, ManyKind, request_many_frame, metadata_loop, data_loop, metadata_part,
  first_data, metadata_room, byte_length, metadata_flag, slice_of,
}
use rsocket.Fragmenter.Receive.{part_of}
use rsocket.Fragmenter.Loops.{next-min, length-part}
use rsocket.Fragmenter.First.{first_metadata-full, first_metadata-kept}
use rsocket.Fragmenter.RoundTrip.{request_frame-part, request_many_frame-part}

or-left : (a b : Bool) → (a || b) ≡ false → a ≡ false
or-left true b h = h
or-left false b h = refl

-- The flags of a frame behind the first, with metadata alone and with data.
abbrev pub metadata_flags : Bool → ℕ
metadata_flags last =
    bit_or (bit_or Flags.next Flags.metadata) (if last then Flags.complete else Flags.follows)

abbrev pub data_flags : Bool → Bool → Option Bytes → ℕ
data_flags is_complete last m =
    if last
    then bit_or (bit_or (if is_complete then Flags.complete else Flags.no_flags) Flags.next)
        (metadata_flag m)
    else bit_or (bit_or Flags.follows Flags.next) (metadata_flag m)

-- A part that is none, or holds bytes.
abbrev pub NotEmpty : Option Bytes → Type 0
NotEmpty none = Unit
NotEmpty (some b) = 0 < length b

-- The front of a part is not longer than it is cut to, and not empty unless the part is.
slice_of-front :
    (whole : Option Bytes) (r : ℕ)
    → 0 < r
    → let part = slice_of whole (pos 0) (pos (min (byte_length whole) (0 + r))) in
      (byte_length part ≤ r) × (NotEmpty whole → NotEmpty part)
slice_of-front none r more = (omega arith, λ h. h)
slice_of-front (some b) r more =
    let l = length-part b 0 (min (length b) (0 + r)) (omega arith) (omega arith) in
    (omega (arith, l), λ h. omega (arith, l))

-- The metadata fills the first frame, or leaves more than twice the room of a request count.
abbrev pub HasRoom : ℕ → ℕ → Option Bytes → Type 0
HasRoom size cost none = Unit
HasRoom size cost (some []) = Unit
HasRoom size cost (some (x ∷ xs)) =
    (suc (length xs) + 3 + 2 * cost < size) ⊎ (size ≤ suc (length xs) + 3 + cost)

no_count : (size : ℕ) (m : Option Bytes) → HasRoom size 0 m
no_count size none = tt
no_count size (some []) = tt
no_count size (some (x ∷ xs)) = ground arith

-- `P` is the property, and `Part` what the metadata of each frame meets.
module _ (P : Frame → Type 0) (Part : Option Bytes → Type 0) (of_none : Part none)
    (of_bytes : (m : Bytes) → 0 < length m → Part (some m)) (id : Number) (size : ℕ)
    (is_complete : Bool) (roomy : 3 < size)
    (on_metadata : (last : Bool) (m : Bytes)
      → Part (some m)
      → length m + 3 ≤ size
      → P (request_frame payload_kind id (metadata_flags last) none (some m)))
    (on_data : (last : Bool) (b : Bytes) (m : Option Bytes)
      → 0 < length b
      → Part m
      → length b + metadata_room m ≤ size
      → P (request_frame payload_kind id (data_flags is_complete last m) (some b) m)) where
  data_loop-Every :
      (fuel : ℕ) (b : Bytes) (p r : ℕ) (m : Option Bytes)
      → Part m
      → 0 < r
      → r + metadata_room m ≤ size
      → Every P (data_loop id size is_complete fuel b (pos p) (pos r) m)
  unfolding data_loop
  data_loop-Every zero b p r m part more h = tt
  data_loop-Every (suc fuel) b p r m part more h =
      let n = length b in
      let q = min n (p + r) in
      elim (Bool-cases (ltb p n)) [
        | inr stop ↦ rw stop tt
        | inl go ↦
            let inside : p < n = ground arith in
            let l = length-part b p q (omega arith) (omega arith) in
            rw (go, next-min n p r)
              (
                on_data (q == n) (subarray b (pos p) (pos q)) m (omega (arith, l)) part
                    (omega (arith, l)),
                data_loop-Every fuel b q size none of_none (omega arith) (omega arith),
              )
      ]

  metadata_loop-Every :
      (source : Bytes) (data_length : ℕ) (k : Number × Option Bytes → Generator Frame (Unit {0}))
      → ((r : ℕ) (m : Option Bytes)
          → Part m
          → 0 < r
          → r + metadata_room m ≤ size
          → Every P (k (pos r, m)))
      → (fuel p r : ℕ) (m : Option Bytes) → Part m
      → 0 < r
      → r + metadata_room m ≤ size
      → (p < length source → 3 < r)
      → p ≤ length source
      → Every P (metadata_loop id size is_complete fuel source data_length (pos p) (pos r) m >>= k)
  unfolding metadata_loop
  metadata_loop-Every source data_length k rest zero p r m part left h more past = tt
  metadata_loop-Every source data_length k rest (suc fuel) p r m part some_room h more past =
      let n = length source in
      let q = min n (p + (r - 3)) in
      let piece = subarray source (pos p) (pos q) in
      elim (Bool-cases (ltb p n)) [
        | inr stop ↦ rw stop (rest r m part some_room h)
        | inl go ↦
            let inside : p < n = ground arith in
            let hr = more inside in
            let l = length-part source p q (omega arith) (omega arith) in
            let left = r - 3 - (q - p) in
            let cut = of_bytes piece (omega (arith, l)) in
            elim (Bool-cases (left == 0 || data_length == 0)) [
              | inl out ↦
                  rw
                    (
                      go,
                      sub-pos r 3 (omega arith),
                      next-min n p (r - 3),
                      l,
                      sub-pos (r - 3) (q - p) (omega arith),
                      out,
                    )
                    (
                      on_metadata (q == n && is_complete && data_length == 0) piece cut
                          (omega (arith, l)),
                      metadata_loop-Every source data_length k rest fuel q size none of_none
                          (omega arith) (omega arith) (λ less. roomy) (omega arith),
                    )
              | inr kept ↦
                  let some_left : 0 < left =
                    ground (arith, or-left (left == 0) (data_length == 0) kept) in
                  let end : q ≡ n = ground arith in
                  rw
                    (
                      go,
                      sub-pos r 3 (omega arith),
                      next-min n p (r - 3),
                      l,
                      sub-pos (r - 3) (q - p) (omega arith),
                      kept,
                    )
                    (metadata_loop-Every source data_length k rest fuel q left (some piece) cut
                      some_left (omega (arith, l)) (λ less. absurd (omega arith)) (omega arith))
            ]
      ]

  payload-Every :
      (first : ℕ → Option Bytes → Option Bytes → Frame) (body metadata : Option Bytes)
      → Part metadata
      → Every P (
          fragments id size is_complete first 0 false (record { body = body; metadata = metadata }))
  unfolding fragments metadata_part
  payload-Every first body none part =
      data_loop-Every _ _ 0 size none part (omega arith) (omega arith)
  payload-Every first body (some []) part =
      rw (sub-pos size 3 (omega arith))
        (data_loop-Every _ _ 0 (size - 3) (some []) part (omega arith) (omega arith))
  payload-Every first body (some (x ∷ xs)) part =
      let source = x ∷ xs in
      let n = byte_length body in
      let loop =
        metadata_loop id size is_complete (suc (length source)) source n (pos 0) (pos size) none in
      subst (Every P) (sym (bind_assoc loop _ _)) (
        metadata_loop-Every source n _ (λ r m. data_loop-Every _ _ 0 r m) (suc (length source)) 0
          size none of_none (omega arith) (omega arith) (λ less. roomy) (omega arith))

  -- Behind all the metadata the loop returns.
  metadata_loop-end :
      (source : Bytes) (data_length fuel r : ℕ) (m : Option Bytes)
      → metadata_loop id size is_complete
          (suc fuel)
          source
          data_length
          (pos (length source))
          (pos r)
          m
        ≡ return (pos r, m)
  unfolding metadata_loop
  metadata_loop-end source data_length fuel r m =
      let stop : ltb (length source) (length source) ≡ false = ground arith in rw stop refl

  -- `cost` is the room of a request count, which the first frame counts twice.
  module _ (first : ℕ → Option Bytes → Option Bytes → Frame) (cost : ℕ)
      (parts : (flags : ℕ) (body metadata : Option Bytes)
        → part_of (first flags body metadata)
          ≡ record { flags = flags; body = body; metadata = metadata })
      (costs : 3 + cost < size) (body : Option Bytes)
      (on_first : (b m : Option Bytes)
        → (NotEmpty body → NotEmpty b)
        → Part m
        → byte_length b + metadata_room m + cost ≤ size
        → P (first (bit_or Flags.follows (metadata_flag m)) b m)) where
    first_data-Every :
        (b : Bytes) (fuel r : ℕ) (m : Option Bytes)
        → Part m
        → cost < r
        → r + metadata_room m ≤ size
        → Every P (
            first_data id size is_complete first cost body (pos r) m
            >>= (λ position. return (position, pos size, none))
            >>= (λ (position, remaining, pending).
                data_loop id size is_complete fuel b position remaining pending))
    unfolding first_data
    first_data-Every b fuel r m part more h =
        let q = min (byte_length body) (0 + (r - cost)) in
        let (bound, kept) = slice_of-front body (r - cost) (omega arith) in
        rw (sub-pos r cost (omega arith), next-min (byte_length body) 0 (r - cost))
          (
            on_first (slice_of body (pos 0) (pos q)) m kept part (omega (arith, bound)),
            data_loop-Every fuel b q size none of_none (omega arith) (omega arith),
          )

    request-Every :
        (metadata : Option Bytes)
        → Part metadata
        → HasRoom size cost metadata
        → Every P (
            fragments id size is_complete first cost true
              (record { body = body; metadata = metadata }))
    unfolding fragments metadata_part
    request-Every none part room = first_data-Every _ _ size none part (omega arith) (omega arith)
    request-Every (some []) part room =
        rw (sub-pos size 3 (omega arith))
          (first_data-Every _ _ (size - 3) (some []) part (omega arith) (omega arith))
    request-Every (some (x ∷ xs)) part has_room =
        let source = x ∷ xs in
        let n = length source in
        let room = size - (3 + cost) in
        let loop : Generator Frame (Number × Option Bytes) =
          metadata_loop id size is_complete (suc n) source (byte_length body) (pos room) (pos size)
            none in
        elim (at_most-cases room n) [
          | inl full ↦
              let piece = subarray source (pos 0) (pos room) in
              let l = length-part source 0 room (omega arith) full in
              rw (first_metadata-full id size is_complete first cost parts costs source full) (
                on_first none (some piece) (λ h. tt) (of_bytes piece (omega (arith, l)))
                    (omega (arith, l)),
                subst (Every P) (sym (bind_assoc loop _ _)) (
                    metadata_loop-Every source (byte_length body) _
                      (λ r m. data_loop-Every _ _ 0 r m) (suc n) room size none of_none
                      (omega arith) (omega arith) (λ less. roomy) full),
              )
          | inr kept ↦
              rw
                (
                  first_metadata-kept id size is_complete first cost parts costs source kept,
                  metadata_loop-end source (byte_length body) n (room - n) (some source),
                )
                (first_data-Every _ _ (room - n) (some source) part (ground arith) (omega arith))
        ]

  pub fragment-Every :
      (content : Payload) (kind : Kind)
      → Part content.metadata
      → ((b m : Option Bytes)
          → (NotEmpty content.body → NotEmpty b)
          → Part m
          → byte_length b + metadata_room m + 0 ≤ size
          → P (request_frame kind id (bit_or Flags.follows (metadata_flag m)) b m))
      → Every P (fragment id content size kind is_complete)
  unfolding fragment
  fragment-Every content payload_kind part on_first =
      payload-Every (request_frame payload_kind id) content.body content.metadata part
  fragment-Every content fnf_kind part on_first =
      request-Every (request_frame fnf_kind id) 0 (request_frame-part fnf_kind id) (omega arith)
        content.body on_first content.metadata part (no_count size content.metadata)
  fragment-Every content response_kind part on_first =
      request-Every (request_frame response_kind id) 0 (request_frame-part response_kind id)
        (omega arith) content.body on_first content.metadata part (no_count size content.metadata)

  pub fragment_with_request_n-Every :
      (content : Payload) (kind : ManyKind) (n : Number)
      → 6 < size
      → Part content.metadata
      → HasRoom size 3 content.metadata
      → ((b m : Option Bytes)
          → (NotEmpty content.body → NotEmpty b)
          → Part m
          → byte_length b + metadata_room m + 3 ≤ size
          → P (request_many_frame kind id n (bit_or Flags.follows (metadata_flag m)) b m))
      → Every P (fragment_with_request_n id content size kind n is_complete)
  unfolding fragment_with_request_n
  fragment_with_request_n-Every content kind n more part room on_first =
      request-Every (request_many_frame kind id n) 3 (request_many_frame-part kind id n)
        (omega arith) content.body on_first content.metadata part room
