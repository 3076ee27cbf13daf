-- ===== src/Streams/Endings.antt =====
-- How many of the frames that `fragment` makes of a response say COMPLETE.
use rsocket.Prelude.{
  List, ℕ, zero, suc, ◌≤◌, ◌≡◌, refl, sym, subst, Bool, true, false, ◌&&◌, ◌||◌, Option, none, some,
  [], ◌∷◌, bit_or, length, ◌==◌, if◌then◌else◌, Bool-cases, inl, inr, arith, map,
}
use rsocket.Prelude.Number.{Number, nan, pos, negsuc, add, sub, lt, eq, min_number}
use rsocket.Prelude.Generator.{Generator, ◌>>=◌, bind_assoc, yields}
use rsocket.Bytes.{Bytes, subarray}
use rsocket.Frames.{Frame, type_of}
use rsocket.Frames.Flags
use rsocket.Reassembler.{Payload}
use rsocket.Frames.FrameTypes
use rsocket.Fragmenter.{
  is_fragmentable, payload_kind, fragment, fragments, metadata_loop, data_loop, metadata_part,
  metadata_flag, byte_length, or_empty,
}
use rsocket.Streams.{registered_after, sent}
use rsocket.Streams.Sending.{response_frames, complaint, cancel_receiver}
use rsocket.Streams.Runs.{total, sent_ending, bit}

abbrev pub endings {ℓ} : {A : Type ℓ} → Generator Frame A → ℕ
endings g = total sent_ending (map sent (yields g))

eq-lt : (a : Number) (n : ℕ) → eq a (pos n) ≡ true → lt a (pos n) ≡ false
eq-lt nan n e = refl
eq-lt (pos a) n e = ground arith
eq-lt (negsuc a) n e = absurd cc

last-has_complete :
    (end : Bool) (m : Option Bytes)
    → Flags.has_complete (
        bit_or
          (bit_or (if end then Flags.complete else Flags.no_flags) Flags.next)
          (metadata_flag m))
      ≡ end
unfolding Flags.has_complete
last-has_complete true none = refl
last-has_complete true (some m) = refl
last-has_complete false none = refl
last-has_complete false (some m) = refl

more-has_complete :
    (m : Option Bytes)
    → Flags.has_complete (bit_or (bit_or Flags.follows Flags.next) (metadata_flag m)) ≡ false
unfolding Flags.has_complete
more-has_complete none = refl
more-has_complete (some m) = refl

metadata-has_complete :
    (last : Bool)
    → Flags.has_complete
        (bit_or (bit_or Flags.next Flags.metadata) (if last then Flags.complete else Flags.follows))
      ≡ last
unfolding Flags.has_complete
metadata-has_complete true = refl
metadata-has_complete false = refl

all_three : (a b c : Bool) → (a && b && c) ≡ true → (a ≡ true) × (b ≡ true) × (c ≡ true)
all_three true true true e = (refl, refl, refl)
all_three true true false e = absurd cc
all_three true false c e = absurd cc
all_three false b c e = absurd cc

module _ (id : Number) (size : ℕ) (is_complete : Bool) where
  data_loop-past :
      (fuel : ℕ) (b : Bytes) (p r : Number) (m : Option Bytes)
      → lt p (pos (length b)) ≡ false
      → endings (data_loop id size is_complete fuel b p r m) ≡ 0
  unfolding data_loop
  data_loop-past zero b p r m stop = refl
  data_loop-past (suc fuel) b p r m stop = rw stop refl

  data_loop-endings :
      (fuel : ℕ) (b : Bytes) (p r : Number) (m : Option Bytes)
      → endings (data_loop id size is_complete fuel b p r m) ≤ bit is_complete
  unfolding data_loop
  data_loop-endings zero b p r m = omega arith
  data_loop-endings (suc fuel) b p r m =
      let n = pos (length b) in
      let next = min_number n (add p r) in
      let rest = data_loop-endings fuel b next (pos size) none in
      elim (Bool-cases (lt p n)) [
        | inr stop ↦ rw stop (omega arith)
        | inl go ↦ elim (Bool-cases (eq next n)) [
          | inl last ↦
              let past = data_loop-past fuel b next (pos size) none (eq-lt next (length b) last) in
              rw (go, last, last-has_complete is_complete m) (omega (arith, past))
          | inr more ↦ rw (go, more, more-has_complete m) (omega (arith, rest))
        ]
      ]

  module _ (source : Bytes) (data_length : ℕ)
      (k : Number × Option Bytes → Generator Frame (Unit {0}))
      (most : (r : Number) (m : Option Bytes) → endings (k (r, m)) ≤ bit is_complete)
      (nothing : (data_length == 0) ≡ true
        → (r : Number) (m : Option Bytes) → endings (k (r, m)) ≡ 0) where
    metadata_loop-past :
        (fuel : ℕ) (p r : Number) (m : Option Bytes)
        → (data_length == 0) ≡ true
        → lt p (pos (length source)) ≡ false
        → endings (metadata_loop id size is_complete fuel source data_length p r m >>= k) ≡ 0
    unfolding metadata_loop
    metadata_loop-past zero p r m empty stop = refl
    metadata_loop-past (suc fuel) p r m empty stop = rw stop (nothing empty r m)

    metadata_loop-endings :
        (fuel : ℕ) (p r : Number) (m : Option Bytes)
        → endings (metadata_loop id size is_complete fuel source data_length p r m >>= k)
          ≤ bit is_complete
    unfolding metadata_loop
    metadata_loop-endings zero p r m = omega arith
    metadata_loop-endings (suc fuel) p r m =
        let n = pos (length source) in
        let room = sub r (pos 3) in
        let next = min_number n (add p room) in
        let part = subarray source p next in
        let left = sub room (pos (length part)) in
        let sent = eq left (pos 0) || data_length == 0 in
        let last = eq next n && is_complete && data_length == 0 in
        let more = metadata_loop-endings fuel next in
        elim (Bool-cases (lt p n)) [
          | inr stop ↦ rw stop (most r m)
          | inl go ↦ elim (Bool-cases sent) [
            | inr kept ↦ rw (go, kept) (more left (some part))
            | inl out ↦ elim (Bool-cases last) [
              | inr on ↦
                  rw (go, out, on, metadata-has_complete false)
                    (omega (arith, more (pos size) none))
              | inl end ↦
                  let (reached, complete, empty) =
                    all_three (eq next n) is_complete (data_length == 0) end in
                  let past =
                    metadata_loop-past fuel next (pos size) none empty
                      (eq-lt next (length source) reached) in
                  rw (go, out, end, metadata-has_complete true) (rw complete (omega (arith, past)))
            ]
          ]
        ]

no_data-endings :
    (id : Number) (size : ℕ) (is_complete : Bool) (body : Option Bytes) (r : Number)
    (m : Option Bytes)
    → (byte_length body == 0) ≡ true
    → endings (data_loop id size is_complete (suc (byte_length body)) (or_empty body) (pos 0) r m)
      ≡ 0
no_data-endings id size is_complete none r m e =
    data_loop-past id size is_complete _ [] (pos 0) r m refl
no_data-endings id size is_complete (some []) r m e =
    data_loop-past id size is_complete _ [] (pos 0) r m refl
no_data-endings id size is_complete (some (x ∷ xs)) r m e = absurd (ground arith)

parts-endings :
    (id : Number) (body metadata : Option Bytes) (size : ℕ) (is_complete : Bool)
    → endings
        (fragment id (record { body = body; metadata = metadata }) size payload_kind is_complete)
      ≤ bit is_complete
unfolding fragment fragments metadata_part
parts-endings id body none size is_complete = data_loop-endings id size is_complete _ _ _ _ _
parts-endings id body (some []) size is_complete = data_loop-endings id size is_complete _ _ _ _ _
parts-endings id body (some (x ∷ xs)) size is_complete =
    let source = x ∷ xs in
    let n = byte_length body in
    let loop =
      metadata_loop id size is_complete (suc (length source)) source n (pos 0) (pos size) none in
    subst (λ g. endings g ≤ bit is_complete) (sym (bind_assoc loop _ _))
      (metadata_loop-endings id size is_complete source n _
        (λ r m. data_loop-endings id size is_complete _ _ _ _ _)
        (λ empty r m. no_data-endings id size is_complete body r m empty) (suc (length source))
        (pos 0) (pos size) none)

-- At most one of the frames of a response says COMPLETE, and none if the response does not complete
-- its stream.
pub fragment-endings :
    (id : Number) (content : Payload) (size : ℕ) (is_complete : Bool)
    → endings (fragment id content size payload_kind is_complete) ≤ bit is_complete
fragment-endings id content size is_complete =
    parts-endings id content.body content.metadata size is_complete

whole-has_complete :
    (end : Bool) (m : Option Bytes)
    → Flags.has_complete (
        bit_or
          (bit_or Flags.next (if end then Flags.complete else Flags.no_flags))
          (metadata_flag m))
      ≡ end
unfolding Flags.has_complete
whole-has_complete true none = refl
whole-has_complete true (some m) = refl
whole-has_complete false none = refl
whole-has_complete false (some m) = refl

-- The same of what `onNext` of a responder sends.
pub response_frames-ending :
    (id : Number) (size : ℕ) (content : Payload) (is_completion : Bool)
    → total sent_ending (map sent (response_frames id size content is_completion))
      ≤ bit is_completion
unfolding response_frames
response_frames-ending id size content is_completion =
    elim (Bool-cases (is_fragmentable content size FrameTypes.payload)) [
      | inl cut ↦ rw cut (fragment-endings id content size is_completion)
      | inr whole ↦ rw (whole, whole-has_complete is_completion content.metadata) (omega arith)
    ]

pub complaint-ending :
    (frame : Frame) (id : Number) (message : List ℕ)
    → total sent_ending (complaint frame id message) ≤ 1
complaint-ending frame id message =
    let quiet = type_of frame == FrameTypes.cancel || type_of frame == FrameTypes.error in
    elim (Bool-cases quiet) [ inl e ↦ rw e (omega arith) | inr e ↦ rw e (omega arith) ]

pub cancel_receiver-ending : (r : Bool) → total sent_ending (cancel_receiver r) ≡ 0
cancel_receiver-ending true = refl
cancel_receiver-ending false = refl

pub registered_after-cancel_receiver : (r b : Bool) → registered_after (cancel_receiver r) b ≡ b
registered_after-cancel_receiver true b = refl
registered_after-cancel_receiver false b = refl
