-- ===== src/Fragmenter/Request.antt =====
-- The frames of a fragmented request: the request itself, and PAYLOADs behind it.
use rsocket.Prelude.{
  ℕ, suc, ◌+◌, ◌-◌, ◌<◌, ◌≡◌, refl, sym, subst, Bool, true, false, Option, none, some, [], ◌∷◌,
  arith, length, bit_or, if◌then◌else◌, inl, inr, at_most-cases,
}
use rsocket.Prelude.Number.{Number, pos, sub-pos}
use rsocket.Prelude.Generator.{Generator, yield, return, ◌>>=◌, bind_assoc}
use rsocket.Bytes.{Bytes, subarray}
use rsocket.Frames.{Frame}
use rsocket.Frames.Flags
use rsocket.Reassembler.{Payload}
use rsocket.Fragmenter.{
  metadata_loop, data_loop, first_data, metadata_part, fragments, metadata_flag, is_fragmentable,
  byte_length,
}
use rsocket.Fragmenter.Receive.{part_of}
use rsocket.Fragmenter.Metadata.{metadata_loop-done}
use rsocket.Fragmenter.First.{metadata_follows-flags, first_metadata-full, first_metadata-kept}
use rsocket.Fragmenter.Flagged.{AllFlagged, data_loop-AllFlagged, metadata_loop-AllFlagged}

-- `g` yields `first` with FOLLOWS, and then PAYLOADs.
pub record StartsWith (first : ℕ → Option Bytes → Option Bytes → Frame)
    (g : Generator Frame (Unit {0})) : Type 0 where
  pub flags : ℕ
  pub body : Option Bytes
  pub metadata : Option Bytes
  pub rest : Generator Frame (Unit {0})
  pub is : g ≡ yield (first flags body metadata) rest
  pub follows : Flags.has_follows flags ≡ true
  pub flagged : AllFlagged rest

module _ (id : Number) (size : ℕ) (is_complete : Bool)
    (first : ℕ → Option Bytes → Option Bytes → Frame) (cost : ℕ)
    (parts : (flags : ℕ) (body metadata : Option Bytes)
      → part_of (first flags body metadata)
        ≡ record { flags = flags; body = body; metadata = metadata })
    (roomy : 3 + cost < size) where
  first_data-StartsWith :
      (b : Bytes) (remaining : Number) (m : Option Bytes)
      → StartsWith first (
          first_data id size is_complete first cost (some b) remaining m
          >>= (λ position. return (position, pos size, none))
          >>= λ (position, remaining, metadata).
              data_loop id size is_complete (suc (length b)) b position remaining metadata)
  unfolding first_data
  first_data-StartsWith b remaining m = record {
    flags = bit_or Flags.follows (metadata_flag m);
    body = _;
    metadata = m;
    rest = _;
    is = refl;
    follows = metadata_follows-flags m;
    flagged = data_loop-AllFlagged id size is_complete _ _ _ _ _;
  }

  full-StartsWith :
      (b m : Bytes)
      → let room = size - (3 + cost) in
        StartsWith first (
          yield
            (first
              (bit_or Flags.follows Flags.metadata)
              none
              (some (subarray m (pos 0) (pos room))))
            (metadata_loop id size is_complete
                (suc (length m))
                m
                (length b)
                (pos room)
                (pos size)
                none
              >>= (λ (remaining, metadata). return (false, remaining, metadata))
              >>= λ (first_frame, remaining, metadata).
                  (if first_frame
                    then first_data id size is_complete first cost (some b) remaining metadata
                      >>= (λ position. return (position, pos size, none))
                    else return (pos 0, remaining, metadata))
                  >>= λ (position, remaining, metadata).
                      data_loop id size is_complete (suc (length b)) b position remaining metadata))
  full-StartsWith b m =
      let room = size - (3 + cost) in
      let loop =
        metadata_loop id size is_complete (suc (length m)) m (length b) (pos room) (pos size)
          none in
      record {
        flags = bit_or Flags.follows Flags.metadata;
        body = none;
        metadata = some (subarray m (pos 0) (pos room));
        rest = _;
        is = refl;
        follows = metadata_follows-flags (some m);
        flagged = subst AllFlagged (sym (bind_assoc loop _ _)) (
            metadata_loop-AllFlagged id size is_complete m (length b) _
              (λ r p. data_loop-AllFlagged id size is_complete _ _ _ _ _) (suc (length m)) _ _ _);
      }

  pub fragments-StartsWith :
      (b : Bytes) (m : Option Bytes)
      → 0 < length b
      → StartsWith first
          (fragments id size is_complete first cost true (record { body = some b; metadata = m }))
  unfolding fragments metadata_part
  fragments-StartsWith b none h = first_data-StartsWith b (pos size) none
  fragments-StartsWith b (some []) h =
      rw (sub-pos size 3 (omega arith)) (first_data-StartsWith b (pos (size - 3)) (some []))
  fragments-StartsWith b (some (x ∷ xs)) h =
      let m = x ∷ xs in
      let n = length m in
      let room = size - (3 + cost) in
      elim (at_most-cases room n) [
        | inl full ↦
            rw (first_metadata-full id size is_complete first cost parts roomy m full)
              (full-StartsWith b m)
        | inr kept ↦
            rw
              (
                first_metadata-kept id size is_complete first cost parts roomy m kept,
                metadata_loop-done id size is_complete m (length b) h (suc n) (pos (room - n))
                    (some m) (omega arith),
              )
              (first_data-StartsWith b (pos (room - n)) (some m))
      ]

-- A payload that is cut into fragments has data, and a fragment holds more than three bytes.
abbrev pub IsCut : Payload → ℕ → ℕ → Type 0
IsCut content size frame_type =
    is_fragmentable content size frame_type ≡ true → (0 < byte_length content.body) × (3 < size)

pub metadata_flag-follows : (m : Option Bytes) → Flags.has_follows (metadata_flag m) ≡ false
unfolding Flags.has_follows
metadata_flag-follows none = refl
metadata_flag-follows (some m) = refl

-- The same where the first frame has a request count
abbrev pub IsCutMany : Payload → ℕ → ℕ → Type 0
IsCutMany content size frame_type =
    is_fragmentable content size frame_type ≡ true → (0 < byte_length content.body) × (6 < size)
