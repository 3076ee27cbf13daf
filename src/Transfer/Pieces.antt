-- ===== src/Transfer/Pieces.antt =====
-- The frames that `fragment` makes: what the codec needs of them to read them back as they are.
use rsocket.Prelude.{
  ℕ, ◌+◌, ◌^◌, ◌<◌, ◌≡◌, refl, subst, sym, ap₂, Bool, true, false, Option, none, some, [], ◌∷◌,
  arith, length, length-append, bit_or,
}
use rsocket.Prelude.Number.{Number}
use rsocket.Prelude.Generator.{Every}
use rsocket.Bytes.{Bytes}
use rsocket.Bytes.ReadBack.{IsInt32}
use rsocket.Frames.{
  Frame, RequestManyFrame, payload, request_fnf, request_response, request_stream, request_channel,
}
use rsocket.Frames.Flags
use rsocket.Reassembler.{Payload}
use rsocket.Fragmenter.{
  Kind, payload_kind, fnf_kind, response_kind, request_frame, fragment, fragment_with_request_n,
  stream_kind, byte_length, metadata_room, metadata_flag,
}
use rsocket.Fragmenter.Every.{
  HasRoom, fragment_with_request_n-Every, NotEmpty, metadata_flags, data_flags, fragment-Every,
}
use rsocket.Codecs.Common.{TextCodec, size}
use rsocket.Codecs.Wire.{payload_bytes}
use rsocket.Codecs.RoundTrip.{as_read, present_part, flagged_part}
use rsocket.Codecs.Stream.RoundTrip.{IsSendable}

abbrev present : Option Bytes → Bool
present none = false
present (some m) = true

-- The flags fit their bits and announce the metadata, neither part is there and empty, and the
-- length of the frame, with its header, fits 24 bits.
abbrev IsCarried : Number → ℕ → Number → Option Bytes → Option Bytes → Type 0
IsCarried id flags stream_id body metadata =
    (flags < 2 ^ 10)
    × (Flags.has_metadata flags ≡ present metadata)
    × (stream_id ≡ id)
    × NotEmpty body
    × NotEmpty metadata
    × (byte_length body + metadata_room metadata + 6 < 2 ^ 24)

-- The same with a request count
abbrev IsCarriedMany : Number → RequestManyFrame → Type 0
IsCarriedMany id f =
    IsCarried id f.flags f.stream_id f.body f.metadata
    × IsInt32 f.request_n
    × (byte_length f.body + metadata_room f.metadata + 10 < 2 ^ 24)

abbrev pub IsPiece : Number → Frame → Type 0
IsPiece id (payload f) = IsCarried id f.flags f.stream_id f.body f.metadata
IsPiece id (request_fnf f) = IsCarried id f.flags f.stream_id f.body f.metadata
IsPiece id (request_response f) = IsCarried id f.flags f.stream_id f.body f.metadata
IsPiece id (request_stream f) = IsCarriedMany id f
IsPiece id (request_channel f) = IsCarriedMany id f
IsPiece id _ = ⊥

-- The flags of each frame, and that they announce its metadata.
abbrev pub Announces : ℕ → Option Bytes → Type 0
Announces flags m = (flags < 2 ^ 10) × (Flags.has_metadata flags ≡ present m)

metadata_flags-Announces : (last : Bool) (m : Bytes) → Announces (metadata_flags last) (some m)
unfolding Flags.has_metadata
metadata_flags-Announces true m = (omega arith, refl)
metadata_flags-Announces false m = (omega arith, refl)

data_flags-Announces :
    (is_complete last : Bool) (m : Option Bytes) → Announces (data_flags is_complete last m) m
unfolding Flags.has_metadata
data_flags-Announces true true none = (omega arith, refl)
data_flags-Announces true true (some m) = (omega arith, refl)
data_flags-Announces false true none = (omega arith, refl)
data_flags-Announces false true (some m) = (omega arith, refl)
data_flags-Announces is_complete false none = (omega arith, refl)
data_flags-Announces is_complete false (some m) = (omega arith, refl)

first-Announces : (m : Option Bytes) → Announces (bit_or Flags.follows (metadata_flag m)) m
unfolding Flags.has_metadata
first-Announces none = (omega arith, refl)
first-Announces (some m) = (omega arith, refl)

pub request_frame-IsPiece :
    (kind : Kind) (id : Number) (flags : ℕ) (b m : Option Bytes)
    → IsCarried id flags id b m
    → IsPiece id (request_frame kind id flags b m)
request_frame-IsPiece payload_kind id flags b m h = h
request_frame-IsPiece fnf_kind id flags b m h = h
request_frame-IsPiece response_kind id flags b m h = h

-- Each frame that `fragment` makes of parts that are not empty is such a piece.
pub fragment-IsPiece :
    (id : Number) (content : Payload) (room : ℕ) (kind : Kind) (is_complete : Bool)
    → 3 < room
    → room + 6 < 2 ^ 24
    → NotEmpty content.body
    → NotEmpty content.metadata
    → Every (IsPiece id) (fragment id content room kind is_complete)
fragment-IsPiece id content room kind is_complete roomy small some_body some_metadata =
    fragment-Every (IsPiece id) NotEmpty tt (λ m more. more) id room is_complete roomy
      (λ last m part h.
        let (low, told) = metadata_flags-Announces last m in
        (low, told, refl, tt, part, omega arith))
      (λ last b m more part h.
        let (low, told) = data_flags-Announces is_complete last m in
        (low, told, refl, more, part, omega arith))
      content kind some_metadata
      (λ b m kept part h.
        let (low, told) = first-Announces m in
        request_frame-IsPiece kind id _ b m (low, told, refl, kept some_body, part, omega arith))

-- The same of `fragmentWithRequestN`, with a request count that fits 32 bits
pub fragment_with_request_n-IsPiece :
    (id n : Number) (content : Payload) (room : ℕ) (is_complete : Bool)
    → IsInt32 n
    → 6 < room
    → room + 10 < 2 ^ 24
    → NotEmpty content.body
    → NotEmpty content.metadata
    → HasRoom room 3 content.metadata
    → Every (IsPiece id) (fragment_with_request_n id content room stream_kind n is_complete)
fragment_with_request_n-IsPiece id n content room is_complete count roomy small some_body
      some_metadata has_room =
    fragment_with_request_n-Every (IsPiece id) NotEmpty tt (λ m more. more) id room is_complete
      (omega arith)
      (λ last m part h.
        let (low, told) = metadata_flags-Announces last m in
        (low, told, refl, tt, part, omega arith))
      (λ last b m more part h.
        let (low, told) = data_flags-Announces is_complete last m in
        (low, told, refl, more, part, omega arith))
      content stream_kind n roomy some_metadata has_room
      (λ b m kept part h.
        let (low, told) = first-Announces m in
        ((low, told, refl, kept some_body, part, omega arith), count, omega arith))

present_part-NotEmpty : (b : Option Bytes) → NotEmpty b → present_part b ≡ b
present_part-NotEmpty none h = refl
present_part-NotEmpty (some []) h = absurd (omega arith)
present_part-NotEmpty (some (x ∷ b)) h = refl

flagged_part-NotEmpty :
    (flags : ℕ) (m : Option Bytes)
    → Flags.has_metadata flags ≡ present m
    → NotEmpty m
    → flagged_part flags m ≡ m
flagged_part-NotEmpty flags none told h = rw told refl
flagged_part-NotEmpty flags (some m) told h = rw told (present_part-NotEmpty (some m) h)

-- It is read back as it was sent.
pub IsPiece-as_read : (id : Number) (frame : Frame) → IsPiece id frame → as_read frame ≡ frame
IsPiece-as_read id (payload f) (low, told, same, more, part, h) =
    ap₂ (λ b m. payload (record f { body = b; metadata = m })) (present_part-NotEmpty f.body more)
      (flagged_part-NotEmpty f.flags f.metadata told part)
IsPiece-as_read id (request_fnf f) (low, told, same, more, part, h) =
    ap₂ (λ b m. request_fnf (record f { body = b; metadata = m }))
      (present_part-NotEmpty f.body more) (flagged_part-NotEmpty f.flags f.metadata told part)
IsPiece-as_read id (request_response f) (low, told, same, more, part, h) =
    ap₂ (λ b m. request_response (record f { body = b; metadata = m }))
      (present_part-NotEmpty f.body more) (flagged_part-NotEmpty f.flags f.metadata told part)
IsPiece-as_read id (request_stream f) ((low, told, same, more, part, h), count, long) =
    ap₂ (λ b m. request_stream (record f { body = b; metadata = m }))
      (present_part-NotEmpty f.body more) (flagged_part-NotEmpty f.flags f.metadata told part)
IsPiece-as_read id (request_channel f) ((low, told, same, more, part, h), count, long) =
    ap₂ (λ b m. request_channel (record f { body = b; metadata = m }))
      (present_part-NotEmpty f.body more) (flagged_part-NotEmpty f.flags f.metadata told part)
IsPiece-as_read id _ h = absurd h

length-payload_bytes :
    (flags : ℕ) (m b : Option Bytes)
    → Flags.has_metadata flags ≡ present m
    → length (payload_bytes flags m b) ≡ byte_length b + metadata_room m
length-payload_bytes flags none none told = rw told refl
length-payload_bytes flags none (some b) told = rw told (omega arith)
length-payload_bytes flags (some m) none told = rw told (omega (arith, length-append m []))
length-payload_bytes flags (some m) (some b) told = rw told (omega (arith, length-append m b))

module _ (text : TextCodec) (id : Number) (range : IsInt32 id) where
  size-small : (b m : Option Bytes) → byte_length b + metadata_room m + 6 < 2 ^ 24 → size m < 2 ^ 24
  size-small b none h = omega arith
  size-small b (some m) h = omega arith

  -- It can be sent.
  pub IsPiece-IsSendable : (frame : Frame) → IsPiece id frame → IsSendable text frame
  IsPiece-IsSendable (payload f) (low, told, same, more, part, h) = (
    tt,
    (low, subst IsInt32 (sym same) range, size-small f.body f.metadata h),
    omega (arith, length-payload_bytes f.flags f.metadata f.body told),
  )
  IsPiece-IsSendable (request_fnf f) (low, told, same, more, part, h) = (
    tt,
    (low, subst IsInt32 (sym same) range, size-small f.body f.metadata h),
    omega (arith, length-payload_bytes f.flags f.metadata f.body told),
  )
  IsPiece-IsSendable (request_response f) (low, told, same, more, part, h) = (
    tt,
    (low, subst IsInt32 (sym same) range, size-small f.body f.metadata h),
    omega (arith, length-payload_bytes f.flags f.metadata f.body told),
  )
  IsPiece-IsSendable (request_stream f) ((low, told, same, more, part, h), count, long) = (
    tt,
    (low, subst IsInt32 (sym same) range, count, size-small f.body f.metadata h),
    omega (arith, length-payload_bytes f.flags f.metadata f.body told),
  )
  IsPiece-IsSendable (request_channel f) ((low, told, same, more, part, h), count, long) = (
    tt,
    (low, subst IsInt32 (sym same) range, count, size-small f.body f.metadata h),
    omega (arith, length-payload_bytes f.flags f.metadata f.body told),
  )
  IsPiece-IsSendable _ h = absurd h
