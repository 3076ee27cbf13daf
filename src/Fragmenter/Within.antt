-- ===== src/Fragmenter/Within.antt =====
-- The frames of a fragmented payload hold no more than the fragment size.
use rsocket.Prelude.{ℕ, ◌+◌, ◌≤◌, ◌<◌, Bool, Option, arith}
use rsocket.Prelude.Number.{Number}
use rsocket.Prelude.Generator.{Generator, Every}
use rsocket.Bytes.{Bytes}
use rsocket.Frames.{Frame}
use rsocket.Reassembler.{Payload}
use rsocket.Fragmenter.{
  Kind, payload_kind, fnf_kind, response_kind, request_frame, fragment, metadata_room, byte_length,
}
use rsocket.Fragmenter.Receive.{part_of}
use rsocket.Fragmenter.Every.{fragment-Every}

-- A frame's data, and its metadata with the length in front, are `size` bytes at most.
abbrev pub IsWithin : ℕ → Frame → Type 0
IsWithin size frame =
    byte_length (part_of frame).body + metadata_room (part_of frame).metadata ≤ size

abbrev pub AllWithin {ℓ} : {A : Type ℓ} → ℕ → Generator Frame A → Type 0
AllWithin size g = Every (IsWithin size) g

request_frame-IsWithin :
    (kind : Kind) (id : Number) (size flags : ℕ) (b m : Option Bytes)
    → byte_length b + metadata_room m ≤ size
    → IsWithin size (request_frame kind id flags b m)
request_frame-IsWithin payload_kind id size flags b m h = h
request_frame-IsWithin fnf_kind id size flags b m h = h
request_frame-IsWithin response_kind id size flags b m h = h

-- Where a frame holds more than the length of metadata, each frame that `fragment` makes holds no more
-- than the fragment size: its data, and its metadata with the length in front, together.
pub fragment-AllWithin :
    (id : Number) (content : Payload) (size : ℕ) (kind : Kind) (is_complete : Bool)
    → 3 < size
    → AllWithin size (fragment id content size kind is_complete)
fragment-AllWithin id content size kind is_complete roomy =
    fragment-Every (IsWithin size) (λ m. Unit) tt (λ m more. tt) id size is_complete roomy
      (λ last m part h. omega (arith, h)) (λ last b m more part h. h) content kind tt
      (λ b m kept part h. request_frame-IsWithin kind id size _ b m (omega arith))
