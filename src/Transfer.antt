-- ===== src/Transfer.antt =====
-- Payloads on their way over a connection, through Fragmenter.ts, Codecs.ts and Reassembler.ts of
-- packages/rsocket-core/src: cut into frames, each sent behind its length, read from the bytes that
-- arrive, and reassembled.
pub mod Pieces
pub mod Payloads
pub mod Exchange
pub mod Items
pub mod Requests
pub mod Channel
pub mod Tests
use rsocket.Prelude.{
  ℕ, ◌+◌, ◌^◌, ◌<◌, ◌≡◌, refl, ap, ap₂, sym, ◌∙◌, Bool, true, false, Option, none, some, List, [],
  ◌∷◌, ◌++◌, arith, length, All, if◌then◌else◌, Bool-cases, inl, inr,
}
use rsocket.Prelude.Number.{Number}
use rsocket.Prelude.Result.{Result, ok, ◌>>=◌, bind_assoc}
use rsocket.Prelude.Generator.{Generator, yield, return, out_of_fuel, yields, Every, yields-All}
use rsocket.Bytes.{Bytes}
use rsocket.Bytes.ReadBack.{IsInt32}
use rsocket.Frames.{Frame}
use rsocket.Frames.Flags
use rsocket.Reassembler.{Payload, FragmentsHolder, add}
use rsocket.Reassembler.Shape.{idle, holder_of}
use rsocket.Fragmenter.{Kind, fragment, is_fragmentable}
use rsocket.Fragmenter.Every.{NotEmpty}
use rsocket.Fragmenter.Receive.{part_of, receive, only_if_done-return, last_payload}
use rsocket.Fragmenter.RoundTrip.{frame_type, receive-fragment}
use rsocket.Codecs.Common.{TextCodec}
use rsocket.Codecs.Wire.{wire}
use rsocket.Codecs.Stream.{deserialize_frames, send_all}
use rsocket.Codecs.Stream.RoundTrip.{IsPartial, AllSendable, delivered, deserialize_frames-send_all}
use rsocket.Transfer.Pieces.{IsPiece, fragment-IsPiece, IsPiece-IsSendable, IsPiece-as_read}

abbrev firsts : List (Frame × ℕ) → List Frame
firsts [] = []
firsts ((frame, end) ∷ frames) = frame ∷ firsts frames

-- The frames that the other end reads of those that are sent, where `t` has come behind them.
abbrev pub carried : TextCodec → Bytes → List Frame → Result (List Frame)
carried text t frames =
    send_all text frames >>= λ bytes. ok (firsts (deserialize_frames text (bytes ++ t)).0)

-- The frames as a receiver takes them, one after the other.
abbrev pub in_turn : List Frame → Generator Frame (Unit {0})
in_turn [] = return tt
in_turn (frame ∷ frames) = yield frame (in_turn frames)

-- What a receiver makes of a generator's frames it has made before the generator ends.
receive-in_turn :
    (holder : FragmentsHolder) (g : Generator Frame (Unit {0})) (content : Payload)
    → receive holder g ≡ some content
    → receive holder (in_turn (yields g)) ≡ some content
unfolding receive
receive-in_turn holder (return a) content e = absurd cc
receive-in_turn holder out_of_fuel content e = absurd cc
receive-in_turn holder (yield frame g) content e =
    let part = part_of frame in
    let more = add holder part.body part.metadata in
    let last = last_payload holder part.body part.metadata in
    elim (Bool-cases (Flags.has_follows part.flags)) [
      | inl follows ↦ rw follows (receive-in_turn more g content (rw follows at e))
      | inr done ↦
          let (same, none_left) = only_if_done-return last content g (rw done at e) in
          rw (done, none_left) (ap some same)
    ]

module _ (text : TextCodec) (id : Number) (range : IsInt32 id) where
  pieces-AllSendable : (frames : List Frame) → All (IsPiece id) frames → AllSendable text frames
  pieces-AllSendable [] pieces = tt
  pieces-AllSendable (frame ∷ frames) (piece, pieces) =
      (IsPiece-IsSendable text id range frame piece, pieces-AllSendable frames pieces)

  firsts-delivered :
      (frames : List Frame) (offset : ℕ)
      → All (IsPiece id) frames
      → firsts (delivered text offset frames).0 ≡ frames
  firsts-delivered [] offset pieces = refl
  firsts-delivered (frame ∷ frames) offset (piece, pieces) =
      ap₂ ◌∷◌ (IsPiece-as_read id frame piece) (firsts-delivered frames _ pieces)

  -- Pieces of payloads are read as they were sent.
  pub carried-pieces :
      (t : Bytes) (frames : List Frame)
      → IsPartial t
      → All (IsPiece id) frames
      → carried text t frames ≡ ok frames
  carried-pieces t frames part pieces =
      sym (bind_assoc (send_all text frames) _ (λ found. ok (firsts found.0)))
      ∙ ap (λ found. found >>= λ y. ok (firsts y.0))
          (deserialize_frames-send_all text frames t (pieces-AllSendable frames pieces) part)
      ∙ ap ok (firsts-delivered frames 0 pieces)

-- A payload with data, whose metadata is missing or not empty, is sent over a connection: it is
-- cut by `fragment`, where `isFragmentable` says so, and each frame is written behind its length. Then
-- the frames read from the bytes, with the front of a further frame behind them, are reassembled to
-- that payload. The fragment size holds more than the length of metadata, and leaves a frame's length
-- in 24 bits with its header; the stream's id fits 32 bits.
pub receive-carried :
    (text : TextCodec) (id : Number) (b : Bytes) (m : Option Bytes) (size : ℕ) (kind : Kind)
    (is_complete : Bool) (t : Bytes)
    → IsInt32 id
    → 0 < length b
    → NotEmpty m
    → 3 < size
    → size + 6 < 2 ^ 24
    → is_fragmentable (record { body = some b; metadata = m }) size (frame_type kind) ≡ true
    → IsPartial t
    → let content : Payload = record { body = some b; metadata = m } in
      (carried text t (yields (fragment id content size kind is_complete)) >>= λ frames.
      ok (receive (holder_of idle) (in_turn frames)))
      ≡ ok (some content)
receive-carried text id b m size kind is_complete t range more given roomy small big part =
    let content : Payload = record { body = some b; metadata = m } in
    let g = fragment id content size kind is_complete in
    let pieces =
      yields-All (IsPiece id) g
        (fragment-IsPiece id content size kind is_complete roomy small more given) in
    rw (carried-pieces text id range t (yields g) part pieces) (
      ap ok (
        receive-in_turn (holder_of idle) g content
          (receive-fragment id b m size kind is_complete more roomy big)))
