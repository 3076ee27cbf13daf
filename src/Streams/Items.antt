-- ===== src/Streams/Items.antt =====
-- One payload of several that a sender sends: its frames at the other end, which passes each payload on
-- and stays open.
use rsocket.Prelude.{
  ℕ, ◌<◌, ◌≡◌, refl, Bool, true, false, ◌⊎◌, inl, inr, Option, none, some, List, [], map,
  append-nil, arith, bit_or, Bool-cases,
}
use rsocket.Prelude.Number.{Number}
use rsocket.Prelude.Generator.{Generator, yield, return, out_of_fuel, yields, Every}
use rsocket.Bytes.{Bytes}
use rsocket.Frames.{Frame, PayloadFrame, payload}
use rsocket.Frames.Flags
use rsocket.Frames.FrameTypes
use rsocket.Reassembler as Reassembler
use rsocket.Reassembler.{Payload, FragmentsHolder, reassemble}
use rsocket.Reassembler.Shape.{idle, holder_of, add-has_fragments}
use rsocket.Fragmenter.{is_fragmentable, fragment, payload_kind, byte_length, metadata_flag}
use rsocket.Fragmenter.Receive.{last_payload}
use rsocket.Fragmenter.Flagged.{OfPayload, AllFlagged, fragment-AllFlagged}
use rsocket.Fragmenter.Request.{IsCut}
use rsocket.Fragmenter.RoundTrip.{receive-fragment}
use rsocket.Streams.{Event, registered_after, response_of}
use rsocket.Streams.Runs.{run}
use rsocket.Streams.Endings.{endings, fragment-endings}
use rsocket.Streams.Sending.{response_frames}
use rsocket.Streams.Serving.{run-receive}

-- A holder that is empty, or has fragments
abbrev pub Holds : FragmentsHolder → Type 0
Holds holder = (holder.has_fragments ≡ true) ⊎ (holder ≡ holder_of idle)

pub response_of-last :
    (holder : FragmentsHolder) (body metadata : Option Bytes)
    → Holds holder
    → response_of holder body metadata ≡ (last_payload holder body metadata, holder_of idle)
unfolding reassemble
response_of-last holder body metadata (inl more) = rw more refl
response_of-last holder body metadata (inr empty) = rw empty refl

abbrev pub IsOpenEnded : PayloadFrame → Type 0
IsOpenEnded f = Flags.has_complete f.flags ≡ false

-- Frames none of which ends its stream
open_ended :
    (g : Generator Frame (Unit {0}))
    → AllFlagged g
    → endings g ≡ 0
    → Every (OfPayload IsOpenEnded) g
open_ended (yield (payload f) g) (flagged, rest) few =
    elim (Bool-cases (Flags.has_complete f.flags)) [
      | inl ends ↦ let one = rw ends at few in absurd (omega arith)
      | inr open_end ↦ let fewer = rw open_end at few in (open_end, open_ended g rest (omega arith))
    ]
open_ended (yield frame g) (flagged, rest) few = absurd flagged
open_ended (return a) flagged few = tt
open_ended out_of_fuel flagged few = tt

whole-flags :
    (m : Option Bytes)
    → let flags = bit_or (bit_or Flags.next Flags.no_flags) (metadata_flag m) in
      (Flags.has_follows flags ≡ false) × (Flags.has_complete flags ≡ false)
unfolding Flags.has_follows Flags.has_complete
whole-flags none = (refl, refl)
whole-flags (some m) = (refl, refl)

module _ {C S : Type 0} (call_of : C → S → Bool → List Event × S) (to_call : Frame → C)
    (with_holder : S → FragmentsHolder → S) (Waits : S → Type 0)
    (handled : Payload → S → List Event × S)
    (more : (f : PayloadFrame) (s : S) (holder : FragmentsHolder)
      → IsOpenEnded f
      → Waits s
      → Flags.has_follows f.flags ≡ true
      → call_of (to_call (payload f)) (with_holder s holder) true
        ≡ ([], with_holder s (Reassembler.add holder f.body f.metadata)))
    (last : (f : PayloadFrame) (s : S) (holder : FragmentsHolder)
      → IsOpenEnded f
      → Waits s
      → Flags.has_follows f.flags ≡ false
      → Holds holder
      → call_of (to_call (payload f)) (with_holder s holder) true
        ≡ handled (last_payload holder f.body f.metadata) s)
    (id : Number) (n : ℕ) (s : S) (waits : Waits s) where
  abbrev Passed : List Frame → Payload → Type 0
  Passed frames content =
      let (events, s') = handled content s in
      run call_of (map to_call frames) (with_holder s (holder_of idle)) true
      ≡ (events, s', registered_after events true)

  item_cut :
      (body metadata : Option Bytes)
      → let content : Payload = record { body = body; metadata = metadata } in
        is_fragmentable content n FrameTypes.payload ≡ true
        → (0 < byte_length body) × (3 < n)
        → Passed (yields (fragment id content n payload_kind false)) content
  item_cut none m big (h, roomy) = absurd (omega arith)
  item_cut (some b) m big (h, roomy) =
      let content : Payload = record { body = some b; metadata = m } in
      let g = fragment id content n payload_kind false in
      let few = fragment-endings id content n false in
      run-receive call_of to_call with_holder Waits Holds
        (λ holder b m. inl (add-has_fragments holder b m)) IsOpenEnded handled more last g s
        (holder_of idle) content waits (inr refl)
        (open_ended g (fragment-AllFlagged id content n false) (omega arith))
        (receive-fragment id b m n payload_kind false h roomy big)

  -- The frames of a payload that fits in a frame, or has data and is cut into fragments of more than
  -- three bytes, are passed on as that payload.
  pub run-response_frames :
      (content : Payload)
      → IsCut content n FrameTypes.payload
      → Passed (response_frames id n content false) content
  unfolding response_frames
  run-response_frames content fits =
      elim (Bool-cases (is_fragmentable content n FrameTypes.payload)) [
        | inl cut ↦ rw cut (item_cut content.body content.metadata cut (fits cut))
        | inr whole ↦
            let (ends, open_end) = whole-flags content.metadata in
            let f : PayloadFrame = record {
              flags = bit_or (bit_or Flags.next Flags.no_flags) (metadata_flag content.metadata);
              body = content.body;
              metadata = content.metadata;
              stream_id = id;
            } in
            rw (whole, last f s (holder_of idle) open_end waits ends (inr refl), append-nil) refl
      ]
