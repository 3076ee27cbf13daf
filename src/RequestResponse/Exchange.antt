-- ===== src/RequestResponse/Exchange.antt =====
-- The steps of a whole request/response: what the requester sends, what a handler that answers at
-- once sends back, and what the requester makes of that.
use rsocket.Prelude.Generator.{yields}
use rsocket.Prelude.{
  ℕ, ◌<◌, ◌≡◌, refl, ap, ◌∙◌, Bool, true, false, Option, none, some, List, [], ◌∷◌, ◌++◌, map,
  append-nil, Bool-cases, inl, inr, bit_or, ap₂, arith, if◌then◌else◌,
}
use rsocket.Prelude.Number.{Number}
use rsocket.Bytes.{Bytes}
use rsocket.Frames.Flags
use rsocket.Frames.FrameTypes
use rsocket.Reassembler.{Payload}
use rsocket.Reassembler.Shape.{idle, holder_of}
use rsocket.Fragmenter.{fragment, payload_kind, is_fragmentable, metadata_flag, byte_length}
use rsocket.Streams.{
  frames_of, Event, sent, connected, disconnected, on_next, Extension, extension_frames,
}
use rsocket.Streams.Runs.{frames_of-sent}
use rsocket.Streams.Sending.{Outcome, next, response_frames}
use rsocket.Fragmenter.Request.{IsCut}
use rsocket.RequestResponse.{Requester, handle_ready, request_frames}
use rsocket.RequestResponse.Calls.{frame_call, run}
use rsocket.RequestResponse.Fragments.{handle-last, handle-fragment}
use rsocket.RequestResponse.Responder as Responder
use rsocket.RequestResponse.Responder.{call_handler}
use rsocket.RequestResponse.Serving.{fresh}

-- A handler that answers at once
abbrev pub answering : (Payload → Payload) → Payload → Outcome
answering reply content = record { signals = next (reply content) true ∷ []; thrown = none }

whole-flags :
    (m : Option Bytes)
    → let flags = bit_or (bit_or Flags.next Flags.complete) (metadata_flag m) in
      (Flags.has_follows flags ≡ false) × (Flags.has_next flags ≡ true)
unfolding Flags.has_follows Flags.has_next
whole-flags none = (refl, refl)
whole-flags (some m) = (refl, refl)

module _ (id : Number) (n : ℕ) (s : Requester) (empty : s.holder ≡ holder_of idle) where
  answer_cut :
      (body metadata : Option Bytes)
      → let content : Payload = record { body = body; metadata = metadata } in
        is_fragmentable content n FrameTypes.payload ≡ true
        → (0 < byte_length body) × (3 < n)
        → (run
            (map frame_call (yields (fragment id content n payload_kind true)))
            (record { stream = s; registered = true })).0
          ≡ disconnected ∷ on_next content true ∷ []
  answer_cut none m big (h, roomy) = absurd (omega arith)
  answer_cut (some b) m big (h, roomy) = handle-fragment id b m n true s h roomy big empty

  pub run-response_frames :
      (content : Payload)
      → IsCut content n FrameTypes.payload
      → (run
          (map frame_call (response_frames id n content true))
          (record { stream = s; registered = true })).0
        ≡ disconnected ∷ on_next content true ∷ []
  unfolding response_frames
  run-response_frames content roomy =
      elim (Bool-cases (is_fragmentable content n FrameTypes.payload)) [
        | inl cut ↦ rw cut (answer_cut content.body content.metadata cut (roomy cut))
        | inr whole ↦
            let (last, said) = whole-flags content.metadata in
            rw (whole, append-nil) (handle-last _ s last said ∙ rw empty refl)
      ]

-- What the handler that answers at once sends
pub frames_of-answer :
    (reply : Payload → Payload) (content : Payload) (id : Number) (n : ℕ)
    → frames_of (call_handler (answering reply) content (fresh id n)).0
      ≡ response_frames id n (reply content) true
unfolding call_handler Responder.on_next
frames_of-answer reply content id n =
    let frames = response_frames id n (reply content) true in
    rw (append-nil, append-nil) (frames_of-sent frames (disconnected ∷ []) ∙ append-nil frames)

pub handle_ready-sends :
    (id : Number) (s : Requester)
    → s.done ≡ false
    → s.extension ≡ none
    → handle_ready id s
      ≡ (connected ∷ map sent (request_frames id s), record s { stream_id = some id })
unfolding handle_ready
handle_ready-sends id s live plain =
    let out : Bool → Option Extension → List Event × Requester = λ d e. if d then ([], s) else (
      connected ∷ map sent (request_frames id s ++ extension_frames id e),
      record s { stream_id = some id },
    ) in
    ap₂ out live plain
    ∙ ap (λ frames. (connected ∷ map sent frames, record s { stream_id = some id }))
        (append-nil (request_frames id s))
