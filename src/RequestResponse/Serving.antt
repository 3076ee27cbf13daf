-- ===== src/RequestResponse/Serving.antt =====
-- The two ends of a request/response against each other: the frames that one sends reach the other in
-- order.
use rsocket.Prelude.{
  ℕ, ◌<◌, ◌≡◌, refl, ap, true, false, Option, none, some, List, [], ◌∷◌, ◌++◌, map, append-nil,
  length, Bool-cases, inl, inr, arith,
}
use rsocket.Prelude.Number.{Number}
use rsocket.Prelude.Generator.{Generator, yields}
use rsocket.Bytes.{Bytes}
use rsocket.Frames.{Frame, PayloadFrame, payload, request_response}
use rsocket.Frames.Flags
use rsocket.Frames.FrameTypes
use rsocket.Reassembler as Reassembler
use rsocket.Reassembler.{Payload, FragmentsHolder, reassemble}
use rsocket.Reassembler.Shape.{idle, holder_of, add-has_fragments}
use rsocket.Fragmenter.{
  fragment, response_kind, request_frame, is_fragmentable, metadata_flag, byte_length,
}
use rsocket.Fragmenter.Receive.{receive, last_payload}
use rsocket.Fragmenter.Flagged.{IsFlagged, AllFlagged}
use rsocket.Fragmenter.Request.{fragments-StartsWith, IsCut, metadata_flag-follows}
use rsocket.Fragmenter.RoundTrip.{receive-fragment, request_frame-part}
use rsocket.Streams.{Event, connected, registered_after}
use rsocket.Streams.Sending.{Outcome}
use rsocket.Streams.Runs.{run}
use rsocket.Streams.Serving.{run-receive}
use rsocket.RequestResponse.{Requester, request_frames}
use rsocket.RequestResponse.Responder.{
  Responder, respond, handle_early, call_handler, construct, responder_call, to_respond,
}

-- A request makes a responder, which gets the frames behind it.
abbrev pub serve : (Payload → Outcome) → ℕ → List Frame → List Event
serve handler fragment_size (request_response f ∷ frames) =
    let (events, s) = construct handler f fragment_size in
    events
    ++ (run (responder_call handler) (map to_respond frames) s (registered_after events false)).0
serve handler fragment_size _ = []

-- A responder with no fragments and no receiver
abbrev pub fresh : Number → ℕ → Responder
fresh id fragment_size = record {
  stream_id = id;
  fragment_size = fragment_size;
  done = false;
  holder = holder_of idle;
  has_receiver = false;
}

-- A responder that waits for the rest of its request
abbrev with_holder : Responder → FragmentsHolder → Responder
with_holder s holder = record s { holder = holder }

abbrev Waits : Responder → Type 0
Waits s = s.has_receiver ≡ false

module _ (handler : Payload → Outcome) where
  respond-more :
      (f : PayloadFrame) (s : Responder) (holder : FragmentsHolder)
      → IsFlagged f.flags
      → Waits s
      → Flags.has_follows f.flags ≡ true
      → respond handler (payload f) (with_holder s holder)
        ≡ ([], with_holder s (Reassembler.add holder f.body f.metadata))
  unfolding respond handle_early
  respond-more f s holder flagged waits follows = rw (waits, follows) refl

  respond-last :
      (f : PayloadFrame) (s : Responder) (holder : FragmentsHolder)
      → IsFlagged f.flags
      → Waits s
      → Flags.has_follows f.flags ≡ false
      → holder.has_fragments ≡ true
      → respond handler (payload f) (with_holder s holder)
        ≡ call_handler handler
            (last_payload holder f.body f.metadata)
            (with_holder s (holder_of idle))
  unfolding respond handle_early reassemble
  respond-last f s holder flagged waits last held = rw (waits, last, held) refl

  -- What is received is what the handler gets.
  run_respond-receive :
      (g : Generator Frame (Unit {0})) (s : Responder) (holder : FragmentsHolder)
      (content : Payload)
      → Waits s
      → holder.has_fragments ≡ true
      → AllFlagged g
      → receive holder g ≡ some content
      → (run (responder_call handler) (map to_respond (yields g)) (with_holder s holder) true).0
        ≡ (call_handler handler content (with_holder s (holder_of idle))).0
  run_respond-receive g s holder content waits held flagged e =
      ap (λ r. r.0)
        (run-receive (responder_call handler) to_respond with_holder Waits
          (λ holder. holder.has_fragments ≡ true) add-has_fragments (λ f. IsFlagged f.flags)
          (λ content s. call_handler handler content (with_holder s (holder_of idle))) respond-more
          respond-last g s holder content waits held flagged e)

module _ (handler : Payload → Outcome) (id : Number) (n : ℕ) where
  serve-fragment :
      (b : Bytes) (m : Option Bytes) (size : ℕ)
      → let content : Payload = record { body = some b; metadata = m } in
        0 < length b
        → 3 < size
        → is_fragmentable content size FrameTypes.request_response ≡ true
        → serve handler n (yields (fragment id content size response_kind false))
          ≡ connected ∷ (call_handler handler content (fresh id n)).0
  unfolding fragment construct receive
  serve-fragment b m size h roomy big =
      let content : Payload = record { body = some b; metadata = m } in
      let cut =
        fragments-StartsWith id size false (request_frame response_kind id) 0
          (request_frame-part response_kind id) (omega arith) b m h in
      let whole =
        rw (cut.is, cut.follows) at
          (receive-fragment id b m size response_kind false h roomy big) in
      let holder = Reassembler.add (holder_of idle) cut.body cut.metadata in
      rw (cut.is, cut.follows)
        (ap (λ events. connected ∷ events)
          (run_respond-receive handler cut.rest (fresh id n) holder content refl
            (add-has_fragments (holder_of idle) cut.body cut.metadata) cut.flagged whole))

  serve-whole :
      (content : Payload)
      → serve handler n (
          request_response (record {
            flags = metadata_flag content.metadata;
            body = content.body;
            metadata = content.metadata;
            stream_id = id;
          })
          ∷ [])
        ≡ connected ∷ (call_handler handler content (fresh id n)).0
  unfolding construct
  serve-whole content = rw (metadata_flag-follows content.metadata, append-nil) refl

  serve_payload :
      (body metadata : Option Bytes) (size : ℕ)
      → let content : Payload = record { body = body; metadata = metadata } in
        is_fragmentable content size FrameTypes.request_response ≡ true
        → (0 < byte_length body) × (3 < size)
        → serve handler n (yields (fragment id content size response_kind false))
          ≡ connected ∷ (call_handler handler content (fresh id n)).0
  serve_payload none m size big (h, roomy) = absurd (omega arith)
  serve_payload (some b) m size big (h, roomy) = serve-fragment b m size h roomy big

  pub serve-request_frames :
      (s : Requester)
      → IsCut s.request s.fragment_size FrameTypes.request_response
      → serve handler n (request_frames id s)
        ≡ connected ∷ (call_handler handler s.request (fresh id n)).0
  unfolding request_frames
  serve-request_frames s roomy =
      elim (Bool-cases (is_fragmentable s.request s.fragment_size FrameTypes.request_response)) [
        | inl cut ↦
            rw cut (serve_payload s.request.body s.request.metadata s.fragment_size cut (roomy cut))
        | inr whole ↦ rw whole (serve-whole s.request)
      ]
