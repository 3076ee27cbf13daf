-- ===== src/RequestFnf/Serving.antt =====
-- The two ends of fire-and-forget against each other: the frames that one sends reach the other in
-- order.
use rsocket.Prelude.{
  ℕ, ◌<◌, ◌≡◌, refl, ap, Bool, true, false, Option, none, some, List, [], ◌∷◌, ◌++◌, map,
  Bool-cases, inl, inr, arith,
}
use rsocket.Prelude.Number.{Number}
use rsocket.Prelude.Generator.{Generator, yields}
use rsocket.Bytes.{Bytes}
use rsocket.Frames.{Frame, PayloadFrame, payload, request_fnf}
use rsocket.Frames.Flags
use rsocket.Frames.FrameTypes
use rsocket.Reassembler as Reassembler
use rsocket.Reassembler.{Payload, FragmentsHolder, reassemble}
use rsocket.Reassembler.Shape.{idle, holder_of, add-has_fragments}
use rsocket.Fragmenter.{
  fragment, fnf_kind, request_frame, is_fragmentable, metadata_flag, byte_length,
}
use rsocket.Fragmenter.Receive.{receive, last_payload}
use rsocket.Fragmenter.Flagged.{IsFlagged, AllFlagged}
use rsocket.Fragmenter.Request.{fragments-StartsWith, IsCut, metadata_flag-follows}
use rsocket.Fragmenter.RoundTrip.{receive-fragment, request_frame-part}
use rsocket.Streams.{Event, handler_called, disconnected, registered_after}
use rsocket.Streams.Runs.{run}
use rsocket.Streams.Serving.{run-receive}
use rsocket.RequestFnf.{Requester, request_frames, Responder, respond, construct, call_handler}
use rsocket.RequestFnf.Delivery.{to_respond, responder_call}

-- What the handler is called with
abbrev pub delivered : List Event → List Payload
delivered [] = []
delivered (handler_called content n ∷ events) = content ∷ delivered events
delivered (_ ∷ events) = delivered events

-- A request makes a responder, which gets the frames behind it.
abbrev pub serve : (Payload → Bool) → List Frame → List Event
serve throws (request_fnf f ∷ frames) =
    let (events, s) = construct throws f in
    events
    ++ (run (responder_call throws) (map to_respond frames) s (registered_after events false)).0
serve throws _ = []

abbrev with_holder : Responder → FragmentsHolder → Responder
with_holder s holder = record s { holder = holder }

-- The end of a request: the handler is called, and the stream is done.
abbrev served : (Payload → Bool) → Payload → Responder → List Event × Responder
served throws content s =
    let (events, s') = call_handler throws content (with_holder s (holder_of idle)) in
    (disconnected ∷ events, s')

module _ (throws : Payload → Bool) (f : PayloadFrame) (s : Responder) (holder : FragmentsHolder)
    (flagged : IsFlagged f.flags) (waits : Unit {0}) where
  respond-more :
      Flags.has_follows f.flags ≡ true
      → respond throws (payload f) (with_holder s holder)
        ≡ ([], with_holder s (Reassembler.add holder f.body f.metadata))
  unfolding respond
  respond-more follows = rw follows refl

  respond-last :
      Flags.has_follows f.flags ≡ false
      → holder.has_fragments ≡ true
      → respond throws (payload f) (with_holder s holder)
        ≡ served throws (last_payload holder f.body f.metadata) s
  unfolding respond reassemble
  respond-last last held = rw (last, held) refl

run_respond-receive :
    (throws : Payload → Bool) (g : Generator Frame (Unit {0})) (s : Responder)
    (holder : FragmentsHolder) (content : Payload)
    → holder.has_fragments ≡ true
    → AllFlagged g
    → receive holder g ≡ some content
    → delivered
        (run (responder_call throws) (map to_respond (yields g)) (with_holder s holder) true).0
      ≡ content ∷ []
run_respond-receive throws g s holder content held flagged e =
    ap (λ r. delivered r.0)
      (run-receive (responder_call throws) to_respond with_holder (λ s. Unit)
        (λ holder. holder.has_fragments ≡ true) add-has_fragments (λ f. IsFlagged f.flags)
        (served throws) (respond-more throws) (respond-last throws) g s holder content tt held
        flagged e)

module _ (throws : Payload → Bool) (id : Number) where
  serve_cut :
      (body metadata : Option Bytes) (size : ℕ)
      → let content : Payload = record { body = body; metadata = metadata } in
        is_fragmentable content size FrameTypes.request_fnf ≡ true
        → (0 < byte_length body) × (3 < size)
        → delivered (serve throws (yields (fragment id content size fnf_kind false))) ≡ content ∷ []
  unfolding fragment construct receive
  serve_cut none m size big (h, roomy) = absurd (omega arith)
  serve_cut (some b) m size big (h, roomy) =
      let cut =
        fragments-StartsWith id size false (request_frame fnf_kind id) 0
          (request_frame-part fnf_kind id) (omega arith) b m h in
      let content : Payload = record { body = some b; metadata = m } in
      let whole =
        rw (cut.is, cut.follows) at (receive-fragment id b m size fnf_kind false h roomy big) in
      let next : Responder = record {
        stream_id = id;
        done = false;
        holder = holder_of idle;
        has_cancellable = false;
      } in
      let holder = Reassembler.add (holder_of idle) cut.body cut.metadata in
      rw (cut.is, cut.follows)
        (run_respond-receive throws cut.rest next holder content
          (add-has_fragments (holder_of idle) cut.body cut.metadata) cut.flagged whole)

  serve_whole :
      (content : Payload)
      → delivered (
          serve throws (
            request_fnf (record {
              flags = metadata_flag content.metadata;
              body = content.body;
              metadata = content.metadata;
              stream_id = id;
            })
            ∷ []))
        ≡ content ∷ []
  unfolding construct
  serve_whole content = rw (metadata_flag-follows content.metadata) refl

  -- The frames of a fire-and-forget request, which is sent whole or has data and is cut into fragments
  -- of more than three bytes, make the other end call its handler once, with the payload that was sent.
  pub delivered-serve :
      (s : Requester)
      → IsCut s.request s.fragment_size FrameTypes.request_fnf
      → delivered (serve throws (request_frames id s)) ≡ s.request ∷ []
  unfolding request_frames
  delivered-serve s roomy =
      elim (Bool-cases (is_fragmentable s.request s.fragment_size FrameTypes.request_fnf)) [
        | inl cut ↦
            rw cut (serve_cut s.request.body s.request.metadata s.fragment_size cut (roomy cut))
        | inr whole ↦ rw whole (serve_whole s.request)
      ]
