-- ===== src/RequestStream/Serving.antt =====
-- A request/stream request at the other end: its frames, sent whole or cut, make the responder call the
-- application's handler with the payload and the request count.
use rsocket.Prelude.{
  ℕ, ◌<◌, ◌≡◌, refl, ap, true, false, Option, none, some, List, [], ◌∷◌, ◌++◌, map, append-nil,
  length, Bool-cases, inl, inr, arith,
}
use rsocket.Prelude.Number.{Number, pos, lt}
use rsocket.Prelude.Generator.{yields}
use rsocket.Bytes.{Bytes}
use rsocket.Frames.{Frame, PayloadFrame, payload, request_stream}
use rsocket.Frames.Flags
use rsocket.Frames.FrameTypes
use rsocket.Reassembler as Reassembler
use rsocket.Reassembler.{Payload, FragmentsHolder, reassemble}
use rsocket.Reassembler.Shape.{idle, holder_of, add-has_fragments}
use rsocket.Fragmenter.{
  fragment_with_request_n, stream_kind, request_many_frame, is_fragmentable, metadata_flag,
  byte_length,
}
use rsocket.Fragmenter.Receive.{receive, last_payload}
use rsocket.Fragmenter.Flagged.{IsFlagged}
use rsocket.Fragmenter.Request.{fragments-StartsWith, IsCutMany, metadata_flag-follows}
use rsocket.Fragmenter.RoundTrip.{receive-fragment_with_request_n, request_many_frame-part}
use rsocket.Fragmenter.Whole.{LeavesRoom}
use rsocket.Streams.{Event, connected, registered_after}
use rsocket.Streams.Sending.{Outcome}
use rsocket.Streams.Runs.{run}
use rsocket.Streams.Serving.{run-receive}
use rsocket.RequestStream.{Requester, request_frames}
use rsocket.RequestStream.Responder.{
  Responder, respond, handle_early, call_handler, construct, construct_rest, responder_call,
  to_respond,
}

-- A request makes a responder, which gets the frames behind it.
abbrev pub serve : (Payload → Option Number → Outcome) → ℕ → List Frame → List Event
serve handler fragment_size (request_stream f ∷ frames) =
    let (events, s) = construct handler f fragment_size in
    events
    ++ (run (responder_call handler) (map to_respond frames) s (registered_after events false)).0
serve handler fragment_size _ = []

-- A responder with no fragments and no receiver, which knows the request count or not.
abbrev pub fresh : Number → ℕ → Option Number → Responder
fresh id fragment_size n = record {
  stream_id = id;
  fragment_size = fragment_size;
  initial_request_n = n;
  done = false;
  holder = holder_of idle;
  has_receiver = false;
}

abbrev with_holder : Responder → FragmentsHolder → Responder
with_holder s holder = record s { holder = holder }

abbrev Waits : Responder → Type 0
Waits s = s.has_receiver ≡ false

module _ (handler : Payload → Option Number → Outcome) where
  respond-more :
      (f : PayloadFrame) (s : Responder) (holder : FragmentsHolder)
      → IsFlagged f.flags
      → Waits s
      → Flags.has_follows f.flags ≡ true
      → respond handler (payload f) (with_holder s holder)
        ≡ ([], with_holder s (Reassembler.add holder f.body f.metadata))
  unfolding respond handle_early
  respond-more f s holder flagged waits follows = rw (waits, follows) refl

  -- The end of a request that is cut
  abbrev called : Payload → Responder → List Event × Responder
  called content s =
      call_handler handler content s.initial_request_n (with_holder s (holder_of idle))

  respond-last :
      (f : PayloadFrame) (s : Responder) (holder : FragmentsHolder)
      → IsFlagged f.flags
      → Waits s
      → Flags.has_follows f.flags ≡ false
      → holder.has_fragments ≡ true
      → respond handler (payload f) (with_holder s holder)
        ≡ called (last_payload holder f.body f.metadata) s
  unfolding respond handle_early reassemble
  respond-last f s holder flagged waits last held = rw (waits, last, held) refl

  -- The handler gets the request and its count, from a responder that is fresh.
  pub record IsServed (id : Number) (n : ℕ) (content : Payload) (count : Number)
      (events : List Event) : Type 0 where
    pub known : Option Number
    pub is : events ≡ connected ∷ (call_handler handler content (some count) (fresh id n known)).0

  module _ (id : Number) (n : ℕ) (count : Number) (positive : lt count (pos 1) ≡ false) where
    serve-cut :
        (b : Bytes) (m : Option Bytes) (size : ℕ)
        → let content : Payload = record { body = some b; metadata = m } in
          0 < length b
          → 6 < size
          → is_fragmentable content size FrameTypes.request_stream ≡ true
          → LeavesRoom size 3 m
          → IsServed id n content count (
              serve handler n
                (yields (fragment_with_request_n id content size stream_kind count false)))
    unfolding fragment_with_request_n construct construct_rest receive
    serve-cut b m size h roomy big leaves =
        let content : Payload = record { body = some b; metadata = m } in
        let cut =
          fragments-StartsWith id size false (request_many_frame stream_kind id count) 3
            (request_many_frame-part stream_kind id count) (omega arith) b m h in
        let whole =
          rw (cut.is, cut.follows) at
            (receive-fragment_with_request_n id count b m size stream_kind false h roomy big
              leaves) in
        let holder = Reassembler.add (holder_of idle) cut.body cut.metadata in
        record {
          known = some count;
          is =
              rw (cut.is, positive, cut.follows)
                (ap (λ r. connected ∷ r.0)
                  (run-receive (responder_call handler) to_respond with_holder Waits
                    (λ holder. holder.has_fragments ≡ true) add-has_fragments
                    (λ f. IsFlagged f.flags) called respond-more respond-last cut.rest
                    (fresh id n (some count)) holder content refl
                    (add-has_fragments (holder_of idle) cut.body cut.metadata) cut.flagged whole));
        }

    serve-whole :
        (content : Payload)
        → IsServed id n content count (
            serve handler n (
              request_stream (record {
                flags = metadata_flag content.metadata;
                body = content.body;
                metadata = content.metadata;
                request_n = count;
                stream_id = id;
              })
              ∷ []))
    unfolding construct construct_rest
    serve-whole content = record {
      known = none;
      is = rw (positive, metadata_flag-follows content.metadata, append-nil) refl;
    }

    serve_payload :
        (body metadata : Option Bytes) (size : ℕ)
        → let content : Payload = record { body = body; metadata = metadata } in
          is_fragmentable content size FrameTypes.request_stream ≡ true
          → (0 < byte_length body) × (6 < size)
          → LeavesRoom size 3 metadata
          → IsServed id n content count (
              serve handler n
                (yields (fragment_with_request_n id content size stream_kind count false)))
    serve_payload none m size big (h, roomy) leaves = absurd (omega arith)
    serve_payload (some b) m size big (h, roomy) leaves = serve-cut b m size h roomy big leaves

  pub serve-request_frames :
      (id : Number) (n : ℕ) (s : Requester)
      → lt s.initial_request_n (pos 1) ≡ false
      → IsCutMany s.request s.fragment_size FrameTypes.request_stream
      → LeavesRoom s.fragment_size 3 s.request.metadata
      → IsServed id n s.request s.initial_request_n (serve handler n (request_frames id s))
  unfolding request_frames
  serve-request_frames id n s positive fits leaves =
      let count = s.initial_request_n in
      elim (Bool-cases (is_fragmentable s.request s.fragment_size FrameTypes.request_stream)) [
        | inl cut ↦ rw cut (
            serve_payload id n count positive s.request.body s.request.metadata s.fragment_size cut
              (fits cut) leaves)
        | inr whole ↦ rw whole (serve-whole id n count positive s.request)
      ]
