-- ===== src/Transfer/Items.antt =====
-- A whole request/stream over a connection: RequestStreamStream.ts at both ends, with the
-- bytes of Codecs.ts between them.
use rsocket.Prelude.{
  ℕ, ap₂, ◌∙◌, Bool, Option, none, some, if◌then◌else◌, ◌≡◌, refl, ap, true, false, List, [], ◌∷◌,
  ◌++◌, map, All, All-append, append-nil, arith, if_false,
}
use rsocket.Prelude.Number.{Number, pos, lt}
use rsocket.Prelude.Result.{ok, ◌>>=◌}
use rsocket.Bytes.{Bytes}
use rsocket.Bytes.ReadBack.{IsInt32}
use rsocket.Frames.FrameTypes
use rsocket.Reassembler.{Payload}
use rsocket.Reassembler.Shape.{idle, holder_of}
use rsocket.Fragmenter.Request.{IsCut, IsCutMany}
use rsocket.Fragmenter.Every.{HasRoom}
use rsocket.Fragmenter.Whole.{LeavesRoom}
use rsocket.Codecs.Common.{TextCodec}
use rsocket.Codecs.Stream.RoundTrip.{IsPartial}
use rsocket.Streams.{
  Event, sent, disconnected, frames_of, connected, registered_after, Extension, extension_frames,
}
use rsocket.Streams.Runs.{frames_of-map_sent, registered_after-sent, run, frames_of-sent}
use rsocket.Streams.Sending.{Outcome, response_frames, complete_frame}
use rsocket.RequestStream.{Requester, handle_ready, request_frames}
use rsocket.RequestStream.Serving.{serve, fresh, serve-request_frames}
use rsocket.RequestStream.Calls.{frame_call, call_of}
use rsocket.RequestStream.Responder as Responder
use rsocket.RequestStream.Responder.{Responder, signalled_all, call_handler}
use rsocket.RequestStream.Delivery.{items, received, received-items}
use rsocket.Transfer.{carried, carried-pieces}
use rsocket.Transfer.Pieces.{IsPiece}
use rsocket.Transfer.Payloads.{
  CanTravel, CanTravelMany, stream_frames-pieces, complete_frame-IsPiece, response_frames-pieces,
}

items-pieces :
    (contents : List Payload) (r : Responder)
    → r.done ≡ false
    → All (λ content. IsCut content r.fragment_size FrameTypes.payload) contents
    → All (λ content. CanTravel content r.fragment_size FrameTypes.payload) contents
    → All (IsPiece r.stream_id) (frames_of (signalled_all (items contents) r).0)
unfolding Responder.on_next Responder.on_complete
items-pieces [] r live cut travel =
    let told : List Event = sent (complete_frame r.stream_id) ∷ disconnected ∷ [] in
    let kept : List Event × Responder = ([], r) in
    let ended : List Event × Responder = (told, record r { done = true }) in
    rw (if_false r.done kept ended live) (complete_frame-IsPiece r.stream_id, tt)
items-pieces (content ∷ contents) r live (fits, cut) (travels, travel) =
    let frames = response_frames r.stream_id r.fragment_size content false in
    let r' = record r { done = false } in
    let more = (signalled_all (items contents) r').0 in
    let kept : List Event × Responder = ([], r) in
    let gone : List Event × Responder = (map sent frames ++ [], r') in
    rw (if_false r.done kept gone live, append-nil, frames_of-sent frames more)
      (All-append (IsPiece r.stream_id) frames (frames_of more)
        (response_frames-pieces r.stream_id r.fragment_size content false fits travels)
        (items-pieces contents r' refl cut travel))

-- A handler that answers at once, with all its payloads
abbrev pub listing : (Payload → Option Number → List Payload) → Payload → Option Number → Outcome
listing reply content n = record { signals = items (reply content n); thrown = none }

frames_of-listing :
    (reply : Payload → Option Number → List Payload) (content : Payload) (n : Option Number)
    (r : Responder)
    → frames_of (call_handler (listing reply) content n r).0
      ≡ frames_of (signalled_all (items (reply content n)) r).0
unfolding call_handler
frames_of-listing reply content n r =
    ap frames_of (append-nil (signalled_all (items (reply content n)) r).0)

stream_ready-sends :
    (id : Number) (s : Requester)
    → s.done ≡ false
    → s.extension ≡ none
    → handle_ready id s
      ≡ (connected ∷ map sent (request_frames id s), record s { stream_id = some id })
unfolding handle_ready
stream_ready-sends id s live plain =
    let out : Bool → Option Extension → List Event × Requester = λ d e. if d then ([], s) else (
      connected ∷ map sent (request_frames id s ++ extension_frames id e),
      record s { stream_id = some id },
    ) in
    ap₂ out live plain
    ∙ ap (λ frames. (connected ∷ map sent frames, record s { stream_id = some id }))
        (append-nil (request_frames id s))

HasRoom-LeavesRoom :
    (size cost : ℕ) (m : Option Bytes) → HasRoom size cost m → LeavesRoom size cost m
HasRoom-LeavesRoom size cost none h = tt
HasRoom-LeavesRoom size cost (some []) h = tt
HasRoom-LeavesRoom size cost (some (x ∷ xs)) h = ground arith

-- A requester of a stream that is neither done nor holds fragments, and has no extension waiting, sends
-- its request as bytes to a responder whose handler answers at once, with the payloads that `reply`
-- makes of the request and its count, and then completes; the responder's frames come back as bytes, and
-- each end has the front of a further frame behind what it reads. The requester's receiver gets those
-- payloads in order, and then that they are complete, and nothing else. Each payload fits in a frame, or
-- has data and is cut, into fragments of more than three bytes and the request into those of more than
-- six; it has no part that is there and empty, and its frames have lengths of 24 bits. The request's
-- metadata fills its first fragment or leaves more than twice the room of a count. The id and the count
-- fit 32 bits, and the count is positive.
pub stream-carried :
    (text : TextCodec) (reply : Payload → Option Number → List Payload) (id : Number) (n : ℕ)
    (s : Requester) (t u : Bytes)
    → s.done ≡ false
    → s.extension ≡ none
    → s.holder ≡ holder_of idle
    → IsInt32 id
    → IsInt32 s.initial_request_n
    → lt s.initial_request_n (pos 1) ≡ false
    → IsPartial t
    → IsPartial u
    → IsCutMany s.request s.fragment_size FrameTypes.request_stream
    → CanTravelMany s.request s.fragment_size
    → All
        (λ content. IsCut content n FrameTypes.payload)
        (reply s.request (some s.initial_request_n))
    → All
        (λ content. CanTravel content n FrameTypes.payload)
        (reply s.request (some s.initial_request_n))
    → let (asked, s') = handle_ready id s in
      (carried text t (frames_of asked) >>= λ request.
      carried text u (frames_of (serve (listing reply) n request)) >>= λ answer.
      ok (run call_of (map frame_call answer) s' (registered_after asked false)).0)
      ≡ ok (received (reply s.request (some s.initial_request_n)))
stream-carried text reply id n s t u live plain empty range count positive pt pu fits travels cut
      travel =
    let s' = record s { stream_id = some id } in
    let frames = request_frames id s in
    let contents = reply s.request (some s.initial_request_n) in
    let served =
      serve-request_frames (listing reply) id n s positive fits
        (HasRoom-LeavesRoom s.fragment_size 3 s.request.metadata travels.2) in
    let r = fresh id n served.known in
    let back = frames_of (signalled_all (items contents) r).0 in
    rw
      (
        stream_ready-sends id s live plain,
        frames_of-map_sent frames,
        carried-pieces text id range t frames pt (stream_frames-pieces id s count fits travels),
        served.is,
        frames_of-listing reply s.request (some s.initial_request_n) r,
        carried-pieces text id range u back pu (items-pieces contents r refl cut travel),
        registered_after-sent frames true,
      )
      (ap ok (received-items contents r s' refl empty cut))
