-- ===== src/Transfer/Exchange.antt =====
-- A whole request/response over a connection: RequestResponseStream.ts at both ends, with the bytes
-- of Codecs.ts between them.
use rsocket.Prelude.{ℕ, ◌≡◌, ap, true, false, none, some, [], ◌∷◌, map, All}
use rsocket.Prelude.Number.{Number}
use rsocket.Prelude.Result.{ok, ◌>>=◌}
use rsocket.Bytes.{Bytes}
use rsocket.Bytes.ReadBack.{IsInt32}
use rsocket.Frames.FrameTypes
use rsocket.Reassembler.{Payload}
use rsocket.Reassembler.Shape.{idle, holder_of}
use rsocket.Fragmenter.{response_kind}
use rsocket.Fragmenter.Request.{IsCut}
use rsocket.Codecs.Common.{TextCodec}
use rsocket.Codecs.Stream.RoundTrip.{IsPartial}
use rsocket.Streams.{frames_of, disconnected, on_next, registered_after}
use rsocket.Streams.Runs.{frames_of-map_sent, registered_after-sent}
use rsocket.Streams.Sending.{response_frames}
use rsocket.RequestResponse.{Requester, handle_ready, request_frames}
use rsocket.RequestResponse.Calls.{frame_call, run}
use rsocket.RequestResponse.Serving.{serve, serve-request_frames}
use rsocket.RequestResponse.Exchange.{
  answering, frames_of-answer, handle_ready-sends, run-response_frames,
}
use rsocket.Transfer.{carried, carried-pieces}
use rsocket.Transfer.Pieces.{IsPiece}
use rsocket.Transfer.Payloads.{
  CanTravel, frames-pieces, response_frames-pieces, metadata_flag-Announces,
}

request_frames-pieces :
    (id : Number) (s : Requester)
    → IsCut s.request s.fragment_size FrameTypes.request_response
    → CanTravel s.request s.fragment_size FrameTypes.request_response
    → All (IsPiece id) (request_frames id s)
unfolding request_frames
request_frames-pieces id s asks travels =
    frames-pieces id s.request s.fragment_size response_kind false _ asks travels
      (metadata_flag-Announces s.request.metadata)

-- A requester that is neither done nor holds fragments, and has no extension waiting, sends its
-- request as bytes to a responder whose handler answers at once, with `reply` of what it gets; the
-- responder's frames come back as bytes, and each end has the front of a further frame behind what it
-- reads. The requester's receiver gets `reply` of the request, as the last payload, and nothing else.
-- Either payload fits in a frame, or has data and is cut into fragments of more than three bytes; it
-- has no part that is there and empty, and its frames have lengths of 24 bits. The id fits 32 bits.
pub exchange-carried :
    (text : TextCodec) (reply : Payload → Payload) (id : Number) (n : ℕ) (s : Requester)
    (t u : Bytes)
    → s.done ≡ false
    → s.extension ≡ none
    → s.holder ≡ holder_of idle
    → IsInt32 id
    → IsPartial t
    → IsPartial u
    → IsCut s.request s.fragment_size FrameTypes.request_response
    → IsCut (reply s.request) n FrameTypes.payload
    → CanTravel s.request s.fragment_size FrameTypes.request_response
    → CanTravel (reply s.request) n FrameTypes.payload
    → let (asked, s') = handle_ready id s in
      (carried text t (frames_of asked) >>= λ request.
      carried text u (frames_of (serve (answering reply) n request)) >>= λ answer.
      ok
        (run
          (map frame_call answer)
          (record { stream = s'; registered = registered_after asked false })).0)
      ≡ ok (disconnected ∷ on_next (reply s.request) true ∷ [])
exchange-carried text reply id n s t u live plain empty range pt pu asks answers asked answered =
    let s' = record s { stream_id = some id } in
    let sent = request_frames id s in
    let back = response_frames id n (reply s.request) true in
    rw
      (
        handle_ready-sends id s live plain,
        frames_of-map_sent sent,
        carried-pieces text id range t sent pt (request_frames-pieces id s asks asked),
        serve-request_frames (answering reply) id n s asks,
        frames_of-answer reply s.request id n,
        carried-pieces text id range u back pu
            (response_frames-pieces id n (reply s.request) true answers answered),
        registered_after-sent sent true,
      )
      (ap ok (run-response_frames id n s' empty (reply s.request) answers))
