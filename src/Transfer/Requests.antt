-- ===== src/Transfer/Requests.antt =====
-- A fire-and-forget request over a connection: RequestFnFStream.ts at both ends, with the bytes of
-- Codecs.ts between them.
use rsocket.Prelude.{◌≡◌, ap, Bool, false, [], ◌∷◌, All}
use rsocket.Prelude.Number.{Number}
use rsocket.Prelude.Result.{ok, ◌>>=◌}
use rsocket.Bytes.{Bytes}
use rsocket.Bytes.ReadBack.{IsInt32}
use rsocket.Frames.FrameTypes
use rsocket.Reassembler.{Payload}
use rsocket.Fragmenter.{fnf_kind}
use rsocket.Fragmenter.Request.{IsCut}
use rsocket.Codecs.Common.{TextCodec}
use rsocket.Codecs.Stream.RoundTrip.{IsPartial}
use rsocket.RequestFnf.{Requester, request_frames}
use rsocket.RequestFnf.Serving.{serve, delivered, delivered-serve}
use rsocket.Transfer.{carried, carried-pieces}
use rsocket.Transfer.Pieces.{IsPiece}
use rsocket.Transfer.Payloads.{CanTravel, frames-pieces, metadata_flag-Announces}

fnf-pieces :
    (id : Number) (s : Requester)
    → IsCut s.request s.fragment_size FrameTypes.request_fnf
    → CanTravel s.request s.fragment_size FrameTypes.request_fnf
    → All (IsPiece id) (request_frames id s)
unfolding request_frames
fnf-pieces id s asks travels =
    frames-pieces id s.request s.fragment_size fnf_kind false _ asks travels
      (metadata_flag-Announces s.request.metadata)

-- The frames of a fire-and-forget request, sent as bytes, make the other end call its handler once, with
-- the payload that was sent; the front of a further frame has come behind them. The request is sent
-- whole, or has data and is cut into fragments of more than three bytes; it has no part that is there
-- and empty, and its frames have lengths of 24 bits. The id fits 32 bits.
pub delivered-carried :
    (text : TextCodec) (throws : Payload → Bool) (id : Number) (s : Requester) (t : Bytes)
    → IsInt32 id
    → IsPartial t
    → IsCut s.request s.fragment_size FrameTypes.request_fnf
    → CanTravel s.request s.fragment_size FrameTypes.request_fnf
    → (carried text t (request_frames id s) >>= λ frames. ok (delivered (serve throws frames)))
      ≡ ok (s.request ∷ [])
delivered-carried text throws id s t range part asks travels =
    rw (carried-pieces text id range t (request_frames id s) part (fnf-pieces id s asks travels))
      (ap ok (delivered-serve throws id s asks))
