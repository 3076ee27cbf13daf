-- ===== src/Multiplexer/Handlers.antt =====
-- The streams that a connection has, and `DefaultStreamRequestHandler` of
-- packages/rsocket-core/src/RSocketSupport.ts, which makes the responders.
use rsocket.Prelude.{ℕ, Bool, Option, none, some, List, [], ◌∷◌}
use rsocket.Prelude.Number.{Number, pos}
use rsocket.Frames.{
  Frame, RequestFrame, RequestManyFrame, request_fnf, request_response, request_stream,
  request_channel, error,
}
use rsocket.Frames.Flags
use rsocket.Reassembler.{Payload}
use rsocket.Streams.{StreamError, Event, sent}
use rsocket.Streams.Messages.{codes}
use rsocket.Streams.Sending as Sending
use rsocket.RequestResponse as RequestResponse
use rsocket.RequestResponse.Responder as ResponseResponder
use rsocket.RequestFnf as RequestFnf
use rsocket.RequestStream as RequestStream
use rsocket.RequestStream.Responder as StreamResponder
use rsocket.RequestChannel as RequestChannel
use rsocket.RequestChannel.Responder as ChannelResponder
use rsocket.RequestChannel.Serving as ChannelServing

-- `StreamFrameHandler`: a requester, or a responder with the handler of the application that it has.
pub data StreamHandler : Type 0 where
  response_requester : RequestResponse.Requester → StreamHandler
  fnf_requester : RequestFnf.Requester → StreamHandler
  stream_requester : RequestStream.Requester → StreamHandler
  channel_requester : RequestChannel.Requester → StreamHandler
  response_responder : (Payload → Sending.Outcome) → ResponseResponder.Responder → StreamHandler
  fnf_responder : (Payload → Bool) → RequestFnf.Responder → StreamHandler
  stream_responder :
      (Payload → Option Number → Sending.Outcome) → StreamResponder.Responder → StreamHandler
  channel_responder :
      (Payload → Option Number → Bool → ChannelResponder.Outcome)
      → ChannelResponder.Responder
      → StreamHandler

-- `streamId`, which a requester has from `handleReady` on
abbrev pub id_of : StreamHandler → Option Number
id_of (response_requester s) = s.stream_id
id_of (fnf_requester s) = s.stream_id
id_of (stream_requester s) = s.stream_id
id_of (channel_requester s) = s.stream_id
id_of (response_responder handler s) = some s.stream_id
id_of (fnf_responder throws s) = some s.stream_id
id_of (stream_responder handler s) = some s.stream_id
id_of (channel_responder handler s) = some s.stream_id

-- `StreamLifecycleHandler`: the streams that get their id from the multiplexer
pub data Opening : Type 0 where
  open_response : RequestResponse.Requester → Opening
  open_fnf : RequestFnf.Requester → Opening
  open_stream : RequestStream.Requester → Opening
  open_channel : RequestChannel.Requester → Opening

-- Whether `handleReady` returns false
abbrev pub refuses : Opening → Bool
refuses (open_response s) = s.done
refuses (open_fnf s) = s.done
refuses (open_stream s) = s.done
refuses (open_channel s) = s.outbound_done

abbrev pub on_stream :
    {S : Type 0} → (S → StreamHandler) → List Event × S → List Event × StreamHandler
on_stream make (events, s) = (events, make s)

-- `handleReady` of a stream
unfoldable pub ready : Number → Opening → List Event × StreamHandler
ready id (open_response s) = on_stream response_requester (RequestResponse.handle_ready id s)
ready id (open_fnf s) = on_stream fnf_requester (RequestFnf.handle_ready id s)
ready id (open_stream s) = on_stream stream_requester (RequestStream.handle_ready id s)
ready id (open_channel s) = on_stream channel_requester (RequestChannel.handle_ready id s)

-- `handleReject` of a stream
unfoldable pub reject : ℕ → Opening → List Event
reject e (open_response s) = (RequestResponse.handle_reject e s).0
reject e (open_fnf s) = (RequestFnf.handle_reject e s).0
reject e (open_stream s) = (RequestStream.handle_reject e s).0
reject e (open_channel s) = (RequestChannel.handle_reject e s).0

-- `handle` of a stream
unfoldable pub deliver : Frame → StreamHandler → List Event × StreamHandler
deliver frame (response_requester s) = on_stream response_requester (RequestResponse.handle frame s)
deliver frame (fnf_requester s) = on_stream fnf_requester (RequestFnf.handle frame s)
deliver frame (stream_requester s) = on_stream stream_requester (RequestStream.handle frame s)
deliver frame (channel_requester s) = on_stream channel_requester (RequestChannel.handle frame s)
deliver frame (response_responder handler s) =
    on_stream (response_responder handler) (ResponseResponder.respond handler frame s)
deliver frame (fnf_responder throws s) =
    on_stream (fnf_responder throws) (RequestFnf.respond throws frame s)
deliver frame (stream_responder handler s) =
    on_stream (stream_responder handler) (StreamResponder.respond handler frame s)
deliver frame (channel_responder handler s) =
    on_stream (channel_responder handler) (ChannelServing.respond handler frame s)

-- `close` of a stream
unfoldable pub close_stream : Option StreamError → StreamHandler → List Event × StreamHandler
close_stream e (response_requester s) = on_stream response_requester (RequestResponse.close e s)
close_stream e (fnf_requester s) = on_stream fnf_requester (RequestFnf.close e s)
close_stream e (stream_requester s) = on_stream stream_requester (RequestStream.close e s)
close_stream e (channel_requester s) = on_stream channel_requester (RequestChannel.close e s)
close_stream e (response_responder handler s) =
    on_stream (response_responder handler) (ResponseResponder.close_responder s)
close_stream e (fnf_responder throws s) =
    on_stream (fnf_responder throws) (RequestFnf.close_responder s)
close_stream e (stream_responder handler s) =
    on_stream (stream_responder handler) (StreamResponder.close_responder s)
close_stream e (channel_responder handler s) =
    on_stream (channel_responder handler) (ChannelServing.close e s)

-- `Partial<RSocket>`: the handlers of requests that the application has
pub record RSocket : Type 0 where
  pub fire_and_forget : Option (Payload → Bool)
  pub request_response : Option (Payload → Sending.Outcome)
  pub request_stream : Option (Payload → Option Number → Sending.Outcome)
  pub request_channel : Option (Payload → Option Number → Bool → ChannelResponder.Outcome)

-- `ErrorCodes.REJECTED`
abbrev rejected : Number
rejected = pos 0x202

abbrev pub reject_request : Number → List Event × Option StreamHandler
reject_request id = (
  sent (
        error (record {
          flags = Flags.no_flags;
          stream_id = id;
          code = rejected;
          message = codes "No available handler found";
        }))
      ∷ [],
  none,
)

abbrev pub made :
    {S : Type 0} → (S → StreamHandler) → List Event × S → List Event × Option StreamHandler
made make (events, s) = (events, some (make s))

abbrev pub serve_fnf : Option (Payload → Bool) → RequestFrame → List Event × Option StreamHandler
serve_fnf none f = ([], none)
serve_fnf (some throws) f = made (fnf_responder throws) (RequestFnf.construct throws f)

abbrev pub serve_response :
    Option (Payload → Sending.Outcome) → ℕ → RequestFrame → List Event × Option StreamHandler
serve_response none size f = reject_request f.stream_id
serve_response (some handler) size f =
    made (response_responder handler) (ResponseResponder.construct handler f size)

abbrev pub serve_stream :
    Option (Payload → Option Number → Sending.Outcome)
    → ℕ
    → RequestManyFrame
    → List Event × Option StreamHandler
serve_stream none size f = reject_request f.stream_id
serve_stream (some handler) size f =
    made (stream_responder handler) (StreamResponder.construct handler f size)

abbrev pub serve_channel :
    Option (Payload → Option Number → Bool → ChannelResponder.Outcome)
    → ℕ
    → RequestManyFrame
    → List Event × Option StreamHandler
serve_channel none size f = reject_request f.stream_id
serve_channel (some handler) size f =
    made (channel_responder handler) (ChannelServing.construct handler f size)

-- `handle` of `DefaultStreamRequestHandler`: what is sent and called, and the responder
unfoldable pub serve : RSocket → ℕ → Frame → List Event × Option StreamHandler
serve rsocket size (request_fnf f) = serve_fnf rsocket.fire_and_forget f
serve rsocket size (request_response f) = serve_response rsocket.request_response size f
serve rsocket size (request_stream f) = serve_stream rsocket.request_stream size f
serve rsocket size (request_channel f) = serve_channel rsocket.request_channel size f
serve rsocket size _ = ([], none)
