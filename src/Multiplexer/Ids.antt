-- ===== src/Multiplexer/Ids.antt =====
-- A stream of the registry keeps its id, whatever it is called with.
pub mod Requesters
pub mod Responders
pub mod Channels
use rsocket.Prelude.{
  ℕ, ◌≡◌, refl, ap, ◌∙◌, Bool, true, false, Option, none, some, List, [], ◌∷◌, if_cases,
  if◌then◌else◌,
}
use rsocket.Prelude.Number.{Number}
use rsocket.Frames.{
  Frame, stream_id_of, request_fnf, request_response, request_stream, request_channel,
}
use rsocket.Reassembler.{Payload}
use rsocket.Streams.{StreamError, Event, registered_after}
use rsocket.Streams.Sending as Sending
use rsocket.RequestResponse as RequestResponse
use rsocket.RequestResponse.Responder as ResponseResponder
use rsocket.RequestFnf as RequestFnf
use rsocket.RequestStream as RequestStream
use rsocket.RequestStream.Responder as StreamResponder
use rsocket.RequestChannel as RequestChannel
use rsocket.RequestChannel.Responder as ChannelResponder
use rsocket.RequestChannel.Responder.{Signal}
use rsocket.RequestChannel.Serving as ChannelServing
use rsocket.Multiplexer.Handlers.{
  StreamHandler, id_of, response_requester, fnf_requester, stream_requester, channel_requester,
  response_responder, fnf_responder, stream_responder, channel_responder, Opening, open_response,
  open_fnf, open_stream, open_channel, ready, deliver, close_stream, RSocket, serve, serve_fnf,
  serve_response, serve_stream, serve_channel,
}
use rsocket.Multiplexer.Inputs.{use_of, sending, answer_response, answer_stream}
use rsocket.Multiplexer.Ids.Requesters.{
  response_close-id, response_handle-id, use_response-id, fnf_close-id, fnf_handle-id, use_fnf-id,
  stream_close-id, stream_handle-id, use_stream-id, channel_close-id, channel_handle-id,
  use_channel-id,
}
use rsocket.Multiplexer.Ids.Responders.{
  response_signalled-id, response_construct-id, response_respond-id, response_closed-id,
  fnf_construct-id, fnf_respond-id, fnf_closed-id, stream_signalled-id, stream_construct-id,
  stream_respond-id, stream_closed-id,
}
use rsocket.Multiplexer.Ids.Channels.{
  channel_signalled-id, channel_construct-id, channel_respond-id, channel_closed-id,
}

pub deliver-id : (frame : Frame) (h : StreamHandler) → id_of (deliver frame h).1 ≡ id_of h
unfolding deliver
deliver-id frame (response_requester s) = response_handle-id s frame
deliver-id frame (fnf_requester s) = fnf_handle-id s frame
deliver-id frame (stream_requester s) = stream_handle-id s frame
deliver-id frame (channel_requester s) = channel_handle-id s frame
deliver-id frame (response_responder handler s) = ap some (response_respond-id handler frame s)
deliver-id frame (fnf_responder throws s) = ap some (fnf_respond-id throws frame s)
deliver-id frame (stream_responder handler s) = ap some (stream_respond-id handler frame s)
deliver-id frame (channel_responder handler s) = ap some (channel_respond-id handler frame s)

pub close_stream-id :
    (e : Option StreamError) (h : StreamHandler) → id_of (close_stream e h).1 ≡ id_of h
unfolding close_stream
close_stream-id e (response_requester s) = response_close-id s e
close_stream-id e (fnf_requester s) = fnf_close-id s e
close_stream-id e (stream_requester s) = stream_close-id s e
close_stream-id e (channel_requester s) = channel_close-id s e
close_stream-id e (response_responder handler s) = ap some (response_closed-id s)
close_stream-id e (fnf_responder throws s) = ap some (fnf_closed-id s)
close_stream-id e (stream_responder handler s) = ap some (stream_closed-id s)
close_stream-id e (channel_responder handler s) = ap some (channel_closed-id e s)

answer_response-id :
    (o : Option Sending.Signal) (s : ResponseResponder.Responder)
    → (answer_response o s).1.stream_id ≡ s.stream_id
answer_response-id none s = refl
answer_response-id (some signal) s = response_signalled-id signal s

answer_stream-id :
    (o : Option Sending.Signal) (s : StreamResponder.Responder)
    → (answer_stream o s).1.stream_id ≡ s.stream_id
answer_stream-id none s = refl
answer_stream-id (some signal) s = stream_signalled-id signal s

pub use_of-id : (signal : Signal) (h : StreamHandler) → id_of (use_of signal h).1 ≡ id_of h
use_of-id signal (response_requester s) = use_response-id s signal
use_of-id signal (fnf_requester s) = use_fnf-id s signal
use_of-id signal (stream_requester s) = use_stream-id s signal
use_of-id signal (channel_requester s) = use_channel-id s signal
use_of-id signal (response_responder handler s) = ap some (answer_response-id (sending signal) s)
use_of-id signal (fnf_responder throws s) = refl
use_of-id signal (stream_responder handler s) = ap some (answer_stream-id (sending signal) s)
use_of-id signal (channel_responder handler s) = ap some (channel_signalled-id signal s)

-- A stream that is connected when it is ready has the id that it is given.
abbrev pub Named : Number → List Event × StreamHandler → Type 0
Named id (events, h) = registered_after events false ≡ true → id_of h ≡ some id

pub ready-Named : (id : Number) (o : Opening) → Named id (ready id o)
unfolding ready RequestResponse.handle_ready RequestFnf.handle_ready RequestStream.handle_ready
    RequestChannel.handle_ready
ready-Named id (open_response s) =
    if_cases
      (λ (r : List Event × RequestResponse.Requester). Named id (r.0, response_requester r.1))
      s.done (λ done on. absurd cc) (λ going on. refl)
ready-Named id (open_fnf s) =
    if_cases (λ (r : List Event × RequestFnf.Requester). Named id (r.0, fnf_requester r.1)) s.done
      (λ done on. absurd cc) (λ going on. refl)
ready-Named id (open_stream s) =
    if_cases (λ (r : List Event × RequestStream.Requester). Named id (r.0, stream_requester r.1))
      s.done (λ done on. absurd cc) (λ going on. refl)
ready-Named id (open_channel s) =
    if_cases (λ (r : List Event × RequestChannel.Requester). Named id (r.0, channel_requester r.1))
      s.outbound_done (λ done on. absurd cc) (λ going on. refl)

-- A request makes a responder with the id of its frame, or none.
abbrev pub Makes : Number → List Event × Option StreamHandler → Type 0
Makes id (events, none) = Unit
Makes id (events, some h) = id_of h ≡ some id

module _ (rsocket : RSocket) (size : ℕ) where
  pub serve-Makes : (frame : Frame) → Makes (stream_id_of frame) (serve rsocket size frame)
  unfolding serve stream_id_of
  serve-Makes (request_fnf f) = fnf rsocket.fire_and_forget
    where
      fnf : (o : Option (Payload → Bool)) → Makes f.stream_id (serve_fnf o f)
      fnf none = tt
      fnf (some throws) = ap some (fnf_construct-id throws f)
  serve-Makes (request_response f) = response rsocket.request_response
    where
      response :
          (o : Option (Payload → Sending.Outcome)) → Makes f.stream_id (serve_response o size f)
      response none = tt
      response (some handler) = ap some (response_construct-id handler f size)
  serve-Makes (request_stream f) = stream rsocket.request_stream
    where
      stream :
          (o : Option (Payload → Option Number → Sending.Outcome))
          → Makes f.stream_id (serve_stream o size f)
      stream none = tt
      stream (some handler) = ap some (stream_construct-id handler f size)
  serve-Makes (request_channel f) = channel rsocket.request_channel
    where
      channel :
          (o : Option (Payload → Option Number → Bool → ChannelResponder.Outcome))
          → Makes f.stream_id (serve_channel o size f)
      channel none = tt
      channel (some handler) = ap some (channel_construct-id handler f size)
  serve-Makes _ = tt
